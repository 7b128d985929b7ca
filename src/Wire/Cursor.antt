-- ===== src/Wire/Cursor.antt =====
-- `cursor_valid` of src/core/transport/socket/input.c and src/core/transport/shm/input.c (the same
-- text twice), with the limits of include/public/idk_input.h.
use native.Mathlib.Nat.{mul-le-mul}
use idk_overlay.Prelude.{
  ℕ, ◌*◌, ◌%◌, ◌^◌, ◌≤◌, ◌<◌, ◌≡◌, ◌↔◌, sym, ◌∙◌, arith, Bool-cases, inl, inr, true, Bool, false,
  not, ◌&&◌, ◌||◌, ltb, leb, ◌==◌, if◌then◌else◌,
}
use idk_overlay.Wire.{CursorUpdate}

abbrev pub cursor_magic : ℕ
cursor_magic = 0x52554B49

abbrev pub cursor_version : ℕ
cursor_version = 1

abbrev pub cursor_max_dim : ℕ
cursor_max_dim = 256

-- 256 * 256 * 4
abbrev pub cursor_max_bytes : ℕ
cursor_max_bytes = 262144

abbrev pub shape_default : ℕ
shape_default = 1

abbrev pub shape_all_resize : ℕ
shape_all_resize = 36

abbrev pub shape_custom : ℕ
shape_custom = 255

-- (uint32_t)width * height * 4u
abbrev pub image_bytes : ℕ → ℕ → ℕ
image_bytes w h = (((w * h) % 2 ^ 32) * 4) % 2 ^ 32

unfoldable pub cursor_valid : CursorUpdate → ℕ → Bool
cursor_valid c capacity =
    if not (c.magic == cursor_magic)
      || not (c.version == cursor_version)
      || ltb 1 c.visible
      || ltb cursor_max_bytes c.data_size
      || ltb capacity c.data_size
    then false
    else if c.visible == 0
    then c.data_size == 0
    else if c.shape == shape_custom
    then ltb 0 c.width
      && leb c.width cursor_max_dim
      && ltb 0 c.height
      && leb c.height cursor_max_dim
      && (c.data_size == image_bytes c.width c.height)
    else leb shape_default c.shape
      && leb c.shape shape_all_resize
      && (c.width == 0)
      && (c.height == 0)
      && (c.data_size == 0)

-- What the protocol means by a cursor: hidden, a named shape, or a custom image of w * h pixels.
pub data IsCursor (c : CursorUpdate) : Type 0 where
  hidden : c.visible ≡ 0 → c.data_size ≡ 0 → IsCursor c
  named :
      c.visible ≡ 1
      → shape_default ≤ c.shape
      → c.shape ≤ shape_all_resize
      → c.width ≡ 0
      → c.height ≡ 0
      → c.data_size ≡ 0
      → IsCursor c
  custom :
      c.visible ≡ 1
      → c.shape ≡ shape_custom
      → 0 < c.width
      → c.width ≤ cursor_max_dim
      → 0 < c.height
      → c.height ≤ cursor_max_dim
      → c.data_size ≡ c.width * c.height * 4
      → IsCursor c

pub image_bytes-exact :
    (w h : ℕ) → w ≤ cursor_max_dim → h ≤ cursor_max_dim → image_bytes w h ≡ w * h * 4
image_bytes-exact w h lw lh = let area : w * h ≤ 256 * 256 = mul-le-mul lw lh in omega (arith, area)

-- The header's fields, and the room for the image.
abbrev pub IsHeader : CursorUpdate → ℕ → Type 0
IsHeader c capacity =
    (c.magic ≡ cursor_magic)
    × (c.version ≡ cursor_version)
    × (c.data_size ≤ cursor_max_bytes)
    × (c.data_size ≤ capacity)

cursor_valid_sound :
    (c : CursorUpdate) (capacity : ℕ)
    → cursor_valid c capacity ≡ true
    → IsHeader c capacity × IsCursor c
unfolding cursor_valid
cursor_valid_sound c capacity v = elim (Bool-cases (c.visible == 0)) [
  | inl e0 ↦ (ground (arith, v), hidden (ground arith) (ground (arith, v)))
  | inr e1 ↦ elim (Bool-cases (c.shape == shape_custom)) [
    | inl s0 ↦ (
      ground (arith, v),
      custom (ground (arith, v)) (ground arith) (ground (arith, v)) (ground (arith, v))
          (ground (arith, v)) (ground (arith, v))
          (let d : c.data_size ≡ image_bytes c.width c.height = ground (arith, v) in
            d ∙ image_bytes-exact c.width c.height (ground (arith, v)) (ground (arith, v))),
    )
    | inr s1 ↦ (
      ground (arith, v),
      named (ground (arith, v)) (ground (arith, v)) (ground (arith, v)) (ground (arith, v))
          (ground (arith, v)) (ground (arith, v)),
    )
  ]
]

cursor_valid_complete :
    (c : CursorUpdate) (capacity : ℕ)
    → IsHeader c capacity
    → IsCursor c
    → cursor_valid c capacity ≡ true
unfolding cursor_valid
cursor_valid_complete c capacity h (hidden v s) = ground (arith, v, s, h)
cursor_valid_complete c capacity h (named v l u w z s) = ground (arith, v, l, u, w, z, s, h)
cursor_valid_complete c capacity h (custom v s w0 w1 h0 h1 d) =
    ground (arith, v, s, w0, w1, h0, h1, d, h, sym (image_bytes-exact c.width c.height w1 h1))

-- An update is valid exactly if its magic and version are right, its data fit the protocol's limit
-- and the caller's buffer, and it is one of the three kinds of cursor; the product of the sides of a
-- custom image does not wrap around.
pub cursor_valid-IsCursor :
    (c : CursorUpdate) (capacity : ℕ)
    → (cursor_valid c capacity ≡ true) ↔ (IsHeader c capacity × IsCursor c)
cursor_valid-IsCursor c capacity =
    (cursor_valid_sound c capacity, λ p. cursor_valid_complete c capacity p.0 p.1)
