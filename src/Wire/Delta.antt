-- ===== src/Wire/Delta.antt =====
-- include/public/idk_shm_delta.h: the optional rectangle transport. Lengths are uint64_t and size_t,
-- both 64 bits wide, with their wrap-around; every other field is below 2^32.
use idk_overlay.Prelude.{
  ℕ, zero, suc, ◌+◌, ◌-◌, ◌*◌, ◌%◌, ◌≤◌, ◌<◌, ◌≡◌, ◌↔◌, refl, ap, sym, ◌∙◌, List, [], ◌++◌, Bool,
  true, false, not, ◌||◌, Option, none, some, ltb, leb, ◌==◌, if◌then◌else◌, length, take, drop,
  get_elem?, length-append, length-take, length-drop, get_elem?-append_left, get_elem?-append_right,
  get_elem?-take, get_elem?-drop, arith, Bool-cases, inl, inr,
}
use native.Mathlib.Nat.{mul_comm, mul_assoc, suc-mul, zero-mul, mul-le-mul_right, mul-le-mul}
use idk_overlay.Wire.Bytes.{le32}

-- IDK_SHM_DELTA_MAGIC, sizeof(idk_shm_delta_t)
abbrev pub delta_magic : ℕ
delta_magic = 827475017

abbrev pub delta_size : ℕ
delta_size = 20

-- idk_shm_delta_t
pub record Delta : Type 0 where
  pub magic : ℕ
  pub x : ℕ
  pub y : ℕ
  pub width : ℕ
  pub height : ℕ

-- 2^64
abbrev pub wrap64 : ℕ
wrap64 = 18446744073709551616

-- `(uint64_t)r->width * r->height * 4u + sizeof(*r)`
unfoldable pub delta_len : Delta → ℕ
delta_len r = (((r.width * r.height) % wrap64 * 4) % wrap64 + delta_size) % wrap64

-- idk_shm_delta_validate; `len <= SIZE_MAX` holds of every uint64_t.
unfoldable pub validate : Delta → ℕ → ℕ → ℕ → Bool
unfolding delta_len
validate r w h mapped_size =
    if not (r.magic == delta_magic)
      || (w == 0)
      || (h == 0)
      || (r.width == 0)
      || (r.height == 0)
      || leb w r.x
      || leb h r.y
      || ltb (w - r.x) r.width
      || ltb (h - r.y) r.height
    then false
    else delta_len r == mapped_size

-- The loop of idk_shm_delta_pack: `n` rows from row `y` of the canvas on.
unfoldable pub pack_rows : ℕ → ℕ → Delta → ℕ → List ℕ → List ℕ
pack_rows zero y r w source = []
pack_rows (suc n) y r w source =
    take (r.width * 4) (drop ((y * w + r.x) * 4) source) ++ pack_rows n (suc y) r w source

unfoldable pub encode_delta : Delta → List ℕ
encode_delta r = le32 r.magic ++ le32 r.x ++ le32 r.y ++ le32 r.width ++ le32 r.height

-- idk_shm_delta_pack: the bytes that it writes from `dst` on, or `none` where it returns false.
unfoldable pub pack : ℕ → List ℕ → ℕ → ℕ → Delta → Option (List ℕ)
unfolding validate
pack capacity source w h roi =
    if validate roi w h capacity
    then some (encode_delta roi ++ pack_rows roi.height roi.y roi w source)
    else none

-- What a rectangle that is packed has passed, and what is written.
pub pack-cases :
    (r : Delta) (w h capacity : ℕ) (source out : List ℕ)
    → pack capacity source w h r ≡ some out
    → (validate r w h capacity ≡ true) × (out ≡ encode_delta r ++ pack_rows r.height r.y r w source)
unfolding pack
pack-cases r w h capacity source out e = elim (Bool-cases (validate r w h capacity)) [
  | inl v ↦ (v, ground (arith, v, e))
  | inr v ↦ absurd (ground (arith, v, e))
]

-- The rectangle stands in the canvas.
abbrev pub IsInside : Delta → ℕ → ℕ → Type 0
IsInside r w h =
    (r.magic ≡ delta_magic)
    × (0 < r.width)
    × (0 < r.height)
    × (r.x + r.width ≤ w)
    × (r.y + r.height ≤ h)

-- A rectangle is accepted exactly if it has the magic, is not empty, stands in the canvas, and its
-- length, computed modulo 2^64, is the size of the mapping.
pub validate-IsInside :
    (r : Delta) (w h size : ℕ)
    → (validate r w h size ≡ true) ↔ (IsInside r w h × (delta_len r ≡ size))
unfolding validate
validate-IsInside r w h size = ground arith

-- A row of a rectangle inside the canvas ends inside the canvas's bytes.
row_end : (a h w x width : ℕ) → a < h → x + width ≤ w → (a * w + x) * 4 + width * 4 ≤ w * h * 4
row_end a h w x width l i =
    omega (arith, mul-le-mul_right {m = suc a} {n = h} w l, suc-mul a w, mul_comm w h, i)

row-length :
    (r : Delta) (y h w : ℕ) (source : List ℕ)
    → length source ≡ w * h * 4
    → y < h
    → r.x + r.width ≤ w
    → length (take (r.width * 4) (drop ((y * w + r.x) * 4) source)) ≡ r.width * 4
row-length r y h w source e l i =
    length-take (r.width * 4) (drop ((y * w + r.x) * 4) source)
      (omega (arith, length-drop ((y * w + r.x) * 4) source, row_end y h w r.x r.width l i, e))

pack_rows-length :
    (n y h w : ℕ) (r : Delta) (source : List ℕ)
    → length source ≡ w * h * 4
    → y + n ≤ h
    → r.x + r.width ≤ w
    → length (pack_rows n y r w source) ≡ n * (r.width * 4)
unfolding pack_rows
pack_rows-length zero y h w r source e l i = sym (zero-mul (r.width * 4))
pack_rows-length (suc n) y h w r source e l i = omega (
  arith,
  length-append (take (r.width * 4) (drop ((y * w + r.x) * 4) source))
      (pack_rows n (suc y) r w source),
  row-length r y h w source e (omega (arith, l)) i,
  pack_rows-length n (suc y) h w r source e (omega (arith, l)) i,
  suc-mul n (r.width * 4),
)

pack_rows-pixels :
    (n y h w k j : ℕ) (r : Delta) (source : List ℕ)
    → length source ≡ w * h * 4
    → y + n ≤ h
    → r.x + r.width ≤ w
    → k < n
    → j < r.width * 4
    → get_elem? (pack_rows n y r w source) (k * (r.width * 4) + j)
      ≡ get_elem? source (((y + k) * w + r.x) * 4 + j)
unfolding pack_rows
pack_rows-pixels zero y h w k j r source e l i hk hj = absurd (omega arith)
pack_rows-pixels (suc n) y h w zero j r source e l i hk hj =
    let row : List ℕ = take (r.width * 4) (drop ((y * w + r.x) * 4) source) in
    ap (get_elem? (row ++ pack_rows n (suc y) r w source)) (omega (arith, zero-mul (r.width * 4)))
    ∙ get_elem?-append_left row (pack_rows n (suc y) r w source) j
        (omega (arith, row-length r y h w source e (omega (arith, l)) i, hj))
    ∙ get_elem?-take (r.width * 4) (drop ((y * w + r.x) * 4) source) j hj
    ∙ get_elem?-drop ((y * w + r.x) * 4) source j
    ∙ ap (λ a. get_elem? source ((a * w + r.x) * 4 + j)) (omega arith)
pack_rows-pixels (suc n) y h w (suc k) j r source e l i hk hj =
    let row : List ℕ = take (r.width * 4) (drop ((y * w + r.x) * 4) source) in
    ap (get_elem? (row ++ pack_rows n (suc y) r w source)) (omega (arith, suc-mul k (r.width * 4)))
    ∙ get_elem?-append_right row (pack_rows n (suc y) r w source) (r.width * 4)
        (k * (r.width * 4) + j) (row-length r y h w source e (omega (arith, l)) i)
    ∙ pack_rows-pixels n (suc y) h w k j r source e (omega (arith, l)) i (omega (arith, hk)) hj
    ∙ ap (λ a. get_elem? source ((a * w + r.x) * 4 + j)) (omega arith)

pub delta_len-exact :
    (r : Delta) (w h : ℕ)
    → IsInside r w h
    → w * h * 4 + delta_size < wrap64
    → delta_len r ≡ r.height * (r.width * 4) + delta_size
unfolding delta_len
delta_len-exact r w h i small =
    let area : r.width * r.height ≤ w * h = mul-le-mul (omega (arith, i)) (omega (arith, i)) in
    omega (arith, area, small, sym (mul_assoc r.height r.width 4), mul_comm r.height r.width)

-- On a canvas whose bytes and a header are fewer than 2^64 and that `source` holds whole, packing
-- an accepted rectangle writes as many bytes as the mapping has, and byte `j` of its row `k` is that
-- of the canvas at the rectangle's place.
pub pack-pixels :
    (r : Delta) (w h capacity k j : ℕ) (source : List ℕ)
    → validate r w h capacity ≡ true
    → w * h * 4 + delta_size < wrap64
    → length source ≡ w * h * 4
    → k < r.height
    → j < r.width * 4
    → (out : List ℕ) × (pack capacity source w h r ≡ some out)
      × (length out ≡ capacity)
      × (get_elem? out (delta_size + (k * (r.width * 4) + j))
          ≡ get_elem? source (((r.y + k) * w + r.x) * 4 + j))
unfolding pack encode_delta le32
pack-pixels r w h capacity k j source v small e hk hj =
    let (i, len) = (validate-IsInside r w h capacity).0 v in
    let body : List ℕ = pack_rows r.height r.y r w source in
    (
      encode_delta r ++ body,
      rw (v) refl,
      omega (
        arith,
        delta_len-exact r w h i small,
        len,
        pack_rows-length r.height r.y h w r source e (omega (arith, i)) (omega (arith, i)),
      ),
      (get_elem?-append_right (encode_delta r) body delta_size (k * (r.width * 4) + j) refl
          ∙ pack_rows-pixels r.height r.y h w k j r source e (omega (arith, i)) (omega (arith, i))
              hk hj),
    )

-- The length wraps around: a rectangle inside the canvas whose area is a multiple of 2^62 is
-- accepted with a mapping of 20 bytes, the header's alone.
pub validate-wraps :
    (r : Delta) (w h q : ℕ)
    → IsInside r w h
    → r.width * r.height ≡ q * 4611686018427387904
    → validate r w h delta_size ≡ true
unfolding delta_len
validate-wraps r w h q i e = (validate-IsInside r w h delta_size).1 (i, omega (arith, e))
