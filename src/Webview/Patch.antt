-- ===== src/Webview/Patch.antt =====
-- src/cli/webview_cef/view.cc: the rows of a rectangle written over a canvas of RGBA pixels.
pub mod Rows
use idk_overlay.Prelude.{
  ℕ, zero, suc, ◌+◌, ◌-◌, ◌*◌, ◌≤◌, ◌<◌, ◌≡◌, refl, sym, ap, ◌∙◌, List, ◌++◌, ◌⊎◌, inl, inr, length,
  take, drop, ltb, leb, ◌&&◌, ltb→lt, Bool-cases, get_elem?, length-append, length-take,
  length-drop, get_elem?-append_left, get_elem?-append_right, get_elem?-take, get_elem?-drop, arith,
}
use native.Mathlib.Nat.{mul_comm, mul-le-mul_right, suc-mul}
use idk_overlay.Wire.Delta.{Delta}

-- memcpy of `bytes` to the place `at` of a buffer.
unfoldable pub splice : ℕ → List ℕ → List ℕ → List ℕ
splice at bytes buffer = take at buffer ++ (bytes ++ drop (at + length bytes) buffer)

-- The loop over the rows of `roi` in SendShmPixels: `n` rows from row `y` of the canvas on.
unfoldable pub patch_rows : ℕ → ℕ → Delta → ℕ → List ℕ → List ℕ → List ℕ
patch_rows zero y roi w px shadow = shadow
patch_rows (suc n) y roi w px shadow =
    patch_rows n (suc y) roi w px
      (splice ((y * w + roi.x) * 4) (take (roi.width * 4) (drop ((y * w + roi.x) * 4) px)) shadow)

pub length-splice :
    (at : ℕ) (bytes buffer : List ℕ)
    → at + length bytes ≤ length buffer
    → length (splice at bytes buffer) ≡ length buffer
unfolding splice
length-splice at bytes buffer h = omega (
  arith,
  h,
  length-append (take at buffer) (bytes ++ drop (at + length bytes) buffer),
  length-append bytes (drop (at + length bytes) buffer),
  length-take at buffer (omega (arith, h)),
  length-drop (at + length bytes) buffer,
)

pub splice-before :
    (at i : ℕ) (bytes buffer : List ℕ)
    → at + length bytes ≤ length buffer
    → i < at
    → get_elem? (splice at bytes buffer) i ≡ get_elem? buffer i
unfolding splice
splice-before at i bytes buffer h l =
    get_elem?-append_left (take at buffer) (bytes ++ drop (at + length bytes) buffer) i
      (omega (arith, length-take at buffer (omega (arith, h)), l))
    ∙ get_elem?-take at buffer i l

pub splice-inside :
    (at i : ℕ) (bytes buffer : List ℕ)
    → at + length bytes ≤ length buffer
    → i < length bytes
    → get_elem? (splice at bytes buffer) (at + i) ≡ get_elem? bytes i
unfolding splice
splice-inside at i bytes buffer h l =
    get_elem?-append_right (take at buffer) (bytes ++ drop (at + length bytes) buffer) at i
      (length-take at buffer (omega (arith, h)))
    ∙ get_elem?-append_left bytes (drop (at + length bytes) buffer) i l

pub splice-after :
    (at i : ℕ) (bytes buffer : List ℕ)
    → at + length bytes ≤ length buffer
    → at + length bytes ≤ i
    → get_elem? (splice at bytes buffer) i ≡ get_elem? buffer i
unfolding splice
splice-after at i bytes buffer h l =
    let rest = drop (at + length bytes) buffer in
    ap (get_elem? (take at buffer ++ (bytes ++ rest)))
      (let e : i ≡ at + (length bytes + (i - (at + length bytes))) = omega (arith, l) in e)
    ∙ get_elem?-append_right (take at buffer) (bytes ++ rest) at
        (length bytes + (i - (at + length bytes))) (length-take at buffer (omega (arith, h)))
    ∙ get_elem?-append_right bytes rest (length bytes) (i - (at + length bytes)) refl
    ∙ get_elem?-drop (at + length bytes) buffer (i - (at + length bytes))
    ∙ ap (get_elem? buffer) (omega (arith, l))
