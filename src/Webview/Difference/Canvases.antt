-- ===== src/Webview/Difference/Canvases.antt =====
-- Canvases of RGBA pixels that agree at every pixel.
use idk_overlay.Prelude.{
  ℕ, zero, suc, ◌+◌, ◌-◌, ◌*◌, ◌/◌, ◌%◌, ◌≤◌, ◌<◌, ◌≡◌, refl, sym, ap, subst, ◌∙◌, List, [], ◌∷◌,
  inl, inr, length, get_elem?, ltb, ltb→lt, Bool-cases, arith,
}
use native.Mathlib.Nat.{mul_comm, suc-mul}
use idk_overlay.Wire.Delta.{delta_size, wrap64}
use idk_overlay.Webview.Patch.Rows.{byte}

-- Every place of a canvas is a byte of a pixel.
pub place :
    (h w i : ℕ)
    → i < h * w * 4
    → (a : ℕ) × (b : ℕ) × (c : ℕ) × (a < h) × (b < w) × (c < 4) × (byte w a b c ≡ i)
place zero w i l = absurd (omega (arith, l))
place (suc h) w i l = elim (Bool-cases (ltb i (h * w * 4))) [
  | inl e ↦
      let (a, b, c, ha, hb, hc, q) = place h w i (ltb→lt i (h * w * 4) e) in
      (a, b, c, omega (arith, ha), hb, hc, q)
  | inr e ↦
      let low : h * w * 4 ≤ i = ground (arith, e) in
      (
        h,
        (i - h * w * 4) / 4,
        i % 4,
        omega arith,
        omega (arith, low, l, suc-mul h w),
        omega arith,
        omega (arith, low),
      )
]

-- Lists of one length that agree at every place are one list.
pub equal_lists :
    (xs ys : List ℕ)
    → length xs ≡ length ys
    → ((i : ℕ) → i < length xs → get_elem? xs i ≡ get_elem? ys i)
    → xs ≡ ys
equal_lists [] [] e f = refl
equal_lists [] (y ∷ ys) e f = absurd (omega (arith, e))
equal_lists (x ∷ xs) [] e f = absurd (omega (arith, e))
equal_lists (x ∷ xs) (y ∷ ys) e f =
    let head : x ≡ y = ground (arith, f 0 (omega arith)) in
    let tail : xs ≡ ys =
      equal_lists xs ys (omega (arith, e)) (λ i l. f (suc i) (omega (arith, l))) in
    ap (λ z. z ∷ xs) head ∙ ap (λ zs. y ∷ zs) tail

pub equal_canvases :
    (w h : ℕ) (xs ys : List ℕ)
    → length xs ≡ w * h * 4
    → length ys ≡ w * h * 4
    → ((a b c : ℕ)
        → a < h
        → b < w
        → c < 4
        → get_elem? xs (byte w a b c) ≡ get_elem? ys (byte w a b c))
    → xs ≡ ys
equal_canvases w h xs ys lx ly f = equal_lists xs ys (lx ∙ sym ly) at
  where
    at : (i : ℕ) → i < length xs → get_elem? xs i ≡ get_elem? ys i
    at i l =
        let (a, b, c, ha, hb, hc, e) = place h w i (omega (arith, lx, l, mul_comm w h)) in
        subst (λ m. get_elem? xs m ≡ get_elem? ys m) e (f a b c ha hb hc)

-- Two canvases of one size, not empty, whose bytes fit in the address space.
abbrev pub Canvases : List ℕ → List ℕ → ℕ → ℕ → Type 0
Canvases p q w h =
    (0 < w)
    × (0 < h)
    × (length p ≡ w * h * 4)
    × (length q ≡ w * h * 4)
    × (w * h * 4 + delta_size < wrap64)
