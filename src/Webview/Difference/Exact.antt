-- ===== src/Webview/Difference/Exact.antt =====
-- src/cli/webview_cef/shm_diff.h: what the two loops find.
use idk_overlay.Prelude.{
  ℕ, zero, suc, ◌+◌, ◌*◌, ◌≤◌, ◌<◌, ◌≡◌, refl, sym, ap, subst, ◌∙◌, List, [], ◌∷◌, Bool, true,
  false, ◌⊎◌, inl, inr, take, drop, get_elem?, get_elem?-take, get_elem?-drop, leb, if◌then◌else◌,
  Bool-cases, arith,
}
use idk_overlay.Webview.Difference.{Box, same, widen, scan_row}

pub same-equal : (xs ys : List ℕ) → same xs ys ≡ true → xs ≡ ys
unfolding same
same-equal [] [] e = refl
same-equal [] (y ∷ ys) e = absurd (ground (arith, e))
same-equal (x ∷ xs) [] e = absurd (ground (arith, e))
same-equal (x ∷ xs) (y ∷ ys) e =
    let head : x ≡ y = ground (arith, e) in
    let tail : xs ≡ ys = same-equal xs ys (ground (arith, e)) in
    ap (λ z. z ∷ xs) head ∙ ap (λ zs. y ∷ zs) tail

-- The pixel `b` of row `a` stands in the box.
abbrev pub InBox : ℕ → ℕ → Box → Type 0
InBox a b box = (box.x0 ≤ b) × (b < box.x1) × (box.y0 ≤ a) × (a < box.y1)

-- The corners of a box over a canvas: those at the start, or those of a rectangle.
pub record IsBox (w h : ℕ) (box : Box) : Type 0 where
  pub right : box.x1 ≤ w
  pub low : box.y1 ≤ h
  pub shape :
      ((box.x0 ≡ w) × (box.y0 ≡ h) × (box.x1 ≡ 0) × (box.y1 ≡ 0))
      ⊎ ((box.x0 < box.x1) × (box.y0 < box.y1))

widen-IsBox : (w h x y : ℕ) (box : Box) → IsBox w h box → x < w → y < h → IsBox w h (widen x y box)
unfolding widen
widen-IsBox w h x y box i hx hy = record {
  right = ground (arith, i.right, hx);
  low = ground (arith, i.low, hy);
  shape = inr (ground (arith, i.shape), ground (arith, i.shape));
}

widen-grows : (a b x y : ℕ) (box : Box) → InBox a b box → InBox a b (widen x y box)
unfolding widen
widen-grows a b x y box i = ground (arith, i)

widen-covers : (w h x y : ℕ) (box : Box) → InBox y x (widen x y box)
unfolding widen
widen-covers w h x y box = ground arith

-- Pixels that agree leave the box, and others widen it.
abbrev step : Bool → ℕ → ℕ → Box → Box
step e x y box = if e then box else widen x y box

step-grows : (e : Bool) (a b x y : ℕ) (box : Box) → InBox a b box → InBox a b (step e x y box)
step-grows true a b x y box i = i
step-grows false a b x y box i = widen-grows a b x y box i

step-IsBox :
    (e : Bool) (w h x y : ℕ) (box : Box)
    → IsBox w h box
    → x < w
    → y < h
    → IsBox w h (step e x y box)
step-IsBox true w h x y box i hx hy = i
step-IsBox false w h x y box i hx hy = widen-IsBox w h x y box i hx hy

scan_row-grows :
    (n a b x y : ℕ) (p q : List ℕ) (box : Box) → InBox a b box → InBox a b (scan_row n x y p q box)
unfolding scan_row
scan_row-grows zero a b x y p q box i = i
scan_row-grows (suc n) a b x y p q box i =
    scan_row-grows n a b (suc x) y p q _
      (step-grows (same (take 4 (drop (x * 4) p)) (take 4 (drop (x * 4) q))) a b x y box i)

scan_row-IsBox :
    (n w h x y : ℕ) (p q : List ℕ) (box : Box)
    → IsBox w h box
    → x + n ≤ w
    → y < h
    → IsBox w h (scan_row n x y p q box)
unfolding scan_row
scan_row-IsBox zero w h x y p q box i l hy = i
scan_row-IsBox (suc n) w h x y p q box i l hy =
    scan_row-IsBox n w h (suc x) y p q _
      (step-IsBox (same (take 4 (drop (x * 4) p)) (take 4 (drop (x * 4) q))) w h x y box i
        (omega (arith, l)) hy)
      (omega (arith, l)) hy

-- Equal pieces have equal bytes.
pub prefix-byte :
    (n k : ℕ) (p q : List ℕ) → k < n → take n p ≡ take n q → get_elem? p k ≡ get_elem? q k
prefix-byte n k p q l e =
    sym (get_elem?-take n p k l) ∙ ap (λ r. get_elem? r k) e ∙ get_elem?-take n q k l

chunk-byte :
    (n at k : ℕ) (p q : List ℕ)
    → k < n
    → take n (drop at p) ≡ take n (drop at q)
    → get_elem? p (at + k) ≡ get_elem? q (at + k)
chunk-byte n at k p q l e =
    sym (get_elem?-drop at p k)
    ∙ prefix-byte n k (drop at p) (drop at q) l e
    ∙ get_elem?-drop at q k

pub scan_row-covers :
    (n b c x y : ℕ) (p q : List ℕ) (box : Box)
    → x ≤ b
    → b < x + n
    → c < 4
    → InBox y b (scan_row n x y p q box) ⊎ (get_elem? p (b * 4 + c) ≡ get_elem? q (b * 4 + c))
unfolding scan_row
scan_row-covers zero b c x y p q box lo hi hc = absurd (omega (arith, lo, hi))
scan_row-covers (suc n) b c x y p q box lo hi hc = elim (Bool-cases (leb b x)) [
  | inl e ↦ here (ground (arith, e, lo))
  | inr e ↦ scan_row-covers n b c (suc x) y p q _ (ground (arith, e)) (omega (arith, hi)) hc
]
  where
    agree : Bool
    agree = same (take 4 (drop (x * 4) p)) (take 4 (drop (x * 4) q))

    at_x :
        (e : Bool)
        → agree ≡ e
        → InBox y x (scan_row n (suc x) y p q (step e x y box))
          ⊎ (get_elem? p (x * 4 + c) ≡ get_elem? q (x * 4 + c))
    at_x true e = inr (chunk-byte 4 (x * 4) c p q hc (same-equal _ _ e))
    at_x false e = inl (scan_row-grows n y x (suc x) y p q _ (widen-covers 0 0 x y box))

    here :
        b ≡ x
        → InBox y b (scan_row n (suc x) y p q (step agree x y box))
          ⊎ (get_elem? p (b * 4 + c) ≡ get_elem? q (b * 4 + c))
    here e =
        subst
          (λ m.
            InBox y m (scan_row n (suc x) y p q (step agree x y box))
            ⊎ (get_elem? p (m * 4 + c) ≡ get_elem? q (m * 4 + c)))
          (sym e) (at_x agree refl)

-- Rows that agree are skipped.
abbrev pub row_step : Bool → ℕ → ℕ → List ℕ → List ℕ → Box → Box
row_step e w y p q box = if e then box else scan_row w 0 y p q box

pub row_step-grows :
    (e : Bool) (a b w y : ℕ) (p q : List ℕ) (box : Box)
    → InBox a b box
    → InBox a b (row_step e w y p q box)
row_step-grows true a b w y p q box i = i
row_step-grows false a b w y p q box i = scan_row-grows w a b 0 y p q box i

pub row_step-IsBox :
    (e : Bool) (w h y : ℕ) (p q : List ℕ) (box : Box)
    → IsBox w h box
    → y < h
    → IsBox w h (row_step e w y p q box)
row_step-IsBox true w h y p q box i hy = i
row_step-IsBox false w h y p q box i hy = scan_row-IsBox w w h 0 y p q box i (omega arith) hy
