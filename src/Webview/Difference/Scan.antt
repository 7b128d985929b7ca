-- ===== src/Webview/Difference/Scan.antt =====
-- src/cli/webview_cef/shm_diff.h: what the outer loop finds.
use idk_overlay.Prelude.{
  ℕ, zero, suc, ◌+◌, ◌*◌, ◌≤◌, ◌<◌, ◌≡◌, refl, sym, ap, subst, ◌∙◌, List, Bool, true, false, ◌⊎◌,
  inl, inr, take, drop, get_elem?, get_elem?-drop, leb, Bool-cases, arith,
}
use idk_overlay.Webview.Patch.Rows.{byte}
use idk_overlay.Webview.Difference.{Box, same, scan_row, scan_rows}
use idk_overlay.Webview.Difference.Exact.{
  InBox, IsBox, row_step, row_step-grows, row_step-IsBox, same-equal, prefix-byte, scan_row-covers,
}

pub scan_rows-grows :
    (n a b y w : ℕ) (p q : List ℕ) (box : Box) → InBox a b box → InBox a b (scan_rows n y w p q box)
unfolding scan_rows
scan_rows-grows zero a b y w p q box i = i
scan_rows-grows (suc n) a b y w p q box i =
    scan_rows-grows n a b (suc y) w p q _
      (row_step-grows _ a b w y (drop (y * w * 4) p) (drop (y * w * 4) q) box i)

pub scan_rows-IsBox :
    (n w h y : ℕ) (p q : List ℕ) (box : Box)
    → IsBox w h box
    → y + n ≤ h
    → IsBox w h (scan_rows n y w p q box)
unfolding scan_rows
scan_rows-IsBox zero w h y p q box i l = i
scan_rows-IsBox (suc n) w h y p q box i l =
    scan_rows-IsBox n w h (suc y) p q _
      (row_step-IsBox _ w h y (drop (y * w * 4) p) (drop (y * w * 4) q) box i (omega (arith, l)))
      (omega (arith, l))

-- A byte of row `y`, from the row's start.
pub row-byte :
    (w y b c : ℕ) (p : List ℕ)
    → get_elem? (drop (y * w * 4) p) (b * 4 + c) ≡ get_elem? p (byte w y b c)
row-byte w y b c p = get_elem?-drop (y * w * 4) p (b * 4 + c) ∙ ap (get_elem? p) (omega arith)

-- A pixel of a row that the loop has passed stands in the box, or its bytes agree.
pub scan_rows-covers :
    (n a b c y w : ℕ) (p q : List ℕ) (box : Box)
    → y ≤ a
    → a < y + n
    → b < w
    → c < 4
    → InBox a b (scan_rows n y w p q box)
      ⊎ (get_elem? p (byte w a b c) ≡ get_elem? q (byte w a b c))
unfolding scan_rows
scan_rows-covers zero a b c y w p q box lo hi hb hc = absurd (omega (arith, lo, hi))
scan_rows-covers (suc n) a b c y w p q box lo hi hb hc = elim (Bool-cases (leb a y)) [
  | inl e ↦ here (ground (arith, e, lo))
  | inr e ↦ scan_rows-covers n a b c (suc y) w p q _ (ground (arith, e)) (omega (arith, hi)) hb hc
]
  where
    rp : List ℕ
    rp = drop (y * w * 4) p

    rq : List ℕ
    rq = drop (y * w * 4) q

    agree : Bool
    agree = same (take (w * 4) rp) (take (w * 4) rq)

    in_row :
        InBox y b (scan_row w 0 y rp rq box) ⊎ (get_elem? rp (b * 4 + c) ≡ get_elem? rq (b * 4 + c))
        → InBox y b (scan_rows n (suc y) w p q (scan_row w 0 y rp rq box))
          ⊎ (get_elem? p (byte w y b c) ≡ get_elem? q (byte w y b c))
    in_row (inl i) = inl (scan_rows-grows n y b (suc y) w p q _ i)
    in_row (inr e) = inr (sym (row-byte w y b c p) ∙ e ∙ row-byte w y b c q)

    at_y :
        (e : Bool)
        → agree ≡ e
        → InBox y b (scan_rows n (suc y) w p q (row_step e w y rp rq box))
          ⊎ (get_elem? p (byte w y b c) ≡ get_elem? q (byte w y b c))
    at_y true e = inr (
        sym (row-byte w y b c p)
        ∙ prefix-byte (w * 4) (b * 4 + c) rp rq (omega (arith, hb, hc)) (same-equal _ _ e)
        ∙ row-byte w y b c q)
    at_y false e = in_row (scan_row-covers w b c 0 y rp rq box (omega arith) (omega (arith, hb)) hc)

    here :
        a ≡ y
        → InBox a b (scan_rows n (suc y) w p q (row_step agree w y rp rq box))
          ⊎ (get_elem? p (byte w a b c) ≡ get_elem? q (byte w a b c))
    here e =
        subst
          (λ m.
            InBox m b (scan_rows n (suc y) w p q (row_step agree w y rp rq box))
            ⊎ (get_elem? p (byte w m b c) ≡ get_elem? q (byte w m b c)))
          (sym e) (at_y agree refl)
