-- ===== src/Webview/Difference/Replay.antt =====
-- src/cli/webview_cef/shm_diff.h: a rectangle that find_delta answers, replayed over the baseline.
use idk_overlay.Prelude.{
  ℕ, zero, suc, ◌+◌, ◌-◌, ◌*◌, ◌%◌, ◌≤◌, ◌<◌, ◌≡◌, ◌≢◌, ◌↔◌, refl, sym, subst, ◌∙◌, List, [], ◌∷◌,
  true, ◌⊎◌, inl, inr, take, drop, get_elem?, ◌==◌, ◌||◌, Bool-cases, arith,
}
use native.Mathlib.Nat.{mul-le-mul}
use idk_overlay.Wire.Delta.{Delta, delta_magic, wrap64, IsInside}
use idk_overlay.Webview.Patch.{patch_rows}
use idk_overlay.Webview.Patch.Rows.{IsOver, InRows, byte, patch_rows-pixel, length-patch_rows}
use idk_overlay.Webview.Difference.{
  Box, unchanged, full, partial, same, scan_rows, choose, find_delta,
}
use idk_overlay.Webview.Difference.Exact.{InBox, IsBox}
use idk_overlay.Webview.Difference.Scan.{scan_rows-IsBox, scan_rows-covers}
use idk_overlay.Webview.Difference.Canvases.{Canvases, equal_canvases}

abbrev found : ℕ → ℕ → List ℕ → List ℕ → Box
found w h current baseline =
    scan_rows h 0 w current baseline (record { x0 = w; y0 = h; x1 = 0; y1 = 0 })

found-IsBox : (w h : ℕ) (p q : List ℕ) → IsBox w h (found w h p q)
found-IsBox w h p q =
    scan_rows-IsBox h w h 0 p q (record { x0 = w; y0 = h; x1 = 0; y1 = 0 })
      (record { right = omega arith; low = omega arith; shape = inl (refl, refl, refl, refl) })
      (omega arith)

choose-unchanged : (w h : ℕ) (box : Box) → choose w h box ≡ unchanged → box.x0 ≡ w
unfolding choose
choose-unchanged w h box e = ground (arith, e)

choose-partial :
    (w h : ℕ) (box : Box) (r : Delta)
    → choose w h box ≡ partial r
    → (box.x0 ≢ w)
      × ((((box.x1 - box.x0) * (box.y1 - box.y0)) % wrap64 * 2) % wrap64 < (w * h) % wrap64)
      × (r.magic ≡ delta_magic)
      × (r.x ≡ box.x0)
      × (r.y ≡ box.y0)
      × (r.width ≡ box.x1 - box.x0)
      × (r.height ≡ box.y1 - box.y0)
unfolding choose
choose-partial w h box r e = ground (arith, e)

find_delta-choose :
    (p q : List ℕ) (w h : ℕ)
    → find_delta p q w h ≢ full
    → (0 < w) × (0 < h) × (find_delta p q w h ≡ choose w h (found w h p q))
unfolding find_delta
find_delta-choose p q w h n = elim (Bool-cases ((w == 0) || (h == 0))) [
  | inl e ↦ absurd (n (rw (e) refl))
  | inr e ↦ (ground (arith, e), ground (arith, e), rw (e) refl)
]

same_refl : (xs : List ℕ) → same xs xs ≡ true
unfolding same
same_refl [] = refl
same_refl (x ∷ xs) = ground (arith, same_refl xs)

scan_rows_refl : (n y w : ℕ) (p : List ℕ) (box : Box) → scan_rows n y w p p box ≡ box
unfolding scan_rows
scan_rows_refl zero y w p box = refl
scan_rows_refl (suc n) y w p box =
    rw (same_refl (take (w * 4) (drop (y * w * 4) p))) (scan_rows_refl n (suc y) w p box)

-- A pixel outside the box that was found is the same on both canvases.
found-covers :
    (p q : List ℕ) (w h a b c : ℕ)
    → a < h
    → b < w
    → c < 4
    → InBox a b (found w h p q) ⊎ (get_elem? p (byte w a b c) ≡ get_elem? q (byte w a b c))
found-covers p q w h a b c ha hb hc =
    scan_rows-covers h a b c 0 w p q (record { x0 = w; y0 = h; x1 = 0; y1 = 0 }) (omega arith)
      (omega (arith, ha)) hb hc

same_canvas : (p : List ℕ) (w h : ℕ) → 0 < w → 0 < h → find_delta p p w h ≡ unchanged
unfolding find_delta choose
same_canvas p w h hw hh =
    ground (arith, scan_rows_refl h 0 w p (record { x0 = w; y0 = h; x1 = 0; y1 = 0 }))

-- On two canvases of one size, find_delta answers Unchanged exactly if they are equal.
pub find_delta-unchanged :
    (current baseline : List ℕ) (w h : ℕ)
    → Canvases current baseline w h
    → (find_delta current baseline w h ≡ unchanged) ↔ (current ≡ baseline)
find_delta-unchanged p q w h k = (equal, idle)
  where
    equal : find_delta p q w h ≡ unchanged → p ≡ q
    equal e = equal_canvases w h p q k.2 k.3 at
      where
        left : (found w h p q).x0 ≡ w
        left =
            let (_, _, f) = find_delta-choose p q w h (λ f. ground (arith, e, f)) in
            choose-unchanged w h (found w h p q) (sym f ∙ e)

        at :
            (a b c : ℕ)
            → a < h
            → b < w
            → c < 4
            → get_elem? p (byte w a b c) ≡ get_elem? q (byte w a b c)
        at a b c ha hb hc = elim (found-covers p q w h a b c ha hb hc) [
          | inl i ↦ absurd (omega (arith, i, left, hb))
          | inr f ↦ f
        ]

    idle : p ≡ q → find_delta p q w h ≡ unchanged
    idle e = subst (λ z. find_delta p z w h ≡ unchanged) e (same_canvas p w h k.0 k.1)

-- The rectangle that a Partial answer has.
partial-IsInside :
    (p q : List ℕ) (w h : ℕ) (r : Delta)
    → find_delta p q w h ≡ partial r
    → IsInside r w h
      × ((r.width * r.height) % wrap64 * 2 % wrap64 < (w * h) % wrap64)
      × (r.x ≡ (found w h p q).x0)
      × (r.y ≡ (found w h p q).y0)
      × (r.x + r.width ≡ (found w h p q).x1)
      × (r.y + r.height ≡ (found w h p q).y1)
partial-IsInside p q w h r e =
    let (hw, hh, f) = find_delta-choose p q w h (λ f. ground (arith, e, f)) in
    let (n, area, m, x, y, rw', rh) = choose-partial w h (found w h p q) r (sym f ∙ e) in
    let i = found-IsBox w h p q in
    let (wide, tall) = rectangle i.shape n in
    (
      (
        m,
        omega (arith, rw', wide),
        omega (arith, rh, tall),
        omega (arith, x, rw', wide, i.right),
        omega (arith, y, rh, tall, i.low),
      ),
      subst (λ z. (z * r.height) % wrap64 * 2 % wrap64 < (w * h) % wrap64) (sym rw')
          (subst
            (λ z.
              (((found w h p q).x1 - (found w h p q).x0) * z) % wrap64 * 2 % wrap64
              < (w * h) % wrap64)
            (sym rh) area),
      x,
      y,
      omega (arith, x, rw', wide),
      omega (arith, y, rh, tall),
    )
  where
    rectangle :
        (((found w h p q).x0 ≡ w)
            × ((found w h p q).y0 ≡ h)
            × ((found w h p q).x1 ≡ 0)
            × ((found w h p q).y1 ≡ 0))
          ⊎ (((found w h p q).x0 < (found w h p q).x1) × ((found w h p q).y0 < (found w h p q).y1))
        → (found w h p q).x0 ≢ w
        → ((found w h p q).x0 < (found w h p q).x1) × ((found w h p q).y0 < (found w h p q).y1)
    rectangle (inl s) n = absurd (n s.0)
    rectangle (inr s) n = s

-- A Partial answer for two canvases of one size is a rectangle with the magic inside the canvas, whose
-- area is below half of the canvas's, and the rows of the new canvas in it, written over the baseline,
-- give the new canvas.
pub find_delta-replay :
    (current baseline : List ℕ) (w h : ℕ) (r : Delta)
    → Canvases current baseline w h
    → find_delta current baseline w h ≡ partial r
    → IsInside r w h
      × (r.width * r.height * 2 < w * h)
      × (patch_rows r.height r.y r w current baseline ≡ current)
find_delta-replay p q w h r k e =
    let (i, area, x, y, x', y') = partial-IsInside p q w h r e in
    let small : r.width * r.height ≤ w * h = mul-le-mul (omega (arith, i)) (omega (arith, i)) in
    (
      i,
      omega (arith, area, small, k.4),
      equal_canvases w h _ p (length-patch_rows r.height r.y w h r p q (over i) (omega (arith, i)))
          k.2
          (λ a b c ha hb hc.
            patch_rows-pixel r.height r.y w h a b c r p q (over i) (omega (arith, i)) hb hc
              (near x y x' y' a b c (found-covers p q w h a b c ha hb hc))),
    )
  where
    over : IsInside r w h → IsOver r w h p q
    over i = record { px = k.2; shadow = k.3; columns = omega (arith, i) }

    near :
        r.x ≡ (found w h p q).x0
        → r.y ≡ (found w h p q).y0
        → r.x + r.width ≡ (found w h p q).x1
        → r.y + r.height ≡ (found w h p q).y1
        → (a b c : ℕ)
        → InBox a b (found w h p q) ⊎ (get_elem? p (byte w a b c) ≡ get_elem? q (byte w a b c))
        → InRows r.height r.y r a b ⊎ (get_elem? q (byte w a b c) ≡ get_elem? p (byte w a b c))
    near x y x' y' a b c (inl j) =
        inl (omega (arith, j, y), omega (arith, j, y'), omega (arith, j, x), omega (arith, j, x'))
    near x y x' y' a b c (inr f) = inr (sym f)
