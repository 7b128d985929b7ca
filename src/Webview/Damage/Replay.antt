-- ===== src/Webview/Damage/Replay.antt =====
-- src/cli/webview_cef/view.cc: the rectangle that choose_shm_roi answers, replayed over the baseline.
use idk_overlay.Prelude.{
  ℕ, ◌+◌, ◌-◌, ◌*◌, ◌≤◌, ◌<◌, ◌≡◌, refl, sym, ap, subst, List, [], ◌∷◌, false, some, ◌==◌, ◌⊎◌, inl,
  inr, length, get_elem?, Option-cases, arith,
}
use idk_overlay.Prelude.Int.{pos_part, neg_part}
use idk_overlay.Wire.Delta.{Delta, delta_magic, IsInside}
use idk_overlay.Webview.Patch.{patch_rows}
use idk_overlay.Webview.Patch.Rows.{IsOver, InRows, byte, patch_rows-pixel, length-patch_rows}
use idk_overlay.Webview.Format.{to_gl_y}
use idk_overlay.Webview.Difference.{Box}
use idk_overlay.Webview.Difference.Exact.{InBox}
use idk_overlay.Webview.Difference.Canvases.{Canvases, equal_canvases}
use idk_overlay.Webview.Damage.{
  BlitRect, dirty_blit_rect, Rect, merge_rect, merge_rects, roi_of, choose_shm_roi,
}

-- Pixel `b` of row `a`, counted from the top, stands in a dirty rectangle.
abbrev pub InRect : ℕ → ℕ → Rect → Type 0
InRect a b r =
    (pos_part r.x ≤ b + neg_part r.x)
    × (b + neg_part r.x < pos_part r.x + r.width)
    × (pos_part r.y ≤ a + neg_part r.y)
    × (a + neg_part r.y < pos_part r.y + r.height)

abbrev pub InRects : ℕ → ℕ → List Rect → Type 0
InRects a b [] = ⊥
InRects a b (r ∷ rs) = InRect a b r ⊎ InRects a b rs

merge_rect-grows :
    (w h a b : ℕ) (r : Rect) (box next : Box)
    → merge_rect w h r box ≡ some next
    → InBox a b box
    → InBox a b next
unfolding merge_rect
merge_rect-grows w h a b r box next e i = ground (arith, e, i)

merge_rect-covers :
    (w h a b : ℕ) (r : Rect) (box next : Box)
    → merge_rect w h r box ≡ some next
    → a < h
    → b < w
    → InRect a b r
    → InBox a b next
unfolding merge_rect
merge_rect-covers w h a b r box next e ha hb i = ground (arith, e, i)

merge_rect-shape :
    (w h : ℕ) (r : Rect) (box next : Box)
    → merge_rect w h r box ≡ some next
    → box.x1 ≤ w
    → box.y1 ≤ h
    → (next.x1 ≤ w) × (next.y1 ≤ h) × (next.x0 < next.x1) × (next.y0 < next.y1)
unfolding merge_rect
merge_rect-shape w h r box next e i j = ground (arith, e, i, j)

merge_rects-next :
    (w h : ℕ) (r : Rect) (rs : List Rect) (box end : Box)
    → merge_rects w h (r ∷ rs) box ≡ some end
    → (next : Box) × (merge_rect w h r box ≡ some next) × (merge_rects w h rs next ≡ some end)
unfolding merge_rects
merge_rects-next w h r rs box end e = elim (Option-cases (merge_rect w h r box)) [
  | inl f ↦ absurd (ground (arith, e, f))
  | inr (next, f) ↦ (next, f, ground (arith, e, f))
]

merge_rects-grows :
    (w h a b : ℕ) (rs : List Rect) (box end : Box)
    → merge_rects w h rs box ≡ some end
    → InBox a b box
    → InBox a b end
unfolding merge_rects
merge_rects-grows w h a b [] box end e i = ground (arith, e, i)
merge_rects-grows w h a b (r ∷ rs) box end e i =
    let (next, f, g) = merge_rects-next w h r rs box end e in
    merge_rects-grows w h a b rs next end g (merge_rect-grows w h a b r box next f i)

merge_rects-covers :
    (w h a b : ℕ) (rs : List Rect) (box end : Box)
    → merge_rects w h rs box ≡ some end
    → a < h
    → b < w
    → InRects a b rs
    → InBox a b end
merge_rects-covers w h a b [] box end e ha hb i = absurd i
merge_rects-covers w h a b (r ∷ rs) box end e ha hb i =
    let (next, f, g) = merge_rects-next w h r rs box end e in
    elim i [
      | inl j ↦
          merge_rects-grows w h a b rs next end g (merge_rect-covers w h a b r box next f ha hb j)
      | inr j ↦ merge_rects-covers w h a b rs next end g ha hb j
    ]

no_more :
    (w h : ℕ) (box end : Box)
    → merge_rects w h [] box ≡ some end
    → (box.x1 ≤ w) × (box.y1 ≤ h) × (box.x0 < box.x1) × (box.y0 < box.y1)
    → (end.x1 ≤ w) × (end.y1 ≤ h) × (end.x0 < end.x1) × (end.y0 < end.y1)
unfolding merge_rects
no_more w h box end e s = ground (arith, e, s)

merge_rects-shape :
    (w h : ℕ) (rs : List Rect) (box end : Box)
    → merge_rects w h rs box ≡ some end
    → box.x1 ≤ w
    → box.y1 ≤ h
    → (rs ≡ []) ⊎ ((end.x1 ≤ w) × (end.y1 ≤ h) × (end.x0 < end.x1) × (end.y0 < end.y1))
merge_rects-shape w h [] box end e i j = inl refl
merge_rects-shape w h (r ∷ rs) box end e i j =
    let (next, f, g) = merge_rects-next w h r rs box end e in
    inr (last rs next (merge_rect-shape w h r box next f i j) g)
  where
    last :
        (rs : List Rect) (next : Box)
        → (next.x1 ≤ w) × (next.y1 ≤ h) × (next.x0 < next.x1) × (next.y0 < next.y1)
        → merge_rects w h rs next ≡ some end
        → (end.x1 ≤ w) × (end.y1 ≤ h) × (end.x0 < end.x1) × (end.y0 < end.y1)
    last [] next s g = no_more w h next end g s
    last (q ∷ rs) next s g =
        let (after, f, g') = merge_rects-next w h q rs next end g in
        last rs after (merge_rect-shape w h q next after f s.0 s.1) g'

-- The rectangle of a merged box.
abbrev made : ℕ → Box → Delta
made h box = record {
  magic = delta_magic;
  x = box.x0;
  y = h - box.y0 - (box.y1 - box.y0);
  width = box.x1 - box.x0;
  height = box.y1 - box.y0;
}

-- What an answer of choose_shm_roi tells of the merged box.
choose_shm_roi-box :
    (dirty : List Rect) (w h : ℕ) (roi : Delta)
    → choose_shm_roi dirty w h ≡ some roi
    → (box : Box) × (merge_rects w h dirty (record { x0 = w; y0 = h; x1 = 0; y1 = 0 }) ≡ some box)
      × ((length dirty == 0) ≡ false)
      × ((box.x1 - box.x0) * (box.y1 - box.y0) * 2 < w * h)
      × (roi ≡ made h box)
unfolding choose_shm_roi roi_of to_gl_y
choose_shm_roi-box dirty w h roi e =
    elim (Option-cases (merge_rects w h dirty (record { x0 = w; y0 = h; x1 = 0; y1 = 0 }))) [
      | inl f ↦ absurd (ground (arith, e, f))
      | inr (box, f) ↦ (box, f, ground (arith, e), ground (arith, e, f), ground (arith, e, f))
    ]

-- Every pixel where two canvases differ stands in a dirty rectangle; the canvases' rows count from
-- the bottom.
abbrev pub IsDamage : List Rect → List ℕ → List ℕ → ℕ → ℕ → Type 0
IsDamage dirty current baseline w h =
    (a b c : ℕ)
    → a < h
    → b < w
    → c < 4
    → InRects (h - 1 - a) b dirty
      ⊎ (get_elem? baseline (byte w a b c) ≡ get_elem? current (byte w a b c))

made-replay :
    (dirty : List Rect) (p q : List ℕ) (w h : ℕ) (box : Box)
    → Canvases p q w h
    → IsDamage dirty p q w h
    → merge_rects w h dirty (record { x0 = w; y0 = h; x1 = 0; y1 = 0 }) ≡ some box
    → (box.x1 ≤ w) × (box.y1 ≤ h) × (box.x0 < box.x1) × (box.y0 < box.y1)
    → patch_rows (box.y1 - box.y0) (h - box.y0 - (box.y1 - box.y0)) (made h box) w p q ≡ p
made-replay dirty p q w h box k d f s =
    equal_canvases w h _ p
      (length-patch_rows (box.y1 - box.y0) (h - box.y0 - (box.y1 - box.y0)) w h (made h box) p q
        over (omega (arith, s)))
      k.2
      (λ a b c ha hb hc.
        patch_rows-pixel (box.y1 - box.y0) (h - box.y0 - (box.y1 - box.y0)) w h a b c (made h box) p
          q over (omega (arith, s)) hb hc (near a b c ha hb (d a b c ha hb hc)))
  where
    over : IsOver (made h box) w h p q
    over = record { px = k.2; shadow = k.3; columns = omega (arith, s) }

    near :
        (a b c : ℕ)
        → a < h
        → b < w
        → InRects (h - 1 - a) b dirty ⊎ (get_elem? q (byte w a b c) ≡ get_elem? p (byte w a b c))
        → InRows (box.y1 - box.y0) (h - box.y0 - (box.y1 - box.y0)) (made h box) a b
          ⊎ (get_elem? q (byte w a b c) ≡ get_elem? p (byte w a b c))
    near a b c ha hb (inl i) =
        let j = merge_rects-covers w h (h - 1 - a) b dirty _ box f (omega (arith, ha)) hb i in
        inl (omega (arith, j, s, ha), omega (arith, j, s, ha), omega (arith, j), omega (arith, j))
    near a b c ha hb (inr e) = inr e

-- A rectangle that choose_shm_roi answers for two canvases of one size that differ only inside the
-- dirty rectangles has the magic, stands inside the canvas and has less than half of its area, and the
-- rows of the new canvas in it, written over the baseline, give the new canvas.
pub choose_shm_roi-replay :
    (dirty : List Rect) (current baseline : List ℕ) (w h : ℕ) (roi : Delta)
    → Canvases current baseline w h
    → IsDamage dirty current baseline w h
    → choose_shm_roi dirty w h ≡ some roi
    → IsInside roi w h
      × (roi.width * roi.height * 2 < w * h)
      × (patch_rows roi.height roi.y roi w current baseline ≡ current)
choose_shm_roi-replay dirty p q w h roi k d e =
    let (box, f, n, area, r) = choose_shm_roi-box dirty w h roi e in
    let s = shape n (merge_rects-shape w h dirty _ box f (omega arith) (omega arith)) in
    subst
      (λ z.
        IsInside z w h × (z.width * z.height * 2 < w * h) × (patch_rows z.height z.y z w p q ≡ p))
      (sym r)
      (
        (refl, omega (arith, s), omega (arith, s), omega (arith, s), omega (arith, s)),
        area,
        made-replay dirty p q w h box k d f s,
      )
  where
    shape : {P : Type 0} → ((length dirty == 0) ≡ false) → (dirty ≡ []) ⊎ P → P
    shape n (inl z) = absurd (ground (arith, n, ap length z))
    shape n (inr z) = z

-- The blit of a dirty rectangle stands inside both frames and turns its rows upside down.
dirty_blit_rect-IsInside :
    (r : Rect) (w h : ℕ) (b : BlitRect)
    → dirty_blit_rect r w h ≡ some b
    → (b.sx0 < b.sx1)
      × (b.sx1 ≤ w)
      × (b.sy0 < b.sy1)
      × (b.sy1 ≤ h)
      × (b.dx0 ≡ b.sx0)
      × (b.dx1 ≡ b.sx1)
      × (b.dy0 + b.sy0 ≡ h)
      × (b.dy1 + b.sy1 ≡ h)
unfolding dirty_blit_rect
dirty_blit_rect-IsInside r w h b e = ground (arith, e)
