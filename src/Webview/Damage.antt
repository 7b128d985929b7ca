-- ===== src/Webview/Damage.antt =====
-- src/cli/webview_cef/damage.h and choose_shm_roi of view.cc: Chromium's dirty rectangles, clipped. A
-- rectangle has signed coordinates; a width or height below 1 is 0 here. All sums and areas are in
-- int64_t, which they do not reach the end of. Where `x + width` is negative it is 0 here: the rectangle
-- is empty after clipping either way.
pub mod Replay
use idk_overlay.Prelude.{
  ℕ, ◌+◌, ◌-◌, ◌*◌, List, [], ◌∷◌, Bool, true, false, ◌||◌, Option, none, some, ltb, leb, ◌==◌, min,
  max, if◌then◌else◌, length,
}
use idk_overlay.Prelude.Int.{ℤ, pos_part, neg_part}
use idk_overlay.Wire.Delta.{Delta, delta_magic}
use idk_overlay.Webview.Format.{to_gl_y}
use idk_overlay.Webview.Difference.{Box}

-- CefRect
pub record Rect : Type 0 where
  pub x : ℤ
  pub y : ℤ
  pub width : ℕ
  pub height : ℕ

-- IdkBlitRect
pub record BlitRect : Type 0 where
  pub sx0 : ℕ
  pub sy0 : ℕ
  pub sx1 : ℕ
  pub sy1 : ℕ
  pub dx0 : ℕ
  pub dy0 : ℕ
  pub dx1 : ℕ
  pub dy1 : ℕ

-- idk_dirty_blit_rect: `out`, or `none` where it returns false.
unfoldable pub dirty_blit_rect : Rect → ℕ → ℕ → Option BlitRect
dirty_blit_rect r frame_w frame_h =
    let x0 = pos_part r.x in
    let y0 = pos_part r.y in
    let x1 = min frame_w (pos_part r.x + r.width - neg_part r.x) in
    let y1 = min frame_h (pos_part r.y + r.height - neg_part r.y) in
    if (frame_w == 0) || (frame_h == 0) || (r.width == 0) || (r.height == 0)
    then none
    else if leb x1 x0 || leb y1 y0
    then none
    else some (record {
      sx0 = x0;
      sy0 = y0;
      sx1 = x1;
      sy1 = y1;
      dx0 = x0;
      dy0 = frame_h - y0;
      dx1 = x1;
      dy1 = frame_h - y1;
    })

-- One round of the loop of choose_shm_roi: `none` where it returns false.
unfoldable pub merge_rect : ℕ → ℕ → Rect → Box → Option Box
merge_rect w h r box =
    let left = pos_part r.x in
    let top = pos_part r.y in
    let right = min w (pos_part r.x + r.width - neg_part r.x) in
    let bottom = min h (pos_part r.y + r.height - neg_part r.y) in
    if (r.width == 0) || (r.height == 0)
    then none
    else if leb right left || leb bottom top
    then none
    else some (record {
      x0 = min box.x0 left;
      y0 = min box.y0 top;
      x1 = max box.x1 right;
      y1 = max box.y1 bottom;
    })

unfoldable pub merge_rects : ℕ → ℕ → List Rect → Box → Option Box
unfolding merge_rect
merge_rects w h [] box = some box
merge_rects w h (r ∷ rs) box = elim (merge_rect w h r box) [
  | none ↦ none
  | some next ↦ merge_rects w h rs next
]

-- The end of choose_shm_roi: the rectangle that the wire carries, in rows from the bottom.
unfoldable pub roi_of : ℕ → ℕ → Option Box → Option Delta
unfolding to_gl_y
roi_of w h none = none
roi_of w h (some box) =
    if leb (w * h) ((box.x1 - box.x0) * (box.y1 - box.y0) * 2)
    then none
    else some (record {
      magic = delta_magic;
      x = box.x0;
      y = to_gl_y box.y0 (box.y1 - box.y0) h;
      width = box.x1 - box.x0;
      height = box.y1 - box.y0;
    })

-- choose_shm_roi: `roi`, or `none` where it returns false.
unfoldable pub choose_shm_roi : List Rect → ℕ → ℕ → Option Delta
unfolding merge_rects roi_of
choose_shm_roi dirty w h =
    if (length dirty == 0) || ltb 32 (length dirty) || (w == 0) || (h == 0)
    then none
    else roi_of w h (merge_rects w h dirty (record { x0 = w; y0 = h; x1 = 0; y1 = 0 }))
