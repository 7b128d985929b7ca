-- ===== src/Webview/View/Shm.antt =====
-- src/cli/webview_cef/view.cc: a frame sent through shared memory.
use idk_overlay.Prelude.{
  ℕ, ◌+◌, ◌*◌, ◌%◌, List, ◌∷◌, true, false, not, ◌&&◌, ◌||◌, Option, none, some, ltb, ◌==◌,
  if◌then◌else◌, length, take,
}
use idk_overlay.Wire.Delta.{Delta, delta_size, wrap64, validate, pack}
use idk_overlay.Webview.Patch.{patch_rows}
use idk_overlay.Webview.Damage.{Rect, choose_shm_roi}
use idk_overlay.Webview.Format.{to_gl_rgba}
use idk_overlay.Webview.View.{View, Answers, PaintInfo, shm_frame}

-- The size that the rectangle's frame has, in size_t.
unfoldable pub roi_size : Delta → ℕ
roi_size r = (((r.width * r.height) % wrap64 * 4) % wrap64 + delta_size) % wrap64

unfoldable pub dirty_roi : Option (List Rect) → ℕ → ℕ → View → Option Delta
unfolding choose_shm_roi
dirty_roi none w h v = none
dirty_roi (some dirty) w h v = if v.needs_full_update then none else choose_shm_roi dirty w h

unfoldable pub verified_roi : Option Delta → Option (List Rect) → ℕ → ℕ → View → Option Delta
unfolding roi_size dirty_roi validate
verified_roi none dirty w h v = dirty_roi dirty w h v
verified_roi (some r) dirty w h v =
    if validate r w h (roi_size r) then some r else dirty_roi dirty w h v

-- The rectangle that SendShmPixels sends, or `none` for the full frame.
unfoldable pub pick_roi : Option Delta → Option (List Rect) → ℕ → ℕ → View → Option Delta
unfolding verified_roi
pick_roi verified dirty w h v =
    if v.shm_roi_enabled && v.shm_baseline_valid then verified_roi verified dirty w h v else none

-- The bytes written to the memory, or `none` where the rectangle does not fit.
unfoldable pub payload : Option Delta → List ℕ → ℕ → ℕ → Option (List ℕ)
unfolding roi_size pack
payload none px w h = some (take (w * h * 4) px)
payload (some r) px w h = pack (roi_size r) px w h r

-- The shadow after a frame was sent.
unfoldable pub next_shadow : Option Delta → List ℕ → ℕ → ℕ → View → List ℕ
unfolding patch_rows
next_shadow none px w h v = take (w * h * 4) px
next_shadow (some r) px w h v =
    if (v.shm_shadow_w == w) && (v.shm_shadow_h == h) && (length v.shm_shadow == w * h * 4)
    then patch_rows r.height r.y r w px v.shm_shadow
    else take (w * h * 4) px

-- What a frame that the producer library took changes.
unfoldable pub note_shm : Option Delta → List ℕ → ℕ → ℕ → List ℕ → View → View
unfolding next_shadow
note_shm roi px w h bytes v = record v {
  shm_shadow = next_shadow roi px w h v;
  shm_shadow_w = w;
  shm_shadow_h = h;
  pending = true;
  request_credit = false;
  last_sent_shm = true;
  sent_w = w;
  sent_h = h;
  sent = shm_frame w h roi bytes ∷ v.sent;
}

unfoldable pub ship : Option Delta → List ℕ → ℕ → ℕ → Option (List ℕ) → Answers → View → View
unfolding note_shm
ship roi px w h none a v = v
ship roi px w h (some bytes) a v = if a.shm_sent then note_shm roi px w h bytes v else v

unfoldable pub send_shm_pixels :
    List ℕ → ℕ → ℕ → Option (List Rect) → Option Delta → Answers → View → View
unfolding pick_roi payload ship
send_shm_pixels px w h dirty verified a v =
    if (w == 0) || (h == 0) || not a.created || not a.sized || not a.mapped
    then v
    else ship (pick_roi verified dirty w h v) px w h
        (payload (pick_roi verified dirty w h v) px w h) a v

unfoldable pub send_converted : Option (List ℕ) → PaintInfo → Answers → View → View
unfolding send_shm_pixels
send_converted none info a v = v
send_converted (some rgba) info a v =
    send_shm_pixels rgba info.width info.height (some info.dirty) none a v

unfoldable pub send_shm_from_dmabuf : PaintInfo → Answers → View → View
unfolding send_converted to_gl_rgba
send_shm_from_dmabuf info a v =
    if (info.plane_count == 0)
      || (info.width == 0)
      || (info.height == 0)
      || ltb info.stride (info.width * 4)
      || ltb info.size (info.stride * info.height)
      || not (info.modifier == 0)
    then v
    else send_converted (to_gl_rgba info.map info.stride info.width info.height info.channels) info
        a v
