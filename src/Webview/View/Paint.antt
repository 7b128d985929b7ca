-- ===== src/Webview/View/Paint.antt =====
-- src/cli/webview_cef/view.cc: Chromium's paint callbacks, and the deferred frame sent.
use idk_overlay.Prelude.{
  ℕ, ◌+◌, ◌*◌, ◌%◌, List, [], Bool, true, false, not, ◌&&◌, ◌||◌, Option, none, some, ◌==◌,
  if◌then◌else◌, length,
}
use idk_overlay.Wire.Delta.{wrap64}
use idk_overlay.Webview.Damage.{Rect}
use idk_overlay.Webview.Format.{bgra, to_gl_rgba}
use idk_overlay.Webview.Difference.{DeltaResult, unchanged, full, partial, find_delta}
use idk_overlay.Webview.View.{
  View, Answers, PaintInfo, GpuBuf, DeferredKind, empty, pixels, owned_gpu,
}
use idk_overlay.Webview.View.Shm.{send_shm_pixels, send_shm_from_dmabuf}
use idk_overlay.Webview.View.Staging.{
  cache_deferred_pixels, cache_deferred_gpu, send_owned_gpu, send_frame_dmabuf,
}

abbrev pub is_empty : DeferredKind → Bool
is_empty empty = true
is_empty pixels = false
is_empty owned_gpu = false

-- MaybeSendDeferred where a deferred frame was sent.
unfoldable pub clear_deferred : View → View
clear_deferred v = record v {
  deferred_kind = empty;
  deferred_pixels = [];
  deferred_gpu_ptr = none;
  request_credit = false;
  needs_full_update = true;
  dropped_since_send = false;
}

-- The end of MaybeSendDeferred after SendShmPixels, whose `sent` is pending_.
unfoldable pub after_pixels : View → View
unfolding clear_deferred
after_pixels v = if v.pending then clear_deferred v else v

-- MaybeSendDeferred with FindDelta's answer.
unfoldable pub send_delta : DeltaResult → Answers → View → View
unfolding after_pixels send_shm_pixels
send_delta unchanged a v = record v {
  deferred_kind = empty;
  deferred_pixels = [];
  request_credit = false;
  needs_full_update = false;
  dropped_since_send = false;
}
send_delta full a v =
    after_pixels (send_shm_pixels v.deferred_pixels v.deferred_w v.deferred_h none none a v)
send_delta (partial r) a v =
    after_pixels (send_shm_pixels v.deferred_pixels v.deferred_w v.deferred_h none (some r) a v)

-- MaybeSendDeferred's branch for pixels.
unfoldable pub send_deferred_pixels : Answers → View → View
unfolding send_delta find_delta
send_deferred_pixels a v =
    if length v.deferred_pixels == 0
    then v
    else if v.shm_roi_enabled
        && v.shm_baseline_valid
        && (v.deferred_w == v.shm_shadow_w)
        && (v.deferred_h == v.shm_shadow_h)
        && (length v.deferred_pixels == length v.shm_shadow)
    then send_delta (find_delta v.deferred_pixels v.shm_shadow v.deferred_w v.deferred_h) a v
    else send_delta full a v

unfoldable pub after_owned : Bool × View → View
unfolding clear_deferred
after_owned (true, v) = clear_deferred v
after_owned (false, v) = v

-- The read-back where DMA-BUFs are off: the pixels are sent, or the frame stays.
unfoldable pub after_readback : Option (List ℕ) → Answers → View → View
unfolding send_deferred_pixels
after_readback none a v = v
after_readback (some px) a v =
    send_deferred_pixels a
      (record v { deferred_pixels = px; deferred_kind = pixels; deferred_gpu_ptr = none })

unfoldable pub send_deferred_gpu : Option GpuBuf → Answers → View → View
unfolding after_readback after_owned send_owned_gpu
send_deferred_gpu none a v = v
send_deferred_gpu (some b) a v =
    if not v.use_dmabuf || v.dmabuf_failed
    then after_readback a.readback a v
    else after_owned (send_owned_gpu b v.deferred_w v.deferred_h a v)

unfoldable pub send_deferred : DeferredKind → Answers → View → View
unfolding send_deferred_pixels send_deferred_gpu
send_deferred empty a v = v
send_deferred pixels a v = send_deferred_pixels a v
send_deferred owned_gpu a v = send_deferred_gpu v.deferred_gpu_ptr a v

unfoldable pub maybe_send_deferred : Answers → View → View
unfolding send_deferred
maybe_send_deferred a v =
    if not v.request_credit || v.pending || not v.connected || not v.visible
    then v
    else send_deferred v.deferred_kind a v

-- OnPaint where the frame has to wait.
unfoldable pub defer_pixels : List ℕ → ℕ → ℕ → Answers → View → View
unfolding cache_deferred_pixels maybe_send_deferred
defer_pixels rgba w h a v =
    let next = record (cache_deferred_pixels rgba w h v) {
      dropped_since_send = true;
      needs_full_update = true;
    } in
    if next.request_credit && not next.pending then maybe_send_deferred a next else next

unfoldable pub after_paint : View → View
after_paint v =
    if v.pending
    then record v {
      request_credit = false;
      needs_full_update = true;
      capture_counter_valid = false;
      dropped_since_send = false;
    }
    else v

unfoldable pub paint_rgba : Option (List ℕ) → ℕ → ℕ → List Rect → Answers → View → View
unfolding defer_pixels after_paint send_shm_pixels
paint_rgba none w h dirty a v = v
paint_rgba (some rgba) w h dirty a v =
    if v.pending || not v.request_credit || not (is_empty v.deferred_kind)
    then defer_pixels rgba w h a v
    else after_paint (send_shm_pixels rgba w h (some dirty) none a v)

-- OnPaint of the page itself; of other elements it returns at once.
unfoldable pub on_paint : Option (List ℕ) → ℕ → ℕ → List Rect → Answers → View → View
unfolding paint_rgba to_gl_rgba
on_paint buffer w h dirty a v =
    if not v.connected || not v.visible
    then v
    else paint_rgba (to_gl_rgba buffer (w * 4) w h bgra) w h dirty a v

-- OnAcceleratedPaint where the frame has to wait.
unfoldable pub defer_gpu : PaintInfo → Answers → View → View
unfolding cache_deferred_gpu maybe_send_deferred
defer_gpu info a v =
    let next = record (cache_deferred_gpu info a v) {
      dropped_since_send = true;
      needs_full_update = true;
      capture_counter_valid = false;
    } in
    if next.request_credit && not next.pending then maybe_send_deferred a next else next

unfoldable pub after_accelerated : PaintInfo → View → View
after_accelerated info v =
    if v.pending
    then record v {
      request_credit = false;
      needs_full_update = true;
      dropped_since_send = false;
      capture_counter_valid = info.has_counter;
      last_capture_counter = if info.has_counter then info.counter else v.last_capture_counter;
    }
    else record v { needs_full_update = true }

-- Whether a blit of the dirty rectangles only follows on what the staging buffer holds.
unfoldable pub can_blit_dirty : PaintInfo → View → Bool
can_blit_dirty info v =
    not v.needs_full_update
    && info.has_counter
    && v.capture_counter_valid
    && (info.counter == (v.last_capture_counter + 1) % wrap64)
    && info.has_update_rect
    && (info.visible_x == 0)
    && (info.visible_y == 0)
    && (info.coded_w == info.width)
    && (info.coded_h == info.height)

-- OnAcceleratedPaint of the page itself.
unfoldable pub on_accelerated_paint : PaintInfo → Answers → View → View
unfolding defer_gpu can_blit_dirty after_accelerated send_frame_dmabuf send_shm_from_dmabuf
on_accelerated_paint info a v =
    if not v.connected || not v.visible
    then v
    else if v.pending || not v.request_credit || not (is_empty v.deferred_kind)
    then defer_gpu info a v
    else if not v.needs_full_update
        && info.has_update_rect
        && ((info.update_w == 0) || (info.update_h == 0))
    then v
    else after_accelerated info (
        if v.use_dmabuf && not v.dmabuf_failed
        then send_frame_dmabuf info (not (can_blit_dirty info v)) a v
        else send_shm_from_dmabuf info a v)
