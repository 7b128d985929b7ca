-- ===== src/Webview/View/Staging.antt =====
-- src/cli/webview_cef/view.cc: the staging buffers and the deferred frame.
use idk_overlay.Prelude.{
  ℕ, ◌*◌, List, [], ◌∷◌, Bool, true, false, not, ◌&&◌, ◌||◌, Option, none, some, ltb, ◌==◌,
  if◌then◌else◌, take,
}
use idk_overlay.Webview.Format.{to_gl_rgba}
use idk_overlay.Webview.View.{
  View, Answers, PaintInfo, GpuBuf, gpu, deferred_gpu, pixels, owned_gpu, staged_frame,
  forwarded_frame,
}

abbrev pub same_buffer : GpuBuf → GpuBuf → Bool
same_buffer gpu gpu = true
same_buffer deferred_gpu deferred_gpu = true
same_buffer gpu deferred_gpu = false
same_buffer deferred_gpu gpu = false

-- `pointer == &buffer`
abbrev pub points_to : Option GpuBuf → GpuBuf → Bool
points_to none b = false
points_to (some p) b = same_buffer p b

-- `gpu_inflight_ == &gpu_ ? deferred_gpu_ : gpu_`
unfoldable pub target : View → GpuBuf
target v = if points_to v.gpu_inflight gpu then deferred_gpu else gpu

-- What a buffer holds.
abbrev pub held_by : GpuBuf → View → List ℕ
held_by gpu v = v.gpu_held
held_by deferred_gpu v = v.deferred_held

-- A buffer that is blitted into is no longer the one that was acknowledged last.
unfoldable pub blit_into : GpuBuf → Bool → Answers → View → View
blit_into b full a v = record v {
  gpu_last_acked = if points_to v.gpu_last_acked b then none else v.gpu_last_acked;
  gpu_held = if same_buffer b gpu then a.holds full else v.gpu_held;
  deferred_held = if same_buffer b deferred_gpu then a.holds full else v.deferred_held;
}

-- What a frame of the staging buffer `b` changes once the producer library took it.
unfoldable pub note_staged : GpuBuf → ℕ → ℕ → View → View
note_staged b w h v = record v {
  pending = true;
  staged_send = true;
  last_sent_shm = false;
  gpu_inflight = some b;
  sent_w = w;
  sent_h = h;
  sent = staged_frame b w h ∷ v.sent;
}

-- The fallback of SendFrameDmaBuf, Chromium's own buffer.
unfoldable pub forward : PaintInfo → Answers → View → View
forward info a v =
    if (info.plane_count == 0) || ltb 4 info.plane_count || not a.dup || not a.dma_sent
    then v
    else record v {
      pending = true;
      last_sent_shm = false;
      sent_w = info.width;
      sent_h = info.height;
      sent = forwarded_frame info.width info.height ∷ v.sent;
    }

unfoldable pub send_frame_dmabuf : PaintInfo → Bool → Answers → View → View
unfolding target blit_into note_staged forward
send_frame_dmabuf info full a v =
    if (info.width == 0) || (info.height == 0)
    then record v { staged_send = false }
    else if not a.blit
    then forward info a (blit_into (target v) full a (record v { staged_send = false }))
    else if not a.dup || not a.dma_sent
    then blit_into (target v) full a (record v { staged_send = false })
    else note_staged (target v) info.width info.height
        (blit_into (target v) full a (record v { staged_send = false }))

unfoldable pub cache_deferred_pixels : List ℕ → ℕ → ℕ → View → View
cache_deferred_pixels px w h v =
    if (w == 0) || (h == 0) || ltb (256 * 1024 * 1024) (w * h * 4) then v else record v {
      deferred_pixels = take (w * h * 4) px;
      deferred_w = w;
      deferred_h = h;
      deferred_gpu_ptr = none;
      deferred_kind = pixels;
      capture_counter_valid = false;
    }

-- The end of CacheDeferredGpu, with what ToGlRgba returns.
unfoldable pub cache_converted : Option (List ℕ) → PaintInfo → View → View
cache_converted none info v = v
cache_converted (some rgba) info v = record v {
  deferred_pixels = rgba;
  deferred_w = info.width;
  deferred_h = info.height;
  deferred_gpu_ptr = none;
  deferred_kind = pixels;
  capture_counter_valid = false;
}

-- CacheDeferredGpu where no staging buffer could be filled.
unfoldable pub cache_copy : PaintInfo → View → View
unfolding cache_converted to_gl_rgba
cache_copy info v =
    if (info.plane_count == 0)
      || not (info.modifier == 0)
      || ltb info.stride (info.width * 4)
      || ltb info.size (info.stride * info.height)
      || ltb (256 * 1024 * 1024) (info.width * info.height * 4)
    then v
    else cache_converted (to_gl_rgba info.map info.stride info.width info.height info.channels) info
        v

unfoldable pub cache_deferred_gpu : PaintInfo → Answers → View → View
unfolding target blit_into cache_copy
cache_deferred_gpu info a v =
    if (info.width == 0) || (info.height == 0)
    then v
    else if a.blit
    then record (blit_into (target v) true a v) {
      deferred_gpu_ptr = some (target v);
      deferred_w = info.width;
      deferred_h = info.height;
      deferred_pixels = [];
      deferred_kind = owned_gpu;
      capture_counter_valid = false;
    }
    else cache_copy info (blit_into (target v) true a v)

-- SendOwnedGpu; its result is whether the frame was sent. A negative Fd or a failing dup is `dup`.
unfoldable pub send_owned_gpu : GpuBuf → ℕ → ℕ → Answers → View → Bool × View
unfolding note_staged
send_owned_gpu b w h a v = if a.dup && a.dma_sent then (true, note_staged b w h v) else (false, v)
