-- ===== src/Webview/View/Acks.antt =====
-- src/cli/webview_cef/view.cc: ProcessAck, the answer of the game to a frame.
use idk_overlay.Prelude.{
  ℕ, ◌+◌, List, [], true, false, not, ◌&&◌, ◌||◌, Option, none, some, is_some, leb, ◌==◌,
  if◌then◌else◌, length,
}
use idk_overlay.Wire.{Ack, ack_accepted, ack_rejected}
use idk_overlay.Webview.View.{View, Answers, GpuBuf, empty, pixels, owned_gpu}
use idk_overlay.Webview.View.Paint.{is_empty}

-- DMABUF_REJECT_LIMIT
abbrev pub dmabuf_reject_limit : ℕ
dmabuf_reject_limit = 5

-- What ProcessAck and SetOverlayVisible put back as the deferred frame.
unfoldable pub restore_shadow : View → View
restore_shadow v = record v {
  deferred_pixels = v.shm_shadow;
  deferred_w = v.shm_shadow_w;
  deferred_h = v.shm_shadow_h;
  deferred_kind = pixels;
}

unfoldable pub restore_gpu : Option GpuBuf → ℕ → ℕ → View → View
restore_gpu b w h v = record v {
  deferred_gpu_ptr = b;
  deferred_w = w;
  deferred_h = h;
  deferred_kind = owned_gpu;
}

unfoldable pub note_accepted : View → View
note_accepted v =
    if not v.last_sent_shm && is_some v.gpu_inflight
    then record v { gpu_last_acked = v.gpu_inflight; gpu_last_w = v.sent_w; gpu_last_h = v.sent_h }
    else if v.last_sent_shm
    then record v { gpu_last_acked = none }
    else v

-- The accepted frame of a hidden overlay is kept for when it is shown.
unfoldable pub keep_hidden : View → View
unfolding restore_shadow restore_gpu
keep_hidden v =
    if v.visible || not (is_empty v.deferred_kind)
    then v
    else if v.last_sent_shm && not (length v.shm_shadow == 0)
    then restore_shadow v
    else if is_some v.gpu_last_acked
    then restore_gpu v.gpu_last_acked v.gpu_last_w v.gpu_last_h v
    else v

unfoldable pub accept_ack : View → View
unfolding note_accepted keep_hidden
accept_ack v =
    let next = keep_hidden (note_accepted v) in
    record next {
      shm_baseline_valid = next.last_sent_shm && next.visible;
      needs_full_update =
          if next.visible && not next.dropped_since_send && is_empty next.deferred_kind
          then false
          else next.needs_full_update;
    }

-- A rejection is counted until DMA-BUFs are given up.
unfoldable pub count_reject : ℕ → View → View
count_reject code v =
    if (code == ack_rejected) && v.use_dmabuf && not v.dmabuf_failed
    then record v {
      dmabuf_reject_count = v.dmabuf_reject_count + 1;
      dmabuf_failed = leb dmabuf_reject_limit (v.dmabuf_reject_count + 1);
    }
    else v

unfoldable pub redo_shm : View → View
unfolding restore_shadow
redo_shm v =
    if v.last_sent_shm && is_empty v.deferred_kind && not (length v.shm_shadow == 0)
    then record (restore_shadow v) { deferred_gpu_ptr = none }
    else v

unfoldable pub readback_or : Option (List ℕ) → View → View
readback_or none v = record v { deferred_kind = owned_gpu; deferred_gpu_ptr = v.gpu_inflight }
readback_or (some px) v = record v {
  deferred_pixels = px;
  deferred_kind = pixels;
  deferred_gpu_ptr = none;
}

unfoldable pub redo_gpu : Answers → View → View
unfolding readback_or
redo_gpu a v =
    if is_some v.gpu_inflight && is_empty v.deferred_kind
    then readback_or (if v.dmabuf_failed then a.readback else none)
        (record v { deferred_w = v.sent_w; deferred_h = v.sent_h })
    else v

unfoldable pub refuse_ack : ℕ → Answers → View → View
unfolding count_reject redo_shm redo_gpu
refuse_ack code a v = redo_gpu a (
    redo_shm (
      count_reject code (record v {
        shm_baseline_valid = false;
        needs_full_update = true;
        capture_counter_valid = false;
      })))

-- The resize at the end of ProcessAck.
unfoldable pub resize_to : ℕ → ℕ → View → View
resize_to w h v =
    if (w == 0) || (h == 0) || ((w == v.render_w) && (h == v.render_h)) then v else record v {
      render_w = w;
      render_h = h;
      needs_full_update = true;
      shm_baseline_valid = false;
      capture_counter_valid = false;
      deferred_kind = empty;
      deferred_pixels = [];
      deferred_gpu_ptr = none;
      shm_shadow = [];
      gpu_last_acked = none;
      dmabuf_failed = false;
      dmabuf_reject_count = 0;
      resized = if v.browser then v.resized + 1 else v.resized;
    }

unfoldable pub process_ack : Ack → Answers → View → View
unfolding accept_ack refuse_ack resize_to
process_ack ack a v =
    let next = if ack.code == ack_accepted then accept_ack v else refuse_ack ack.code a v in
    resize_to ack.w ack.h (record next { gpu_inflight = none; pending = false })
