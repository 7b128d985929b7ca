-- ===== src/Webview/View/Pacing.antt =====
-- src/cli/webview_cef/view.cc: the connection, the requests and visibility.
use idk_overlay.Prelude.{
  ℕ, zero, suc, ◌+◌, List, [], ◌∷◌, Bool, true, false, not, ◌&&◌, ◌||◌, Option, none, some, is_some,
  ◌==◌, if◌then◌else◌, length,
}
use idk_overlay.Wire.{Ack, request_shutdown, request_next_frame}
use idk_overlay.Webview.View.{
  View, Answers, empty, capture_start, capture_end, capture_changed, overlay_show, overlay_hide,
  visible_changed,
}
use idk_overlay.Webview.View.Paint.{is_empty, maybe_send_deferred}
use idk_overlay.Webview.View.Acks.{restore_shadow, restore_gpu, process_ack}

unfoldable pub nudge_frame : View → View
nudge_frame v =
    if v.browser && v.connected && v.visible && not v.pending && v.page_ready
    then record v { begin_frames = v.begin_frames + 1 }
    else v

-- OnLoadEnd of the main frame, once its URL is the page's. The scripts that it injects are not modelled.
unfoldable pub on_load_end : View → View
unfolding nudge_frame
on_load_end v =
    let ready = record v { page_ready = true } in
    if v.page_ready then v else if v.request_credit then nudge_frame ready else ready

-- The loop of PollSocket: the types of the requests that wait, whether one is a shutdown, and
-- whether one before it asks for a frame.
unfoldable pub recv_requests : ℕ → List ℕ → Bool → Bool × Bool
recv_requests zero types requested = (false, requested)
recv_requests (suc n) [] requested = (false, requested)
recv_requests (suc n) (t ∷ types) requested =
    let rest = recv_requests n types (requested || (t == request_next_frame)) in
    if t == request_shutdown then (true, requested) else rest

-- PollSocket after the requests.
unfoldable pub serve_request : Bool → Bool → Answers → View → View
unfolding maybe_send_deferred nudge_frame
serve_request still_connected requested a v =
    if not still_connected || not v.visible
    then v
    else let granted = record v { request_credit = v.request_credit || requested } in
      if not granted.pending && granted.request_credit && granted.page_ready
      then (let next = maybe_send_deferred a granted in
          if not next.pending && is_empty next.deferred_kind then nudge_frame next else next)
      else granted

unfoldable pub take_requests : Bool × Bool → Bool → Answers → View → View
unfolding serve_request
take_requests (true, requested) still_connected a v = record v { quit = true }
take_requests (false, requested) still_connected a v = serve_request still_connected requested a v

-- idk_producer_wait_ack in PollSocket, asked only while a frame is pending.
unfoldable pub take_ack : Option Ack → Answers → View → View
unfolding process_ack
take_ack none a v = v
take_ack (some ack) a v = if v.pending then process_ack ack a v else v

-- PollSocket; `back` is answered while the acknowledgement is processed, and `a` after it.
unfoldable pub poll_socket : Option Ack → List ℕ → Bool → Answers → Answers → View → View
unfolding take_ack take_requests recv_requests
poll_socket ack types still_connected back a v =
    if not v.connected
    then v
    else take_requests (recv_requests 256 types false) still_connected a (take_ack ack back v)

-- A connection made, in ConnectTask.
unfoldable pub note_connected : View → View
note_connected v = record v {
  connected = true;
  connect_attempts = 0;
  deferred_kind = empty;
  gpu_inflight = none;
  gpu_last_acked = none;
  shm_shadow = [];
  needs_full_update = true;
  shm_baseline_valid = false;
  capture_counter_valid = false;
  input = true;
}

unfoldable pub note_disconnected : View → View
note_disconnected v = record v {
  connected = false;
  deferred_kind = empty;
  deferred_pixels = [];
  gpu_inflight = none;
  gpu_last_acked = none;
  shm_shadow = [];
  shm_baseline_valid = false;
  pending = false;
  request_credit = false;
}

-- ConnectTask: whether the producer is connected, and whether initialising it connects it.
unfoldable pub connect_task : Bool → Bool → View → View
unfolding note_connected note_disconnected
connect_task now inits v =
    if now
    then (if v.connected then v else note_connected v)
    else if v.connected
    then note_disconnected v
    else if inits
    then note_connected v
    else record v { connect_attempts = v.connect_attempts + 1 }

-- FireCaptureEvents and FireVisibleEvents: the script's events, the last first; without a browser
-- only the state that the page has seen is noted.
unfoldable pub fire_capture_events : Bool → View → View
fire_capture_events captured v =
    let edge =
      if captured && not v.js_capture
      then capture_start ∷ v.js
      else if not captured && v.js_capture
      then capture_end ∷ v.js
      else v.js in
    record v {
      js_capture = captured;
      js = if v.browser then capture_changed captured ∷ edge else v.js;
    }

unfoldable pub fire_visible_events : Bool → View → View
fire_visible_events visible v =
    let edge =
      if visible && not v.js_visible
      then overlay_show ∷ v.js
      else if not visible && v.js_visible
      then overlay_hide ∷ v.js
      else v.js in
    record v {
      js_visible = visible;
      js = if v.browser then visible_changed visible ∷ edge else v.js;
    }

unfoldable pub set_capture : Bool → View → View
unfolding fire_capture_events
set_capture on v = fire_capture_events on (record v { capture = on })

-- The frame that a hidden overlay keeps.
unfoldable pub keep_frame : View → View
unfolding restore_shadow restore_gpu
keep_frame v =
    if not (is_empty v.deferred_kind)
    then v
    else if v.pending && is_some v.gpu_inflight
    then restore_gpu v.gpu_inflight v.sent_w v.sent_h v
    else if not (length v.shm_shadow == 0) && v.last_sent_shm
    then record (restore_shadow v) { deferred_gpu_ptr = none }
    else if is_some v.gpu_last_acked
    then restore_gpu v.gpu_last_acked v.gpu_last_w v.gpu_last_h v
    else v

unfoldable pub set_overlay_visible : Bool → View → View
unfolding keep_frame fire_visible_events
set_overlay_visible on v =
    let switched = record v { visible = on; request_credit = false } in
    let kept = if on then switched else keep_frame switched in
    if (v.visible && on) || (not v.visible && not on)
    then v
    else fire_visible_events on (record kept {
      needs_full_update = true;
      shm_baseline_valid = false;
      capture_counter_valid = false;
    })
