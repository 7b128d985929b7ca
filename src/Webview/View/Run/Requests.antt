-- ===== src/Webview/View/Run/Requests.antt =====
-- src/cli/webview_cef/view.cc: every frame answers a request, and at most one waits for its answer.
use idk_overlay.Prelude.{
  ℕ, zero, suc, ◌+◌, ◌*◌, ◌≤◌, ◌≡◌, refl, List, [], ◌∷◌, Bool, true, false, not, ◌||◌, Option, none,
  some, ◌==◌, if◌then◌else◌, length, arith,
}
use idk_overlay.Wire.{Ack, request_next_frame}
use idk_overlay.Webview.Format.{bgra, to_gl_rgba}
use idk_overlay.Webview.Damage.{Rect}
use idk_overlay.Webview.View.{View, Answers, PaintInfo}
use idk_overlay.Webview.View.Staging.{cache_deferred_pixels, cache_deferred_gpu}
use idk_overlay.Webview.View.Paint.{
  maybe_send_deferred, defer_pixels, after_paint, paint_rgba, on_paint, defer_gpu,
  after_accelerated, can_blit_dirty, on_accelerated_paint,
}
use idk_overlay.Webview.View.Pacing.{
  nudge_frame, on_load_end, recv_requests, serve_request, take_requests, take_ack, poll_socket,
  note_connected, note_disconnected, connect_task, fire_capture_events, fire_visible_events,
  set_capture, keep_frame, set_overlay_visible,
}
use idk_overlay.Webview.View.Acks.{
  note_accepted, keep_hidden, accept_ack, count_reject, redo_shm, readback_or, redo_gpu, refuse_ack,
  resize_to, process_ack, restore_gpu, restore_shadow,
}
use idk_overlay.Webview.View.Run.{
  Event, load_end, paint, accelerated_paint, connect, poll, capture, visible, step, run, asked,
  requests, settled,
}
use idk_overlay.Webview.View.Run.Spend.{
  bit, Quiet, Paid, send_shm_pixels-Sends, send_shm_from_dmabuf-Sends, send_frame_dmabuf-Sends,
  cache_deferred_pixels-Quiet, cache_deferred_gpu-Quiet, maybe_send_deferred-Paid,
}

defer_pixels-Paid :
    (px : List ℕ) (w h : ℕ) (a : Answers) (v : View) → Paid v (defer_pixels px w h a v)
unfolding defer_pixels
defer_pixels-Paid px w h a v = ground (
  arith,
  cache_deferred_pixels-Quiet px w h v,
  maybe_send_deferred-Paid a (record (cache_deferred_pixels px w h v) {
    dropped_since_send = true;
    needs_full_update = true;
  }),
)

paint_rgba-Paid :
    (o : Option (List ℕ)) (w h : ℕ) (dirty : List Rect) (a : Answers) (v : View)
    → Paid v (paint_rgba o w h dirty a v)
unfolding paint_rgba after_paint
paint_rgba-Paid none w h dirty a v = (omega arith, omega arith)
paint_rgba-Paid (some rgba) w h dirty a v =
    ground
      (arith, defer_pixels-Paid rgba w h a v, send_shm_pixels-Sends rgba w h (some dirty) none a v)

on_paint-Paid :
    (buffer : Option (List ℕ)) (w h : ℕ) (dirty : List Rect) (a : Answers) (v : View)
    → Paid v (on_paint buffer w h dirty a v)
unfolding on_paint
on_paint-Paid buffer w h dirty a v =
    ground (arith, paint_rgba-Paid (to_gl_rgba buffer (w * 4) w h bgra) w h dirty a v)

defer_gpu-Paid : (info : PaintInfo) (a : Answers) (v : View) → Paid v (defer_gpu info a v)
unfolding defer_gpu
defer_gpu-Paid info a v = ground (
  arith,
  cache_deferred_gpu-Quiet info a v,
  maybe_send_deferred-Paid a (record (cache_deferred_gpu info a v) {
    dropped_since_send = true;
    needs_full_update = true;
    capture_counter_valid = false;
  }),
)

on_accelerated_paint-Paid :
    (info : PaintInfo) (a : Answers) (v : View) → Paid v (on_accelerated_paint info a v)
unfolding on_accelerated_paint after_accelerated
on_accelerated_paint-Paid info a v = ground (
  arith,
  defer_gpu-Paid info a v,
  send_frame_dmabuf-Sends info (not (can_blit_dirty info v)) a v,
  send_shm_from_dmabuf-Sends info a v,
)

-- Nothing is sent, and no credit is given or taken.
abbrev Unsent : View → View → Type 0
Unsent v u = (length u.sent ≡ length v.sent) × (u.request_credit ≡ v.request_credit)

accept_ack-Unsent : (v : View) → Unsent v (accept_ack v)
unfolding accept_ack note_accepted keep_hidden restore_shadow restore_gpu
accept_ack-Unsent v = ground arith

readback_or-Unsent : (o : Option (List ℕ)) (v : View) → Unsent v (readback_or o v)
unfolding readback_or
readback_or-Unsent none v = (refl, refl)
readback_or-Unsent (some px) v = (refl, refl)

redo_gpu-Unsent : (a : Answers) (v : View) → Unsent v (redo_gpu a v)
unfolding redo_gpu
redo_gpu-Unsent a v = ground (
  arith,
  readback_or-Unsent (if v.dmabuf_failed then a.readback else none)
      (record v { deferred_w = v.sent_w; deferred_h = v.sent_h }),
)

redo_shm-Unsent : (v : View) → Unsent v (redo_shm v)
unfolding redo_shm restore_shadow
redo_shm-Unsent v = ground arith

count_reject-Unsent : (code : ℕ) (v : View) → Unsent v (count_reject code v)
unfolding count_reject
count_reject-Unsent code v = ground arith

refuse_ack-Unsent : (code : ℕ) (a : Answers) (v : View) → Unsent v (refuse_ack code a v)
unfolding refuse_ack
refuse_ack-Unsent code a v =
    let reset = record v {
      shm_baseline_valid = false;
      needs_full_update = true;
      capture_counter_valid = false;
    } in
    ground (
      arith,
      count_reject-Unsent code reset,
      redo_shm-Unsent (count_reject code reset),
      redo_gpu-Unsent a (redo_shm (count_reject code reset)),
    )

process_ack-Unsent :
    (ack : Ack) (a : Answers) (v : View)
    → Unsent v (process_ack ack a v) × ((process_ack ack a v).pending ≡ false)
unfolding process_ack resize_to
process_ack-Unsent ack a v = ground (arith, accept_ack-Unsent v, refuse_ack-Unsent ack.code a v)

-- One call for which `k` requests came in, and `d` answers.
abbrev Costs : ℕ → ℕ → View → View → Type 0
Costs k d v u =
    (length u.sent + bit u.request_credit ≤ length v.sent + bit v.request_credit + k)
    × (length u.sent + bit v.pending ≤ length v.sent + bit u.pending + d)

recv_requests-asked :
    (n : ℕ) (types : List ℕ) (requested : Bool)
    → bit (recv_requests n types requested).1 ≤ asked types + bit requested
unfolding recv_requests asked
recv_requests-asked zero types requested = ground arith
recv_requests-asked (suc n) [] requested = ground arith
recv_requests-asked (suc n) (t ∷ types) requested =
    ground (arith, recv_requests-asked n types (requested || (t == request_next_frame)))

nudge_frame-Quiet : (v : View) → Quiet v (nudge_frame v)
unfolding nudge_frame
nudge_frame-Quiet v = ground arith

serve_request-Costs :
    (still requested : Bool) (a : Answers) (v : View)
    → Costs (bit requested) 0 v (serve_request still requested a v)
unfolding serve_request
serve_request-Costs still requested a v =
    let granted = record v { request_credit = v.request_credit || requested } in
    ground
      (arith, maybe_send_deferred-Paid a granted, nudge_frame-Quiet (maybe_send_deferred a granted))

take_requests-Costs :
    (r : Bool × Bool) (still : Bool) (a : Answers) (v : View)
    → Costs (bit r.1) 0 v (take_requests r still a v)
unfolding take_requests
take_requests-Costs (true, requested) still a v = (omega arith, omega arith)
take_requests-Costs (false, requested) still a v = serve_request-Costs still requested a v

-- How many answers there are.
abbrev answers : Option Ack → ℕ
answers none = 0
answers (some ack) = 1

take_ack-Costs : (o : Option Ack) (a : Answers) (v : View) → Costs 0 (answers o) v (take_ack o a v)
unfolding take_ack
take_ack-Costs none a v = (omega arith, omega arith)
take_ack-Costs (some ack) a v = ground (arith, process_ack-Unsent ack a v)

poll_socket-Costs :
    (o : Option Ack) (types : List ℕ) (still : Bool) (back a : Answers) (v : View)
    → Costs (asked types) (answers o) v (poll_socket o types still back a v)
unfolding poll_socket
poll_socket-Costs o types still back a v = ground (
  arith,
  take_ack-Costs o back v,
  recv_requests-asked 256 types false,
  take_requests-Costs (recv_requests 256 types false) still a (take_ack o back v),
)

connect_task-Costs :
    (now inits : Bool) (v : View) → Costs 0 (if now then 0 else 1) v (connect_task now inits v)
unfolding connect_task note_connected note_disconnected
connect_task-Costs now inits v = ground arith

on_load_end-Quiet : (v : View) → Quiet v (on_load_end v)
unfolding on_load_end nudge_frame
on_load_end-Quiet v = ground arith

set_capture-Quiet : (on : Bool) (v : View) → Quiet v (set_capture on v)
unfolding set_capture fire_capture_events
set_capture-Quiet on v = ground arith

set_overlay_visible-Paid : (on : Bool) (v : View) → Paid v (set_overlay_visible on v)
unfolding set_overlay_visible keep_frame fire_visible_events restore_shadow restore_gpu
set_overlay_visible-Paid on v = ground arith

-- Whatever calls a view gets in whatever order, the frames that it sends, with the credit left, are not
-- more than the credit it had and the requests for a frame that its polls took; and they are at most one more
-- than the answers that it took and the losses of the connection that it noticed: no frame is sent
-- while another one waits.
pub run-requests :
    (es : List Event) (v : View)
    → (length (run es v).sent + bit (run es v).request_credit
        ≤ length v.sent + bit v.request_credit + requests es)
      × (length (run es v).sent + bit v.pending
          ≤ length v.sent + bit (run es v).pending + settled es)
unfolding run step requests settled
run-requests [] v = (omega arith, omega arith)
run-requests (load_end ∷ es) v =
    ground (arith, on_load_end-Quiet v, run-requests es (on_load_end v))
run-requests (paint buffer w h dirty a ∷ es) v =
    ground
      (arith, on_paint-Paid buffer w h dirty a v, run-requests es (on_paint buffer w h dirty a v))
run-requests (accelerated_paint info a ∷ es) v =
    ground
      (arith, on_accelerated_paint-Paid info a v, run-requests es (on_accelerated_paint info a v))
run-requests (connect true inits ∷ es) v =
    ground (arith, connect_task-Costs true inits v, run-requests es (connect_task true inits v))
run-requests (connect false inits ∷ es) v =
    ground (arith, connect_task-Costs false inits v, run-requests es (connect_task false inits v))
run-requests (poll none types still back a ∷ es) v = ground (
  arith,
  poll_socket-Costs none types still back a v,
  run-requests es (poll_socket none types still back a v),
)
run-requests (poll (some ack) types still back a ∷ es) v = ground (
  arith,
  poll_socket-Costs (some ack) types still back a v,
  run-requests es (poll_socket (some ack) types still back a v),
)
run-requests (capture on ∷ es) v =
    ground (arith, set_capture-Quiet on v, run-requests es (set_capture on v))
run-requests (visible on ∷ es) v =
    ground (arith, set_overlay_visible-Paid on v, run-requests es (set_overlay_visible on v))
