-- ===== src/Webview/View/Run.antt =====
-- src/cli/webview_cef: the calls that Chromium's UI thread and its timers make of a view, in any order.
pub mod Spend
pub mod Requests
pub mod Inflight
use idk_overlay.Prelude.{
  ℕ, suc, ◌+◌, List, [], ◌∷◌, Bool, true, false, Option, none, some, ◌==◌, if◌then◌else◌,
}
use idk_overlay.Wire.{Ack, request_next_frame}
use idk_overlay.Webview.Damage.{Rect}
use idk_overlay.Webview.View.{View, Answers, PaintInfo}
use idk_overlay.Webview.View.Paint.{on_paint, on_accelerated_paint}
use idk_overlay.Webview.View.Pacing.{
  on_load_end, connect_task, poll_socket, set_capture, set_overlay_visible,
}

-- A call, with what its own calls answer.
pub data Event : Type 0 where
  load_end : Event
  paint : Option (List ℕ) → ℕ → ℕ → List Rect → Answers → Event
  accelerated_paint : PaintInfo → Answers → Event
  connect : Bool → Bool → Event
  poll : Option Ack → List ℕ → Bool → Answers → Answers → Event
  capture : Bool → Event
  visible : Bool → Event

unfoldable pub step : Event → View → View
unfolding on_load_end on_paint on_accelerated_paint connect_task poll_socket set_capture
    set_overlay_visible
step load_end v = on_load_end v
step (paint buffer w h dirty a) v = on_paint buffer w h dirty a v
step (accelerated_paint info a) v = on_accelerated_paint info a v
step (connect now inits) v = connect_task now inits v
step (poll ack types still back a) v = poll_socket ack types still back a v
step (capture on) v = set_capture on v
step (visible on) v = set_overlay_visible on v

unfoldable pub run : List Event → View → View
unfolding step
run [] v = v
run (e ∷ es) v = run es (step e v)

-- How many requests for a frame the polls take from the socket.
unfoldable pub asked : List ℕ → ℕ
asked [] = 0
asked (t ∷ types) = (if t == request_next_frame then 1 else 0) + asked types

unfoldable pub requests : List Event → ℕ
unfolding asked
requests [] = 0
requests (poll ack types still back a ∷ es) = asked types + requests es
requests (load_end ∷ es) = requests es
requests (paint buffer w h dirty a ∷ es) = requests es
requests (accelerated_paint info a ∷ es) = requests es
requests (connect now inits ∷ es) = requests es
requests (capture on ∷ es) = requests es
requests (visible on ∷ es) = requests es

-- How often a call may end the wait for an answer: an acknowledgement, or the loss of the connection.
unfoldable pub settled : List Event → ℕ
settled [] = 0
settled (poll (some ack) types still back a ∷ es) = suc (settled es)
settled (poll none types still back a ∷ es) = settled es
settled (connect false inits ∷ es) = suc (settled es)
settled (connect true inits ∷ es) = settled es
settled (load_end ∷ es) = settled es
settled (paint buffer w h dirty a ∷ es) = settled es
settled (accelerated_paint info a ∷ es) = settled es
settled (capture on ∷ es) = settled es
settled (visible on ∷ es) = settled es
