-- ===== src/Tests/Memory.antt =====
-- Runs of the shared memory backend.
use idk_overlay.Prelude.{ℕ, ◌≡◌, refl, [], ◌∷◌, true, false, none, some, arith}
use idk_overlay.Prelude.Int.{pos}
use idk_overlay.Prelude.Io.{ret}
use idk_overlay.Wire.{FrameHeader, Ack, CursorUpdate}
use idk_overlay.Wire.Cursor.{cursor_magic, cursor_valid}
use idk_overlay.Socket.{consumer, producer}
use idk_overlay.Shm.{
  Shm, Page, prod_ready, prod_idle, cons_ready, cons_waiting, slot_empty, slot_frame, is_cons_dead,
  is_prod_dead, disconnect_client,
}
use idk_overlay.Shm.Init.{cleared, init_consumer}
use idk_overlay.Shm.Steal.{Kernel, steal_fd}
use idk_overlay.Shm.Consumer.{copy_ack, drop_frame}
use idk_overlay.Shm.Producer.{send_frame}
use idk_overlay.Shm.Input.{Attempt, recv_cursor, cursor_loop}
use idk_overlay.Shm.Writer.{Later, same, IsLocked}
use idk_overlay.Shm.Seqlock.{IsObserved, IsUntorn, recv_cursor-IsUntorn}
use idk_overlay.Shm.Transfer.{taken, lost, steady}
use idk_overlay.Shm.Channel.{Step, Reach}
use idk_overlay.Shm.Channel
use idk_overlay.Shm.Race.{IsLost, send_ack-loses_frame}
use idk_overlay.Shm.Descriptors.{steal_fd-closes_stdin}

abbrev canvas : FrameHeader
canvas = record {
  modifier = 0;
  width = 640;
  height = 480;
  stride = 0;
  fourcc = 0;
  flags = 1;
  nfd = 1;
  buf_id = 0;
}

abbrev no_ack : Ack
no_ack = record { code = 0; w = 0; h = 0 }

abbrev arrow : CursorUpdate
arrow = record {
  magic = cursor_magic;
  version = 1;
  visible = 1;
  shape = 1;
  width = 0;
  height = 0;
  hotspot_x = pos 0;
  hotspot_y = pos 0;
  scale = 100;
  data_size = 0;
}

abbrev page : Page
page = record {
  magic_ok = true;
  prod_state = prod_ready;
  cons_state = cons_ready;
  prod_pid = 10;
  cons_pid = 20;
  nfd = 0;
  fds = [];
  hdr = canvas;
  event = [];
  ack = no_ack;
  slot = slot_empty;
  frame_seq = 0;
  req_seq = 0;
  eventfd = 0;
  cursor_seq = 2;
  cursor_hdr = arrow;
  cursor_data = [];
}

abbrev game : Shm
game = record (cleared consumer) {
  mapped = true;
  ready = true;
  server_fd = some 3;
  cached_fd = none;
}

abbrev webview : Shm
webview = record (cleared producer) {
  mapped = true;
  ready = true;
  server_fd = some 3;
  cached_fd = none;
}

abbrev quiet : Attempt
quiet = record { at_seq = page; at_header = page; at_pixels = page; at_stable = page }

abbrev resting : idk_overlay.Shm.Writer.World
resting = record { page = page; writer = none }

quiet-IsObserved : IsObserved quiet
quiet-IsObserved = record {
  w0 = resting;
  w1 = resting;
  w2 = resting;
  w3 = resting;
  start = record { quiet = λ e. refl; busy = λ s e. absurd (ground (arith, e)) };
  to_header = same;
  to_pixels = same;
  to_stable = same;
  seq_page = refl;
  header_page = refl;
  pixels_page = refl;
  stable_page = refl;
}

recv_cursor-IsUntorn_example :
    (j : ℕ) × IsUntorn game.cursor_seq quiet (recv_cursor game 64 true (λ j. quiet)).0
    × ((recv_cursor game 64 true (λ j. quiet)).1.cursor_seq ≡ 2)
unfolding recv_cursor cursor_loop cleared cursor_valid
recv_cursor-IsUntorn_example =
    recv_cursor-IsUntorn game 64 true (λ j. quiet) (λ j. quiet-IsObserved) refl

abbrev start : Channel.World
start = record { page = page; prod = webview; cons = game; sent = []; gone = [] }

abbrev sent_page : Page
sent_page = (send_frame webview page canvas (7 ∷ []) false (steady page)).1

-- A frame is sent and dropped, another one is sent, and the consumer disconnects over it.
abbrev sent_twice : Page
sent_twice =
    (send_frame webview (drop_frame game sent_page).1 canvas (8 ∷ []) false
      (steady (drop_frame game sent_page).1)).1

abbrev lost_one : Channel.World
lost_one = record {
  page = (disconnect_client game sent_twice).1;
  prod = webview;
  cons = (disconnect_client game sent_twice).0;
  sent = canvas ∷ canvas ∷ [];
  gone = taken canvas ∷ lost canvas ∷ [];
}

send_ack-loses_frame_example : IsLost webview game no_ack canvas [] (
    send_frame webview (copy_ack page no_ack) canvas (7 ∷ []) false (steady (copy_ack page no_ack)))
send_ack-loses_frame_example =
    send_ack-loses_frame webview game page no_ack canvas (7 ∷ []) [] refl refl refl refl refl refl
      (omega arith) (omega arith)

abbrev kernel : Kernel
kernel = record { pidfd = ret 30; getfd = ret 31; dup = ret 32 }

abbrev fresh : Shm × Page
fresh = elim (init_consumer (cleared consumer) page [] (ret 3) 20 0) [
  | none ↦ (game, page)
  | some p ↦ p
]

steal_fd-closes_stdin_example : (steal_fd fresh.0 7 [] kernel).1.closed ≡ 0 ∷ []
unfolding init_consumer
steal_fd-closes_stdin_example =
    steal_fd-closes_stdin page fresh.1 fresh.0 [] 3 20 0 7 30 31 32 refl (ground arith)
