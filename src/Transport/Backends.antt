-- ===== src/Transport/Backends.antt =====
-- The two backends behind the interface: the table of src/core/transport/dispatch.c, for the
-- consumer's operations.
use idk_overlay.Prelude.{ℕ, ◌≤◌, ◌<◌, ◌≡◌, List, [], ◌∷◌, true, false, length, arith}
use idk_overlay.Prelude.Errno.{eagain}
use idk_overlay.Prelude.Io.{Rc, rc1, ret, sys_fail}
use idk_overlay.Wire.{FrameHeader, Ack}
use idk_overlay.Wire.Bytes.{ack_size, request_size}
use idk_overlay.Socket.{Socket}
use idk_overlay.Socket
use idk_overlay.Socket.Ack
use idk_overlay.Socket.Request
use idk_overlay.Socket.Scm.{
  RecvMsg, Message, msg, msg_fail, Received, frame, recv_frame, drop_frame,
}
use idk_overlay.Shm.{Shm, Page, is_frame, slot_frame}
use idk_overlay.Shm
use idk_overlay.Shm.Consumer
use idk_overlay.Shm.Steal.{Kernel}
use idk_overlay.Transport.{Transport}

-- A socket with what the kernel holds for it, oldest first. Sends are whole, and no client waits
-- for accept(2).
abbrev pub SocketState : Type 0
SocketState = Socket × List Message

abbrev next_msg : List Message → RecvMsg
next_msg [] = msg_fail eagain
next_msg (m ∷ ms) = msg m

abbrev rest_of : List Message → List Message
rest_of [] = []
rest_of (m ∷ ms) = ms

unfoldable pub socket_recv : SocketState → Received × SocketState
socket_recv (tp, ms) = let (r, tp') = recv_frame tp (next_msg ms) in (r, (tp', rest_of ms))

unfoldable pub socket_drop : SocketState → Rc × SocketState
socket_drop (tp, ms) = let (r, tp') = drop_frame tp (next_msg ms) in (r, (tp', rest_of ms))

pub socket_recv-pending :
    (s : SocketState) (h : FrameHeader) (fds : List ℕ)
    → (socket_recv s).0 ≡ frame h fds
    → length (socket_recv s).1.1 < length s.1
unfolding socket_recv recv_frame
socket_recv-pending (tp, []) h fds e = absurd (ground arith)
socket_recv-pending (tp, m ∷ ms) h fds e = omega arith

pub socket_drop-pending :
    (s : SocketState) → (socket_drop s).0 ≡ rc1 → length (socket_drop s).1.1 < length s.1
unfolding socket_drop drop_frame
socket_drop-pending (tp, []) e = absurd (ground arith)
socket_drop-pending (tp, m ∷ ms) e = omega arith

abbrev pub socket_transport : Transport
socket_transport = record {
  State = SocketState;
  ready = λ s. s.0.ready;
  accept = λ s. ((Socket.accept s.0 (sys_fail eagain)).1, s.1);
  disconnect = λ s. (Socket.disconnect_client s.0, s.1);
  recv = socket_recv;
  drop = socket_drop;
  send_ack = λ s a. ((Ack.send_ack s.0 a (ret ack_size)).0, s.1);
  send_request = λ s r. ((Request.send_request s.0 r (ret request_size)).1, s.1);
  pending = λ s. length s.1;
  recv_pending = socket_recv-pending;
  drop_pending = socket_drop-pending;
  ack_pending = λ s a. omega arith;
}

-- The shared page between two steps of the producer, whose process is alive; the kernel answers the
-- thefts by `ks`.
abbrev pub ShmState : Type 0
ShmState = Shm × Page × List Kernel

abbrev full : Page → ℕ
full page = elim (is_frame page.slot) [ true ↦ 1 | false ↦ 0 ]

unfoldable pub shm_recv : ShmState → Received × ShmState
shm_recv (tp, page, ks) =
    let (r, tp', page') = Consumer.recv_frame tp page false ks in (r, (tp', page', ks))

unfoldable pub shm_drop : ShmState → Rc × ShmState
shm_drop (tp, page, ks) = let (r, page') = Consumer.drop_frame tp page in (r, (tp, page', ks))

pub shm_recv-pending :
    (s : ShmState) (h : FrameHeader) (fds : List ℕ)
    → (shm_recv s).0 ≡ frame h fds
    → full (shm_recv s).1.1 < full s.1
unfolding shm_recv Consumer.recv_frame Consumer.take_frame
shm_recv-pending (tp, page, ks) h fds e = ground arith

pub shm_drop-pending : (s : ShmState) → (shm_drop s).0 ≡ rc1 → full (shm_drop s).1.1 < full s.1
unfolding shm_drop Consumer.drop_frame
shm_drop-pending (tp, page, ks) e = ground arith

pub shm_ack-pending :
    (tp : Shm) (page : Page) (a : Ack) → full (Consumer.send_ack tp page a) ≤ full page
unfolding Consumer.send_ack
shm_ack-pending tp page a = ground arith

abbrev pub shm_transport : Transport
shm_transport = record {
  State = ShmState;
  ready = λ s. s.0.ready;
  accept = λ s. (let (rc, tp, page) = Consumer.accept s.0 s.1 in (tp, page, s.2));
  disconnect = λ s. (let (tp, page) = Shm.disconnect_client s.0 s.1 in (tp, page, s.2));
  recv = shm_recv;
  drop = shm_drop;
  send_ack = λ s a. (s.0, Consumer.send_ack s.0 s.1 a, s.2);
  send_request = λ s r. (s.0, (Consumer.send_request s.0 s.1).1, s.2);
  pending = λ s. full s.1;
  recv_pending = shm_recv-pending;
  drop_pending = shm_drop-pending;
  ack_pending = λ s a. shm_ack-pending s.0 s.1 a;
}
