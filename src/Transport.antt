-- ===== src/Transport.antt =====
-- include/core/transport.h as the compositor uses it: the operations that src/core/transport/
-- dispatch.c forwards to a backend, and the one law that the compositor's loops rest on, that what
-- was received or dropped is gone from the backend's queue.
pub mod Backends
use idk_overlay.Prelude.{ℕ, ◌≤◌, ◌<◌, ◌≡◌, Bool, List}
use idk_overlay.Prelude.Io.{Rc, rc1}
use idk_overlay.Wire.{FrameHeader, Ack, Request}
use idk_overlay.Socket.Scm.{Received, frame}

-- `pending` bounds the frames that a backend can still hand over without the other end's help.
pub record Transport : Type 1 where
  pub State : Type 0
  pub ready : State → Bool
  pub accept : State → State
  pub disconnect : State → State
  pub recv : State → Received × State
  pub drop : State → Rc × State
  pub send_ack : State → Ack → State
  pub send_request : State → Request → State
  pub pending : State → ℕ
  pub recv_pending :
      (s : State) (h : FrameHeader) (fds : List ℕ)
      → (recv s).0 ≡ frame h fds
      → pending (recv s).1 < pending s
  pub drop_pending : (s : State) → (drop s).0 ≡ rc1 → pending (drop s).1 < pending s
  pub ack_pending : (s : State) (a : Ack) → pending (send_ack s a) ≤ pending s
