-- ===== src/Socket/Keeps.antt =====
-- What the calls of src/core/transport/socket that open no descriptor preserve.
use idk_overlay.Prelude.{
  ℕ, zero, suc, ◌≤◌, List, [], ◌∷◌, Bool, Option, ltb, arith, Option-cases, Bool-cases, inl, inr,
}
use idk_overlay.Prelude.Io.{SysRet, Poll}
use idk_overlay.Chunks.{Read}
use idk_overlay.Wire.{Ack, Request, FrameHeader, CursorUpdate}
use idk_overlay.Wire.Bytes.{clear_tag, request_size, ack_size}
use idk_overlay.Socket.{Socket, disconnect_client}
use idk_overlay.Socket.Bytes.{recv}
use idk_overlay.Socket.Ack.{send_ack, wait_ack, wait_ack_loop, coalesce, max_records, head_byte}
use idk_overlay.Socket.Request.{send_request, recv_request, recv_request_loop}
use idk_overlay.Socket.Scm.{send_frame}
use idk_overlay.Socket.Input.{Peeked, send_input, recv_input, send_cursor, recv_cursor}

-- What a disconnect and a change of the queue preserve, the loops preserve.
module _ {ℓ} (P : Socket → Type ℓ) (cut : (tp : Socket) → P tp → P (disconnect_client tp))
    (queue : (tp : Socket) (t : ℕ)
      → t ≤ 1
      → P tp
      → P (record tp { queued_req = coalesce tp.queued_req t }))
    (unqueue : (tp : Socket) → P tp → P (record tp { queued_req = 0 })) where
  wait_ack_loop-keeps : (k : ℕ) (tp : Socket) (s : List ℕ) → P tp → P (wait_ack_loop k tp s).1
  unfolding wait_ack_loop
  wait_ack_loop-keeps zero tp s h = h
  wait_ack_loop-keeps (suc k) tp [] h = h
  wait_ack_loop-keeps (suc k) tp (b ∷ s) h = elim (Option-cases (recv request_size (b ∷ s))) [
    | inl e ↦ ground (arith, e, cut tp h)
    | inr ((w, rest), e) ↦ elim (Bool-cases (ltb 1 (clear_tag (head_byte w)))) [
      | inl big ↦ ground (arith, e, big, cut tp h)
      | inr small ↦ ground (
        arith,
        e,
        small,
        cut tp h,
        wait_ack_loop-keeps k _ rest (queue tp (clear_tag (head_byte w)) (ground arith) h),
      )
    ]
  ]

  recv_request_loop-keeps :
      (b : Bool) (k : ℕ) (tp : Socket) (s : List ℕ) → P tp → P (recv_request_loop b k tp s).1
  unfolding recv_request_loop
  recv_request_loop-keeps b zero tp s h = h
  recv_request_loop-keeps b (suc k) tp [] h = h
  recv_request_loop-keeps b (suc k) tp (c ∷ s) h = elim (Option-cases (recv ack_size (c ∷ s))) [
    | inl e ↦ ground (arith, e, cut tp h)
    | inr ((w, rest), e) ↦ ground (arith, e, cut tp h, recv_request_loop-keeps b k tp rest h)
  ]

  pub wait_ack-keeps : (tp : Socket) (p : Poll) (s : List ℕ) → P tp → P (wait_ack tp p s).1
  unfolding wait_ack
  wait_ack-keeps tp p s h = ground (arith, cut tp h, wait_ack_loop-keeps max_records tp s h)

  pub recv_request-keeps :
      (b : Bool) (tp : Socket) (p : Poll) (s : List ℕ) → P tp → P (recv_request b tp p s).1
  unfolding recv_request
  recv_request-keeps b tp p s h =
      ground (arith, cut tp h, unqueue tp h, recv_request_loop-keeps b max_records tp s h)

  pub send_frame-keeps :
      (tp : Socket) (h : FrameHeader) (fds : List ℕ) (r : SysRet)
      → P tp
      → P (send_frame tp h fds r).1
  unfolding send_frame
  send_frame-keeps tp h fds r v = ground (arith, cut tp v)

  pub send_request-keeps :
      (tp : Socket) (q : Request) (r : SysRet) → P tp → P (send_request tp q r).1
  unfolding send_request
  send_request-keeps tp q r v = ground (arith, cut tp v)

  pub send_ack-keeps : (tp : Socket) (a : Ack) (r : SysRet) → P tp → P (send_ack tp a r).0
  unfolding send_ack
  send_ack-keeps tp a r v = ground (arith, cut tp v)

  pub send_input-keeps : (tp : Socket) (r : SysRet) → P tp → P (send_input tp r).1
  unfolding send_input
  send_input-keeps tp r v = ground (arith, cut tp v)

  pub recv_input-keeps : (tp : Socket) (r : Read) → P tp → P (recv_input tp r).1
  unfolding recv_input
  recv_input-keeps tp r v = ground (arith, cut tp v)

  pub send_cursor-keeps :
      (tp : Socket) (c : CursorUpdate) (b : Bool) (header body : List SysRet)
      → P tp
      → P (send_cursor tp c b header body).1
  unfolding send_cursor
  send_cursor-keeps tp c b header body v = ground (arith, cut tp v)

  pub recv_cursor-keeps :
      (tp : Socket) (n : ℕ) (b : Bool) (p : Peeked) (o : Option ℕ) (header body : List Read)
      → P tp
      → P (recv_cursor tp n b p o header body).2
  unfolding recv_cursor
  recv_cursor-keeps tp n b p o header body v = ground (arith, cut tp v)
