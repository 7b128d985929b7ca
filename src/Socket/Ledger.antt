-- ===== src/Socket/Ledger.antt =====
-- Histories of calls on the transport of src/core/transport/socket.
use idk_overlay.Prelude.{ℕ, ◌+◌, ◌≤◌, ◌≡◌, refl, List, [], ◌++◌, Bool, Option, none, arith}
use idk_overlay.Prelude.Io.{SysRet, Poll}
use idk_overlay.Chunks.{Read}
use idk_overlay.Wire.{Ack, Request, FrameHeader, CursorUpdate}
use idk_overlay.Socket.{
  Socket, disconnect_client, destroy, accept, poll_client, retry_connect, poll, producer_init,
}
use idk_overlay.Socket.Init.{Listen, listen_on, consumer_init, cleared, init, init_opened}
use idk_overlay.Socket.Ack.{send_ack, wait_ack, coalesce}
use idk_overlay.Socket.Request.{send_request, recv_request}
use idk_overlay.Socket.Scm.{RecvMsg, send_frame, recv_frame, drop_frame}
use idk_overlay.Socket.Rights.{given}
use idk_overlay.Socket.Input.{Peeked, send_input, recv_input, send_cursor, recv_cursor}
use idk_overlay.Socket.Keeps.{
  wait_ack-keeps, recv_request-keeps, send_frame-keeps, send_request-keeps, send_ack-keeps,
  send_input-keeps, recv_input-keeps, send_cursor-keeps, recv_cursor-keeps,
}
use idk_overlay.Prelude.Account.{count, count-append}
use idk_overlay.Socket.Accounts.{
  account, IsValid, accept_opened, poll_opened, recv_opened, IsReceived, Same, cut-Same,
  disconnect-account, init-account, poll-account, recv_frame-account, drop_frame-account,
}

-- One call on a transport, with the descriptors that the kernel opens in it and those that it hands to
-- its caller. What the environment decides (the results of the libc calls, the bytes on the stream) is
-- arbitrary; a transport is set up where it holds no descriptor.
pub data Step (tp : Socket) : List ℕ → List ℕ → Socket → Type 0 where
  starts :
      (name : List ℕ) (l : Listen) (sock conn : SysRet)
      → tp.client_fd ≡ none
      → tp.server_fd ≡ none
      → Step tp (init_opened tp name l sock) [] (init tp name l sock conn).1
  accepts : (r : SysRet) → Step tp (accept_opened tp r) [] (accept tp r).1
  polls : (sock conn : SysRet) (p : Poll) → Step tp (poll_opened tp sock) [] (poll tp sock conn p).1
  disconnects : Step tp [] [] (disconnect_client tp)
  destroys : Step tp [] [] (destroy tp)
  sends_ack : (a : Ack) (r : SysRet) → Step tp [] [] (send_ack tp a r).0
  sends_request : (q : Request) (r : SysRet) → Step tp [] [] (send_request tp q r).1
  sends_frame :
      (h : FrameHeader) (fds : List ℕ) (r : SysRet) → Step tp [] [] (send_frame tp h fds r).1
  receives_frame :
      (m : RecvMsg)
      → IsReceived m
      → Step tp (recv_opened tp m) (given (recv_frame tp m).0) (recv_frame tp m).1
  drops_frame : (m : RecvMsg) → IsReceived m → Step tp (recv_opened tp m) [] (drop_frame tp m).1
  waits_ack : (p : Poll) (s : List ℕ) → Step tp [] [] (wait_ack tp p s).1
  receives_request : (b : Bool) (p : Poll) (s : List ℕ) → Step tp [] [] (recv_request b tp p s).1
  sends_input : (r : SysRet) → Step tp [] [] (send_input tp r).1
  receives_input : (r : Read) → Step tp [] [] (recv_input tp r).1
  sends_cursor :
      (c : CursorUpdate) (b : Bool) (header body : List SysRet)
      → Step tp [] [] (send_cursor tp c b header body).1
  receives_cursor :
      (n : ℕ) (b : Bool) (p : Peeked) (o : Option ℕ) (header body : List Read)
      → Step tp [] [] (recv_cursor tp n b p o header body).2

kept : (a b : ℕ) → a ≡ b → a + 0 ≡ b + 0
kept a b h = omega (arith, h)

module _ (n : ℕ) where
  -- A call closes exactly the descriptors that the transport lets go of: each one that it held or
  -- that the kernel opened for it is afterwards held, closed or handed over, as often as before.
  Step-account :
      {tp tp' : Socket} {fds gds : List ℕ}
      → Step tp fds gds tp'
      → account n tp' + count n gds ≡ account n tp + count n fds
  unfolding accept destroy
  Step-account {tp} (starts name l sock conn c s) =
      omega (arith, init-account n tp name l sock conn c s)
  Step-account {tp} (accepts r) = ground arith
  Step-account {tp} (polls sock conn p) = omega (arith, poll-account n tp sock conn p)
  Step-account {tp} disconnects = omega (arith, disconnect-account n tp)
  Step-account {tp} destroys = ground arith
  Step-account {tp} (receives_frame m i) = recv_frame-account n tp m i
  Step-account {tp} (drops_frame m i) = omega (arith, drop_frame-account n tp m i)
  Step-account {tp} (sends_ack a r) =
      kept _ _ (send_ack-keeps (Same n tp) (cut-Same n tp) (λ t q l h. h) (λ t h. h) tp a r refl)
  Step-account {tp} (sends_request q r) =
      kept _ _
        (send_request-keeps (Same n tp) (cut-Same n tp) (λ t q l h. h) (λ t h. h) tp q r refl)
  Step-account {tp} (sends_frame h fds r) =
      kept _ _
        (send_frame-keeps (Same n tp) (cut-Same n tp) (λ t q l h. h) (λ t h. h) tp h fds r refl)
  Step-account {tp} (waits_ack p s) =
      kept _ _ (wait_ack-keeps (Same n tp) (cut-Same n tp) (λ t q l h. h) (λ t h. h) tp p s refl)
  Step-account {tp} (receives_request b p s) =
      kept _ _
        (recv_request-keeps (Same n tp) (cut-Same n tp) (λ t q l h. h) (λ t h. h) b tp p s refl)
  Step-account {tp} (sends_input r) =
      kept _ _ (send_input-keeps (Same n tp) (cut-Same n tp) (λ t q l h. h) (λ t h. h) tp r refl)
  Step-account {tp} (receives_input r) =
      kept _ _ (recv_input-keeps (Same n tp) (cut-Same n tp) (λ t q l h. h) (λ t h. h) tp r refl)
  Step-account {tp} (sends_cursor c b header body) = kept _ _ (
      send_cursor-keeps (Same n tp) (cut-Same n tp) (λ t q l h. h) (λ t h. h) tp c b header body
        refl)
  Step-account {tp} (receives_cursor k b p o header body) = kept _ _ (
      recv_cursor-keeps (Same n tp) (cut-Same n tp) (λ t q l h. h) (λ t h. h) tp k b p o header body
        refl)

disconnect-IsValid : (tp : Socket) → IsValid tp → IsValid (disconnect_client tp)
unfolding disconnect_client
disconnect-IsValid tp v = ground arith

queue-IsValid :
    (tp : Socket) (t : ℕ)
    → t ≤ 1
    → IsValid tp
    → IsValid (record tp { queued_req = coalesce tp.queued_req t })
queue-IsValid tp t h v = record {
  connected = v.connected;
  queue_range = ground (arith, v.queue_range);
}

unqueue-IsValid : (tp : Socket) → IsValid tp → IsValid (record tp { queued_req = 0 })
unqueue-IsValid tp v = record { connected = v.connected; queue_range = omega arith }

init-IsValid :
    (tp : Socket) (name : List ℕ) (l : Listen) (sock conn : SysRet)
    → IsValid (init tp name l sock conn).1
unfolding init cleared consumer_init listen_on producer_init
init-IsValid tp name l sock conn = ground arith

poll-IsValid :
    (tp : Socket) (sock conn : SysRet) (p : Poll) → IsValid tp → IsValid (poll tp sock conn p).1
unfolding poll poll_client retry_connect
poll-IsValid tp sock conn p v = ground (arith, disconnect-IsValid tp v)

-- A received frame changes only the log.
recv_frame-IsValid : (tp : Socket) (m : RecvMsg) → IsValid tp → IsValid (recv_frame tp m).1
unfolding recv_frame
recv_frame-IsValid tp m v = ground arith

drop_frame-IsValid : (tp : Socket) (m : RecvMsg) → IsValid tp → IsValid (drop_frame tp m).1
unfolding drop_frame
drop_frame-IsValid tp m v = ground (arith, recv_frame-IsValid tp m v)

-- Every call keeps `ready` true exactly while there is a client, and the queue at 0, 1 or 2.
Step-IsValid : {tp tp' : Socket} {fds gds : List ℕ} → Step tp fds gds tp' → IsValid tp → IsValid tp'
unfolding accept destroy
Step-IsValid {tp} (starts name l sock conn c s) v = init-IsValid tp name l sock conn
Step-IsValid (accepts r) v = ground arith
Step-IsValid {tp} (polls sock conn p) v = poll-IsValid tp sock conn p v
Step-IsValid disconnects v = disconnect-IsValid _ v
Step-IsValid destroys v = ground arith
Step-IsValid {tp} (receives_frame m i) v = recv_frame-IsValid tp m v
Step-IsValid {tp} (drops_frame m i) v = drop_frame-IsValid tp m v
Step-IsValid {tp} (sends_ack a r) v =
    send_ack-keeps IsValid disconnect-IsValid queue-IsValid unqueue-IsValid tp a r v
Step-IsValid {tp} (sends_request q r) v =
    send_request-keeps IsValid disconnect-IsValid queue-IsValid unqueue-IsValid tp q r v
Step-IsValid {tp} (sends_frame h fds r) v =
    send_frame-keeps IsValid disconnect-IsValid queue-IsValid unqueue-IsValid tp h fds r v
Step-IsValid {tp} (waits_ack p s) v =
    wait_ack-keeps IsValid disconnect-IsValid queue-IsValid unqueue-IsValid tp p s v
Step-IsValid {tp} (receives_request b p s) v =
    recv_request-keeps IsValid disconnect-IsValid queue-IsValid unqueue-IsValid b tp p s v
Step-IsValid {tp} (sends_input r) v =
    send_input-keeps IsValid disconnect-IsValid queue-IsValid unqueue-IsValid tp r v
Step-IsValid {tp} (receives_input r) v =
    recv_input-keeps IsValid disconnect-IsValid queue-IsValid unqueue-IsValid tp r v
Step-IsValid {tp} (sends_cursor c b header body) v =
    send_cursor-keeps IsValid disconnect-IsValid queue-IsValid unqueue-IsValid tp c b header body v
Step-IsValid {tp} (receives_cursor k b p o header body) v =
    recv_cursor-keeps IsValid disconnect-IsValid queue-IsValid unqueue-IsValid tp k b p o header
      body v

-- A history of calls, with the descriptors opened over it and those handed to the callers.
pub data Reach (tp : Socket) : List ℕ → List ℕ → Socket → Type 0 where
  here : Reach tp [] [] tp
  next :
      {fds gds more handed : List ℕ} {t u : Socket}
      → Reach tp fds gds t
      → Step t more handed u
      → Reach tp (more ++ fds) (handed ++ gds) u

-- Over any history of calls, in any environment, where the kernel hands over at most the four
-- descriptors of a message that there is room for, and the transport is set up only while it holds no
-- descriptor: every descriptor that it held at the start or that was opened for it is held, closed or
-- was handed to a caller at the end, exactly as often as it was obtained, so none leaks and none is
-- closed twice; and the state is valid.
pub Reach-account :
    (n : ℕ) {tp tp' : Socket} {fds gds : List ℕ}
    → Reach tp fds gds tp'
    → IsValid tp
    → (account n tp' + count n gds ≡ account n tp + count n fds) × IsValid tp'
Reach-account n here v = (omega arith, v)
Reach-account n (next {fds = fds} {gds = gds} {more = more} {handed = handed} r s) v =
    let ih = Reach-account n r v in
    (
      omega (arith, ih.0, Step-account n s, count-append n more fds, count-append n handed gds),
      Step-IsValid s ih.1,
    )
