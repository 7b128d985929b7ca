-- ===== src/Socket/Accounts.antt =====
-- An account of the descriptors of src/core/transport/socket, and what each call does to it.
use idk_overlay.Prelude.{
  ℕ, ◌+◌, ◌≤◌, ◌≡◌, refl, ap, sym, ◌∙◌, List, [], ◌∷◌, Bool, true, false, not, ◌&&◌, Option, none,
  some, ◌==◌, if◌then◌else◌, length, arith,
}
use idk_overlay.Prelude.Io.{SysRet, Poll, poll_none, poll_hangup, poll_in}
use idk_overlay.Socket.{
  Socket, disconnect_client, poll_client, retry_connect, poll, producer_init, is_producer,
}
use idk_overlay.Socket.Init.{
  Listen, listen_on, consumer_init, cleared, init, opened, consumer_opened, init_opened,
}
use idk_overlay.Socket.Scm.{
  RecvMsg, msg_fail, msg_eof, msg, recv_frame, drop_frame, scm_recv_fds, max_fds,
}
use idk_overlay.Socket.Rights.{IsCmsgs, rights, given, closed_by, scm_recv_fds-rights}
use idk_overlay.Prelude.Account.{count, held, count-append}

-- The transport's account of descriptor `n`: what it holds and what it has closed.
abbrev pub account : ℕ → Socket → ℕ
account n tp = held n tp.client_fd + held n tp.server_fd + count n tp.closed

abbrev pub has_fd : Option ℕ → Bool
has_fd none = false
has_fd (some _) = true

pub record IsValid (tp : Socket) : Type 0 where
  pub connected : has_fd tp.client_fd ≡ tp.ready
  pub queue_range : tp.queued_req ≤ 2

-- accept(2) is called by a listening transport without a client.
abbrev pub accept_opened : Socket → SysRet → List ℕ
accept_opened tp r = elim tp.server_fd [
  | none ↦ []
  | some _ ↦ elim tp.client_fd [ some _ ↦ [] | none ↦ opened r ]
]

-- socket(2) is called by a producer without a connection that has tries left and a name.
abbrev pub poll_opened : Socket → SysRet → List ℕ
poll_opened tp sock = elim tp.client_fd [
  | some _ ↦ []
  | none ↦
      if is_producer tp.role && not tp.ready
      then (if tp.connect_retries == 0
          then []
          else if not tp.abstract_name && (length tp.path == 0)
          then []
          else opened sock)
      else []
]

-- The descriptors that come with a message.
abbrev pub arrived : RecvMsg → List ℕ
arrived (msg_fail e) = []
arrived msg_eof = []
arrived (msg m) = rights m.cmsgs

abbrev pub recv_opened : Socket → RecvMsg → List ℕ
recv_opened tp m = elim tp.client_fd [ none ↦ [] | some _ ↦ arrived m ]

-- recvmsg(2) with a control buffer for four descriptors: control messages are whole and bring at most
-- four.
abbrev pub IsReceived : RecvMsg → Type 0
IsReceived (msg_fail e) = Unit
IsReceived msg_eof = Unit
IsReceived (msg m) = IsCmsgs m.cmsgs × (length (rights m.cmsgs) ≤ max_fds)

module _ (n : ℕ) where
  pub disconnect-account : (tp : Socket) → account n (disconnect_client tp) ≡ account n tp
  unfolding disconnect_client
  disconnect-account tp = ground arith

  -- What the calls that open nothing preserve.
  abbrev pub Same : Socket → Socket → Type 0
  Same tp t = account n t ≡ account n tp

  pub cut-Same : (tp t : Socket) → Same tp t → Same tp (disconnect_client t)
  cut-Same tp t h = disconnect-account t ∙ h

  poll_client-account : (tp : Socket) (p : Poll) → account n (poll_client tp p).1 ≡ account n tp
  unfolding poll_client
  poll_client-account tp poll_none = refl
  poll_client-account tp poll_hangup = disconnect-account tp
  poll_client-account tp poll_in = refl

  pub poll-account :
      (tp : Socket) (sock conn : SysRet) (p : Poll)
      → account n (poll tp sock conn p).1 ≡ account n tp + count n (poll_opened tp sock)
  unfolding poll retry_connect
  poll-account tp sock conn p = ground (arith, poll_client-account tp p)

  listen_on-account :
      (tp : Socket) (l : Listen)
      → tp.client_fd ≡ none
      → tp.server_fd ≡ none
      → account n (listen_on tp l).1 ≡ account n tp + count n (opened l.sock)
  unfolding listen_on
  listen_on-account tp l c s = ground (arith, c, s)

  consumer_init-account :
      (tp : Socket) (name : List ℕ) (l : Listen)
      → tp.client_fd ≡ none
      → tp.server_fd ≡ none
      → account n (consumer_init tp name l).1 ≡ account n tp + count n (consumer_opened name l)
  unfolding consumer_init
  consumer_init-account tp name l c s = ground (
    arith,
    c,
    s,
    listen_on-account tp l c s,
    λ (fd : ℕ). listen_on-account (record tp { closed = fd ∷ tp.closed }) l c s,
  )

  producer_init-account :
      (tp : Socket) (name : List ℕ) (sock conn : SysRet)
      → tp.client_fd ≡ none
      → tp.server_fd ≡ none
      → account n (producer_init tp name sock conn).1 ≡ account n tp + count n (opened sock)
  unfolding producer_init
  producer_init-account tp name sock conn c s = ground (arith, c, s)

  pub init-account :
      (tp : Socket) (name : List ℕ) (l : Listen) (sock conn : SysRet)
      → tp.client_fd ≡ none
      → tp.server_fd ≡ none
      → account n (init tp name l sock conn).1 ≡ account n tp + count n (init_opened tp name l sock)
  unfolding init cleared
  init-account tp name l sock conn c s = ground (
    arith,
    c,
    s,
    consumer_init-account (cleared tp) name l refl refl,
    producer_init-account (cleared tp) name sock conn refl refl,
  )

  -- A received message: what it brought is handed over or closed.
  message-account :
      (m : RecvMsg)
      → IsReceived m
      → count n (given (scm_recv_fds m)) + count n (closed_by (scm_recv_fds m))
        ≡ count n (arrived m)
  message-account (msg_fail e) i = unfold scm_recv_fds in ground arith
  message-account msg_eof i = unfold scm_recv_fds in refl
  message-account (msg m) (v, h) =
      sym (count-append n (given (scm_recv_fds (msg m))) (closed_by (scm_recv_fds (msg m))))
      ∙ ap (count n) (scm_recv_fds-rights m v h)

  pub recv_frame-account :
      (tp : Socket) (m : RecvMsg)
      → IsReceived m
      → account n (recv_frame tp m).1 + count n (given (recv_frame tp m).0)
        ≡ account n tp + count n (recv_opened tp m)
  unfolding recv_frame
  recv_frame-account tp m i =
      ground (arith, message-account m i, count-append n (closed_by (scm_recv_fds m)) tp.closed)

  pub drop_frame-account :
      (tp : Socket) (m : RecvMsg)
      → IsReceived m
      → account n (drop_frame tp m).1 ≡ account n tp + count n (recv_opened tp m)
  unfolding drop_frame
  drop_frame-account tp m i = ground (
    arith,
    recv_frame-account tp m i,
    count-append n (given (recv_frame tp m).0) (recv_frame tp m).1.closed,
  )
