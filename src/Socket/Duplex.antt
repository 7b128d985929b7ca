-- ===== src/Socket/Duplex.antt =====
-- Both ends of the duplex stream together: `send_request` and `send_ack` of a consumer, `wait_ack` and
-- `recv_request` of its producer (socket/request.c, socket/ack.c).
use idk_overlay.Prelude.{
  ℕ, ◌≤◌, ◌<◌, ◌≡◌, refl, ◌∙◌, sym, ap, List, [], ◌∷◌, ◌++◌, Bool, true, false, Option, none, some,
  length, arith,
}
use idk_overlay.Prelude.Io.{ret, Poll, poll_in}
use idk_overlay.Wire.{Ack, Request, request_shutdown}
use idk_overlay.Wire.Bytes.{ack_size, request_size, encode_ack, encode_request, IsAck}
use idk_overlay.Socket.{Socket}
use idk_overlay.Socket.Ack.{wait_ack_loop, send_ack, wait_ack, max_records}
use idk_overlay.Socket.Request.{recv_request_loop, send_request, recv_request}
use idk_overlay.Socket.Demux.{
  requests_then, acks_then, IsRequests, IsAcks, HasShutdown, queue_after, queue_after-HasShutdown,
  wait_ack_loop-requests_ack, recv_request_loop-acks_request, preserving_loop-ack,
}

-- What a consumer puts on the stream with whole writes, in front of `rest`.
abbrev pub sent_requests : Socket → List Request → List ℕ → List ℕ
sent_requests c [] rest = rest
sent_requests c (r ∷ rs) rest = (send_request c r (ret request_size)).2 ++ sent_requests c rs rest

abbrev pub sent_acks : Socket → List Ack → List ℕ → List ℕ
sent_acks c [] rest = rest
sent_acks c (a ∷ as') rest = (send_ack c a (ret ack_size)).1 ++ sent_acks c as' rest

module _ (c : Socket) (fd : ℕ) (connected : c.client_fd ≡ some fd) where
  send_request-encode :
      (r : Request)
      → r ≤ request_shutdown
      → (send_request c r (ret request_size)).2 ≡ encode_request r
  unfolding send_request encode_request
  send_request-encode r h = ground arith

  send_ack-encode : (a : Ack) → (send_ack c a (ret ack_size)).1 ≡ encode_ack a
  unfolding send_ack encode_ack
  send_ack-encode a = ground arith

  sent_requests-then :
      (rs : List Request) (rest : List ℕ)
      → IsRequests rs
      → sent_requests c rs rest ≡ requests_then rs rest
  sent_requests-then [] rest v = refl
  sent_requests-then (r ∷ rs) rest v =
      cc (send_request-encode r v.0, sent_requests-then rs rest v.1)

  sent_acks-then : (as' : List Ack) (rest : List ℕ) → sent_acks c as' rest ≡ acks_then as' rest
  sent_acks-then [] rest = refl
  sent_acks-then (a ∷ as') rest = cc (send_ack-encode a, sent_acks-then as' rest)

module _ (p : Socket) (gd : ℕ) (reads : p.client_fd ≡ some gd) where
  wait_ack-readable : (s : List ℕ) → wait_ack p poll_in s ≡ wait_ack_loop max_records p s
  unfolding wait_ack
  wait_ack-readable s = ground arith

  recv_request-readable :
      (b : Bool) (s : List ℕ)
      → p.queued_req ≡ 0
      → recv_request b p poll_in s ≡ recv_request_loop b max_records p s
  unfolding recv_request
  recv_request-readable b s e = ground arith

  recv_request-queued :
      (b : Bool) (q : Poll) (s : List ℕ)
      → p.queued_req ≡ 2
      → recv_request b p q s ≡ (some request_shutdown, record p { queued_req = 0 }, s)
  unfolding recv_request
  recv_request-queued b q s e = ground arith

module _ (c p : Socket) (fd gd : ℕ) (sends : c.client_fd ≡ some fd)
    (reads : p.client_fd ≡ some gd) where
  -- Fewer than 256 requests sent before an ACK neither hide it nor are lost: the producer's
  -- `wait_ack` returns the very ACK, leaves what was sent after it on the stream, and has the
  -- requests coalesced in its queue; nothing else of its state changes.
  pub wait_ack-send_ack :
      (rs : List Request) (a : Ack) (rest : List ℕ)
      → length rs < max_records
      → IsRequests rs
      → IsAck a
      → wait_ack p poll_in (sent_requests c rs ((send_ack c a (ret ack_size)).1 ++ rest))
        ≡ (some a, record p { queued_req = queue_after p.queued_req rs }, rest)
  wait_ack-send_ack rs a rest h vr va =
      wait_ack-readable p gd reads _
      ∙ ap (wait_ack_loop max_records p) (sent_requests-then c fd sends rs _ vr)
      ∙ ap (λ b. wait_ack_loop max_records p (requests_then rs (b ++ rest)))
          (send_ack-encode c fd sends a)
      ∙ wait_ack_loop-requests_ack max_records p rs a rest h vr va

  -- A SHUTDOWN sent anywhere among fewer than 256 requests before an ACK is what the producer's
  -- next `recv_request` returns after it took the ACK, whatever poll says and whatever follows on
  -- the stream, which stays untouched.
  pub recv_request-shutdown :
      (rs : List Request) (a : Ack) (rest : List ℕ) (b : Bool) (q : Poll)
      → length rs < max_records
      → IsRequests rs
      → HasShutdown rs
      → IsAck a
      → p.queued_req ≤ 2
      → (let (_, p', s') =
            wait_ack p poll_in (sent_requests c rs ((send_ack c a (ret ack_size)).1 ++ rest)) in
          recv_request b p' q s')
        ≡ (some request_shutdown, record p { queued_req = 0 }, rest)
  recv_request-shutdown rs a rest b q h vr vs va hq =
      ap (λ (t : Option Ack × Socket × List ℕ). recv_request b t.1 q t.2)
        (wait_ack-send_ack rs a rest h vr va)
      ∙ recv_request-queued (record p { queued_req = queue_after p.queued_req rs }) gd reads b q
          rest (queue_after-HasShutdown p.queued_req rs hq vr vs)

  -- With nothing queued, a producer that no longer waits for ACKs drops fewer than 256 of them and
  -- returns the request sent behind them; its state does not change.
  pub recv_request-send_request :
      (as' : List Ack) (r : Request) (rest : List ℕ)
      → p.queued_req ≡ 0
      → length as' < max_records
      → IsAcks as'
      → r ≤ request_shutdown
      → recv_request false p poll_in
          (sent_acks c as' ((send_request c r (ret request_size)).2 ++ rest))
        ≡ (some r, p, rest)
  recv_request-send_request as' r rest e h va vr =
      recv_request-readable p gd reads false _ e
      ∙ ap (recv_request_loop false max_records p) (sent_acks-then c fd sends as' _)
      ∙ ap (λ b. recv_request_loop false max_records p (acks_then as' (b ++ rest)))
          (send_request-encode c fd sends r vr)
      ∙ recv_request_loop-acks_request max_records p as' r rest h va vr

  -- A producer that still waits for an ACK looks for a request with `preserve_ack` set, finds the
  -- ACK first, takes nothing from the stream, and its next `wait_ack` returns that ACK.
  pub wait_ack-preserving :
      (a : Ack) (rest : List ℕ)
      → p.queued_req ≡ 0
      → IsAck a
      → let s = (send_ack c a (ret ack_size)).1 ++ rest in
        (recv_request true p poll_in s ≡ (none, p, s)) × (wait_ack p poll_in s ≡ (some a, p, rest))
  wait_ack-preserving a rest e va = (
    recv_request-readable p gd reads true _ e
        ∙ ap (recv_request_loop true max_records p) eq
        ∙ preserving_loop-ack 255 p a rest va
        ∙ ap (λ s. (none, p, s)) (sym eq),
    wait_ack-readable p gd reads _
        ∙ ap (wait_ack_loop max_records p) eq
        ∙ wait_ack_loop-requests_ack max_records p [] a rest (omega arith) tt va,
  )
    where
      eq : (send_ack c a (ret ack_size)).1 ++ rest ≡ encode_ack a ++ rest
      eq = ap (λ b. b ++ rest) (send_ack-encode c fd sends a)
