-- ===== src/Socket/Demux.antt =====
-- REQUESTs and ACKs share the producer's stream: what socket/ack.c and socket/request.c make of it.
use idk_overlay.Prelude.{
  ℕ, zero, suc, ◌≤◌, ◌<◌, ◌≡◌, ◌≢◌, refl, ◌⊎◌, inl, inr, List, [], ◌∷◌, ◌++◌, ◌∙◌, ap, Bool, true,
  false, none, some, length, replicate, arith,
}
use idk_overlay.Wire.{Ack, Request, request_shutdown}
use idk_overlay.Wire.Bytes.{
  ack_size, request_size, encode_ack, decode_ack, encode_request, le32, IsAck,
  decode_ack-encode_ack,
}
use idk_overlay.Socket.{Socket}
use idk_overlay.Socket.Bytes.{peek-append, recv-append}
use idk_overlay.Socket.Ack.{wait_ack_loop, coalesce}
use idk_overlay.Socket.Request.{recv_request_loop}

-- The bytes of some REQUESTs, and of some ACKs, in front of `rest`.
abbrev pub requests_then : List Request → List ℕ → List ℕ
requests_then [] rest = rest
requests_then (r ∷ rs) rest = encode_request r ++ requests_then rs rest

abbrev pub acks_then : List Ack → List ℕ → List ℕ
acks_then [] rest = rest
acks_then (a ∷ as') rest = encode_ack a ++ acks_then as' rest

abbrev pub IsRequests : List Request → Type 0
IsRequests [] = Unit
IsRequests (r ∷ rs) = (r ≤ request_shutdown) × IsRequests rs

abbrev pub IsAcks : List Ack → Type 0
IsAcks [] = Unit
IsAcks (a ∷ as') = IsAck a × IsAcks as'

-- The queue after some requests were coalesced into it.
abbrev pub queue_after : ℕ → List Request → ℕ
queue_after q [] = q
queue_after q (r ∷ rs) = queue_after (coalesce q r) rs

wait_ack_loop-request :
    (k : ℕ) (tp : Socket) (r : Request) (rest : List ℕ)
    → r ≤ request_shutdown
    → wait_ack_loop (suc k) tp (encode_request r ++ rest)
      ≡ wait_ack_loop k (record tp { queued_req = coalesce tp.queued_req r }) rest
unfolding wait_ack_loop encode_request
wait_ack_loop-request k tp zero rest h = ground (
  arith,
  peek-append request_size (128 ∷ replicate 7 0) rest refl,
  recv-append request_size (128 ∷ replicate 7 0) rest refl,
)
wait_ack_loop-request k tp (suc zero) rest h = ground (
  arith,
  peek-append request_size (129 ∷ replicate 7 0) rest refl,
  recv-append request_size (129 ∷ replicate 7 0) rest refl,
)
wait_ack_loop-request k tp (suc (suc r)) rest h = absurd (omega arith)

-- The record at the head of the stream is an ACK: its first byte is no tag and no unknown code.
wait_ack_loop-ack_bytes :
    (k : ℕ) (tp : Socket) (c : ℕ) (bs rest : List ℕ)
    → c ≤ 2
    → length bs ≡ 15
    → wait_ack_loop (suc k) tp ((c ∷ bs) ++ rest) ≡ (some (decode_ack (c ∷ bs)), tp, rest)
unfolding wait_ack_loop
wait_ack_loop-ack_bytes k tp c bs rest h e = ground (
  arith,
  peek-append ack_size (c ∷ bs) rest (omega arith),
  recv-append ack_size (c ∷ bs) rest (omega arith),
)

wait_ack_loop-ack :
    (k : ℕ) (tp : Socket) (a : Ack) (rest : List ℕ)
    → IsAck a
    → wait_ack_loop (suc k) tp (encode_ack a ++ rest) ≡ (some a, tp, rest)
unfolding encode_ack
wait_ack_loop-ack k tp a rest v =
    wait_ack_loop-ack_bytes k tp a.code _ rest v.code_range refl
    ∙ ap (λ x. (some x, tp, rest)) (decode_ack-encode_ack a v)

-- With requests in front of an ACK, the loop finds exactly that ACK, leaves exactly what follows
-- it, and has coalesced exactly those requests, as long as they are fewer than its rounds.
pub wait_ack_loop-requests_ack :
    (k : ℕ) (tp : Socket) (rs : List Request) (a : Ack) (rest : List ℕ)
    → length rs < k
    → IsRequests rs
    → IsAck a
    → wait_ack_loop k tp (requests_then rs (encode_ack a ++ rest))
      ≡ (some a, record tp { queued_req = queue_after tp.queued_req rs }, rest)
wait_ack_loop-requests_ack zero tp rs a rest h vr va = absurd (omega arith)
wait_ack_loop-requests_ack (suc k) tp [] a rest h vr va = wait_ack_loop-ack k tp a rest va
wait_ack_loop-requests_ack (suc k) tp (r ∷ rs) a rest h vr va =
    wait_ack_loop-request k tp r (requests_then rs (encode_ack a ++ rest)) vr.0
    ∙ wait_ack_loop-requests_ack k _ rs a rest (omega arith) vr.1 va

-- When the rounds run out among the requests, each one read is coalesced and the rest stays.
pub wait_ack_loop-flood :
    (rs : List Request) (tp : Socket) (more : List Request) (rest : List ℕ)
    → IsRequests rs
    → wait_ack_loop (length rs) tp (requests_then rs (requests_then more rest))
      ≡ (none, record tp { queued_req = queue_after tp.queued_req rs }, requests_then more rest)
unfolding wait_ack_loop
wait_ack_loop-flood [] tp more rest v = refl
wait_ack_loop-flood (r ∷ rs) tp more rest v =
    wait_ack_loop-request (length rs) tp r (requests_then rs (requests_then more rest)) v.0
    ∙ wait_ack_loop-flood rs _ more rest v.1

-- The queue holds SHUTDOWN exactly when it did before or one of the requests is SHUTDOWN.
abbrev pub HasShutdown : List Request → Type 0
HasShutdown [] = ⊥
HasShutdown (r ∷ rs) = (r ≡ request_shutdown) ⊎ HasShutdown rs

queue_after-shutdown : (rs : List Request) → queue_after 2 rs ≡ 2
queue_after-shutdown [] = refl
queue_after-shutdown (r ∷ rs) = ground (arith, queue_after-shutdown rs)

pub queue_after-HasShutdown :
    (q : ℕ) (rs : List Request) → q ≤ 2 → IsRequests rs → HasShutdown rs → queue_after q rs ≡ 2
queue_after-HasShutdown q [] h v s = absurd s
queue_after-HasShutdown q (r ∷ rs) h v (inl e) = ground (arith, queue_after-shutdown rs)
queue_after-HasShutdown q (r ∷ rs) h v (inr s) =
    queue_after-HasShutdown (coalesce q r) rs (ground arith) v.1 s

pub queue_after-next_frame :
    (rs : List Request) → IsRequests rs → ¬ HasShutdown rs → queue_after 1 rs ≡ 1
queue_after-next_frame [] v n = refl
queue_after-next_frame (r ∷ rs) v n =
    ground (arith, queue_after-next_frame rs v.1 (λ s. n (inr s)), n0)
  where
    n0 : r ≢ request_shutdown
    n0 e = n (inl e)

-- Stale ACKs.
recv_request_loop-ack_bytes :
    (k : ℕ) (tp : Socket) (c : ℕ) (bs rest : List ℕ)
    → c ≤ 2
    → length bs ≡ 15
    → recv_request_loop false (suc k) tp ((c ∷ bs) ++ rest) ≡ recv_request_loop false k tp rest
unfolding recv_request_loop
recv_request_loop-ack_bytes k tp c bs rest h e = ground (
  arith,
  peek-append ack_size (c ∷ bs) rest (omega arith),
  recv-append ack_size (c ∷ bs) rest (omega arith),
)

recv_request_loop-ack :
    (k : ℕ) (tp : Socket) (a : Ack) (rest : List ℕ)
    → IsAck a
    → recv_request_loop false (suc k) tp (encode_ack a ++ rest) ≡ recv_request_loop false k tp rest
unfolding encode_ack le32
recv_request_loop-ack k tp a rest v =
    recv_request_loop-ack_bytes k tp a.code
      (0 ∷ 0 ∷ 0 ∷ (le32 a.w ++ (le32 a.h ++ (0 ∷ 0 ∷ 0 ∷ 0 ∷ [])))) rest v.code_range refl

recv_request_loop-request :
    (b : Bool) (k : ℕ) (tp : Socket) (r : Request) (rest : List ℕ)
    → r ≤ request_shutdown
    → recv_request_loop b (suc k) tp (encode_request r ++ rest) ≡ (some r, tp, rest)
unfolding recv_request_loop encode_request
recv_request_loop-request b k tp zero rest h = ground (
  arith,
  peek-append request_size (128 ∷ replicate 7 0) rest refl,
  recv-append request_size (128 ∷ replicate 7 0) rest refl,
)
recv_request_loop-request b k tp (suc zero) rest h = ground (
  arith,
  peek-append request_size (129 ∷ replicate 7 0) rest refl,
  recv-append request_size (129 ∷ replicate 7 0) rest refl,
)
recv_request_loop-request b k tp (suc (suc r)) rest h = absurd (omega arith)

-- ACKs that nobody waited for are dropped whole, and the request behind them is found.
pub recv_request_loop-acks_request :
    (k : ℕ) (tp : Socket) (as' : List Ack) (r : Request) (rest : List ℕ)
    → length as' < k
    → IsAcks as'
    → r ≤ request_shutdown
    → recv_request_loop false k tp (acks_then as' (encode_request r ++ rest)) ≡ (some r, tp, rest)
recv_request_loop-acks_request zero tp as' r rest h va vr = absurd (omega arith)
recv_request_loop-acks_request (suc k) tp [] r rest h va vr =
    recv_request_loop-request false k tp r rest vr
recv_request_loop-acks_request (suc k) tp (a ∷ as') r rest h va vr =
    recv_request_loop-ack k tp a (acks_then as' (encode_request r ++ rest)) va.0
    ∙ recv_request_loop-acks_request k tp as' r rest (omega arith) va.1 vr

pub preserving_loop-ack :
    (k : ℕ) (tp : Socket) (a : Ack) (rest : List ℕ)
    → IsAck a
    → recv_request_loop true (suc k) tp (encode_ack a ++ rest) ≡ (none, tp, encode_ack a ++ rest)
unfolding encode_ack recv_request_loop
preserving_loop-ack k tp a rest v = ground (arith, v.code_range)
