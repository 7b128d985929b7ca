-- ===== src/Shm/Producer.antt =====
-- src/core/transport/shm/producer.c and the producer's half of request.c.
use idk_overlay.Prelude.{
  ℕ, zero, suc, ◌+◌, ◌%◌, ◌^◌, List, [], ◌∷◌, Bool, true, false, not, ◌&&◌, ◌||◌, Option, none,
  some, ltb, ◌==◌, if◌then◌else◌, length,
}
use idk_overlay.Prelude.Errno.{Errno, einval, econnreset, eagain, etimedout}
use idk_overlay.Prelude.Io.{Rc, fail, rc0}
use idk_overlay.Wire.{FrameHeader, Ack, Request, request_next_frame}
use idk_overlay.Shm.{Shm, Page, Slot, slot_empty, slot_frame, slot_ack, slot_dead, is_cons_dead}

-- What a waiting producer reads in one round: the slot, and whether CONS_STATE is -1.
pub record Seen : Type 0 where
  pub slot : Slot
  pub gone : Bool

-- The slot may be written.
abbrev pub is_free : Slot → Bool
is_free slot_empty = true
is_free slot_ack = true
is_free _ = false

abbrev pub is_slot_dead : Slot → Bool
is_slot_dead slot_dead = true
is_slot_dead _ = false

abbrev pub is_ack : Slot → Bool
is_ack slot_ack = true
is_ack _ = false

abbrev pub max_tries : ℕ
max_tries = 500

-- The wait loop of tp_shm_send: `left` more tries after number `i`. `none`: the slot is free.
unfoldable pub wait_slot : ℕ → ℕ → (ℕ → Seen) → Option Errno
wait_slot zero i seen =
    if is_free (seen i).slot
    then none
    else some (if is_slot_dead (seen i).slot || (seen i).gone then econnreset else eagain)
wait_slot (suc left) i seen = elim (is_free (seen i).slot) [
  | true ↦ none
  | false ↦ elim (is_slot_dead (seen i).slot || (seen i).gone) [
    | true ↦ some econnreset
    | false ↦ wait_slot left (i + 1) seen
  ]
]

-- The stores of tp_shm_send once the slot is free, with the 32-bit frame counter.
unfoldable pub publish : Page → FrameHeader → List ℕ → Page
publish page hdr fds = record page {
  nfd = length fds;
  fds = fds;
  hdr = hdr;
  frame_seq = (page.frame_seq + 1) % 2 ^ 32;
  slot = slot_frame;
}

-- tp_shm_send: `page` is the page when the wait ends, `gone` is kill(cons_pid, 0) failing with ESRCH.
unfoldable pub send_frame : Shm → Page → FrameHeader → List ℕ → Bool → (ℕ → Seen) → Rc × Page
send_frame tp page hdr fds gone seen =
    if not tp.mapped || not tp.ready || ltb (length fds) 1 || ltb 4 (length fds)
    then (fail (some einval), page)
    else if ltb 0 page.cons_pid && gone || is_cons_dead page.cons_state
    then (fail (some econnreset), page)
    else elim (wait_slot max_tries 0 seen) [
      | some e ↦ (fail (some e), page)
      | none ↦ (rc0, publish page hdr fds)
    ]

-- What the loop of tp_shm_wait_ack comes to, over the rounds that it makes; each has what it reads
-- and whether the deadline has passed. `waiting`: no answer yet.
pub data AckWait : Type 0 where
  acked : AckWait
  ack_fail : Errno → AckWait
  waiting : AckWait

unfoldable pub ack_loop : List (Seen × Bool) → AckWait
ack_loop [] = waiting
ack_loop ((s, late) ∷ rounds) = elim (is_ack s.slot) [
  | true ↦ acked
  | false ↦ elim (is_slot_dead s.slot || s.gone) [
    | true ↦ ack_fail econnreset
    | false ↦ elim late [ true ↦ ack_fail etimedout | false ↦ ack_loop rounds ]
  ]
]

-- tp_shm_wait_ack: `page` is the page when the loop ends.
unfoldable pub wait_ack : Shm → Page → List (Seen × Bool) → Option Ack × Rc × Page
wait_ack tp page rounds =
    if not tp.mapped || not tp.ready
    then (none, fail (some einval), page)
    else elim (ack_loop rounds) [
      | acked ↦ (some page.ack, rc0, record page { slot = slot_empty })
      | ack_fail e ↦ (none, fail (some e), page)
      | waiting ↦ (none, fail none, page)
    ]

-- The loop of tp_shm_recv_request: each round reads REQ_SEQ. `none`: no answer yet, or a timeout.
unfoldable pub request_loop : ℕ → List (ℕ × Bool) → Option ℕ
request_loop last [] = none
request_loop last ((cur, late) ∷ rounds) = elim (cur == last) [
  | false ↦ some cur
  | true ↦ elim late [ true ↦ none | false ↦ request_loop last rounds ]
]

-- tp_shm_recv_request: any number of counted requests is one NEXT_FRAME.
unfoldable pub recv_request : Shm → List (ℕ × Bool) → Option Request × Shm
unfolding request_loop
recv_request tp rounds =
    if not tp.mapped || not tp.ready
    then (none, tp)
    else elim (request_loop tp.last_req_seq rounds) [
      | none ↦ (none, tp)
      | some cur ↦ (some request_next_frame, record tp { last_req_seq = cur })
    ]
