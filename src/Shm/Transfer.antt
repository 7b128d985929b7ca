-- ===== src/Shm/Transfer.antt =====
-- What a send and a receive of src/core/transport/shm can come to on a page.
use idk_overlay.Prelude.{
  ℕ, ◌+◌, ◌≤◌, ◌≡◌, refl, sym, subst, List, [], ◌∷◌, Bool, true, false, Option, none, some, length,
  arith, Option-cases, inl, inr, Bool-cases, zero, suc, not, ◌||◌, ◌&&◌, ltb,
}
use idk_overlay.Prelude.Io.{Rc, fail, rc0}
use idk_overlay.Wire.{FrameHeader}
use idk_overlay.Shm.{Shm, Page, is_frame, is_cons_dead, is_prod_dead, slot_consumed, slot_empty}
use idk_overlay.Prelude.Errno.{Errno, einval, econnreset}
use idk_overlay.Shm.Steal.{Kernel}
use idk_overlay.Shm.Consumer.{recv_frame, take_frame}
use idk_overlay.Shm.Producer.{Seen, send_frame, publish, wait_slot, max_tries, is_free}
use idk_overlay.Socket.Scm.{Received, broken, frame}

-- How a frame left the slot: the consumer received or dropped it, or the slot was cleared over it.
pub data Exit : Type 0 where
  taken lost : FrameHeader → Exit

-- A producer that reads the slot as the page has it.
abbrev pub steady : Page → ℕ → Seen
steady page i = record { slot = page.slot; gone = false }

abbrev pub if_received : Received → List Exit
if_received (frame hdr fds) = taken hdr ∷ []
if_received _ = []

-- With a steady slot the wait ends with a free slot only if it is free.
wait_slot-free :
    (page : Page) (left i : ℕ) → wait_slot left i (steady page) ≡ none → is_free page.slot ≡ true
unfolding wait_slot
wait_slot-free page zero i h = ground arith
wait_slot-free page (suc left) i h = ground (arith, wait_slot-free page left (i + 1))

-- What a send, and a receive, can come to on a page.
pub data Sent (page : Page) (hdr : FrameHeader) : Rc × Page → Type 0 where
  put :
      (fds : List ℕ)
      → is_free page.slot ≡ true
      → 1 ≤ length fds
      → length fds ≤ 4
      → Sent page hdr (rc0, publish page hdr fds)
  kept : (e : Option Errno) → Sent page hdr (fail e, page)

pub data Taken (page : Page) : Received × Shm × Page → Type 0 where
  took :
      (fds : List ℕ) (tp : Shm)
      → is_frame page.slot ≡ true
      → Taken page (frame page.hdr fds, tp, record page { slot = slot_consumed })
  left_alone : (r : Received) (tp : Shm) → if_received r ≡ [] → Taken page (r, tp, page)
  cleared :
      (e : Option Errno) (tp : Shm)
      → is_frame page.slot ≡ true
      → (ltb page.nfd 1 || ltb 4 page.nfd) ≡ true
      → Taken page (broken e [], tp, record page { slot = slot_empty })

module _ (tp : Shm) (page : Page) (hdr : FrameHeader) (fds : List ℕ) (gone : Bool) where
  abbrev refused : Bool
  refused = not tp.mapped || not tp.ready || ltb (length fds) 1 || ltb 4 (length fds)

  abbrev unreachable : Bool
  unreachable = ltb 0 page.cons_pid && gone || is_cons_dead page.cons_state

  send_frame-refused :
      refused ≡ true → send_frame tp page hdr fds gone (steady page) ≡ (fail (some einval), page)
  unfolding send_frame
  send_frame-refused e = rw (e, send_frame) refl

  send_frame-unreachable :
      refused ≡ false
      → unreachable ≡ true
      → send_frame tp page hdr fds gone (steady page) ≡ (fail (some econnreset), page)
  unfolding send_frame
  send_frame-unreachable e u = rw (e, send_frame) (rw (u, send_frame) refl)

  send_frame-waited :
      refused ≡ false
      → unreachable ≡ false
      → (r : Option Errno) → wait_slot max_tries 0 (steady page) ≡ r
      → send_frame tp page hdr fds gone (steady page)
        ≡ elim r [ none ↦ (rc0, publish page hdr fds) | some e ↦ (fail (some e), page) ]
  unfolding send_frame
  send_frame-waited e u r w = rw (e, send_frame) (rw (u, send_frame) (rw (w, send_frame) refl))

  -- A send fails and changes nothing, or publishes into a free slot.
  pub send_frame-Sent : Sent page hdr (send_frame tp page hdr fds gone (steady page))
  send_frame-Sent = elim (Bool-cases refused) [
    | inl e ↦ subst (Sent page hdr) (sym (send_frame-refused e)) (kept (some einval))
    | inr e ↦ elim (Bool-cases unreachable) [
      | inl u ↦ subst (Sent page hdr) (sym (send_frame-unreachable e u)) (kept (some econnreset))
      | inr u ↦ elim (Option-cases (wait_slot max_tries 0 (steady page))) [
        | inl w ↦
            subst (Sent page hdr) (sym (send_frame-waited e u none w))
              (put fds (wait_slot-free page max_tries 0 w) (ground arith) (ground arith))
        | inr (x, w) ↦
            subst (Sent page hdr) (sym (send_frame-waited e u (some x) w)) (kept (some x))
      ]
    ]
  ]

module _ (tp : Shm) (page : Page) (gone : Bool) (ks : List Kernel) where
  abbrev closed_gate : Bool
  closed_gate = not tp.mapped || not tp.ready

  abbrev dead_gate : Bool
  dead_gate = is_prod_dead page.prod_state || ltb 0 page.prod_pid && gone

  abbrev bad_count : Bool
  bad_count = ltb page.nfd 1 || ltb 4 page.nfd

  take_frame-Taken :
      is_frame page.slot ≡ true → (r : Option (List ℕ) × Shm) → Taken page (take_frame page r)
  unfolding take_frame
  take_frame-Taken f (none, tp') = left_alone _ tp' refl
  take_frame-Taken f (some fds, tp') = took fds tp' f

  -- A receive takes the frame of a full slot, or takes none; then it leaves the page alone, or
  -- clears a slot whose count is out of range.
  pub recv_frame-Taken : Taken page (recv_frame tp page gone ks)
  unfolding recv_frame
  recv_frame-Taken = elim (Bool-cases closed_gate) [
    | inl e ↦ rw (e, recv_frame) (left_alone _ tp refl)
    | inr e ↦
        rw (e, recv_frame)
          (elim (Bool-cases dead_gate) [
            | inl d ↦ rw (d, recv_frame) (left_alone _ tp refl)
            | inr d ↦
                rw (d, recv_frame)
                  (elim (Bool-cases (is_frame page.slot)) [
                    | inr f ↦ rw (f, recv_frame) (left_alone _ tp refl)
                    | inl f ↦
                        rw (f, recv_frame)
                          (elim (Bool-cases bad_count) [
                            | inl b ↦ rw (b, recv_frame) (cleared _ tp f b)
                            | inr b ↦ rw (b, recv_frame) (take_frame-Taken f _)
                          ])
                  ])
          ])
  ]
