-- ===== src/Render/Ring/Account.antt =====
-- An account of the frames handed to src/core/render/vk/ring.c.
use idk_overlay.Prelude.{
  is_some, ℕ, ◌+◌, ◌≡◌, ap, ◌∙◌, List, [], ◌∷◌, true, Option, none, some, arith, Bool-cases, inl,
  inr,
}
use idk_overlay.Prelude.Account.{count, held}
use idk_overlay.Render.Ring.{
  Frame, Slot, Log, Ring, Driver, reclaim, submit_slot, submit_async, ring_submit, submit_all,
  shutdown_slot, ring_shutdown,
}
use idk_overlay.Render.Ring.Start.{
  cmds, IsRing, reclaim-clears, async, sync, start, ring_submit-IsRing,
}

-- The command buffer of a slot.
abbrev pub in_slot : ℕ → Option Frame → ℕ
in_slot n none = 0
in_slot n (some f) = held n (some f.cmd)

-- How often the log has command buffer `n`, freed or forgotten.
abbrev pub gone : ℕ → Log → ℕ
gone n l = count n (cmds l.freed) + count n (cmds l.leaked)

abbrev pub frames_account : ℕ → Ring → ℕ
frames_account n r = gone n r.log + in_slot n r.slot0.frame + in_slot n r.slot1.frame

abbrev pub handed : List (Driver × Frame) → List Frame
handed [] = []
handed ((d, f) ∷ fs) = f ∷ handed fs

reclaim-gone :
    (n : ℕ) (s : Slot) (l : Log) (d : Driver)
    → is_some s.fence ≡ true
    → gone n (reclaim s l d).1 ≡ gone n l + in_slot n s.frame
unfolding reclaim
reclaim-gone n s l d h = ground (arith, h)

submit_async-account :
    (n : ℕ) (r : Ring) (d : Driver) (f : Frame)
    → is_some r.slot0.fence ≡ true
    → is_some r.slot1.fence ≡ true
    → frames_account n (submit_async r d f).1 ≡ frames_account n r + held n (some f.cmd)
unfolding submit_async submit_slot
submit_async-account n r d f a b = elim (Bool-cases d.submit) [
  | inl t ↦ ground (
    arith,
    t,
    reclaim-clears r.slot0 r.log d a,
    reclaim-clears r.slot1 r.log d b,
    reclaim-gone n r.slot0 r.log d a,
    reclaim-gone n r.slot1 r.log d b,
  )
  | inr t ↦ ground (
    arith,
    t,
    reclaim-clears r.slot0 r.log d a,
    reclaim-clears r.slot1 r.log d b,
    reclaim-gone n r.slot0 r.log d a,
    reclaim-gone n r.slot1 r.log d b,
  )
]

ring_submit-account :
    (n : ℕ) (r : Ring) (d : Driver) (f : Frame)
    → IsRing r
    → frames_account n (ring_submit r d f).1 ≡ frames_account n r + held n (some f.cmd)
ring_submit-account n r d f h = elim (start r d f h) [
  | async r1 t i a b w l s0 s1 e ↦
      ap (λ x. frames_account n x.1) e
      ∙ submit_async-account n r1 d f a b
      ∙ ground (arith, ap (gone n) l, ap (in_slot n) s0, ap (in_slot n) s1)
  | sync q y (t, i, s0, s1, l, k) ↦ omega (
    arith,
    ap (λ x. count n (cmds x)) l,
    ap (λ x. count n (cmds x)) k,
    ap (in_slot n) s0,
    ap (in_slot n) s1,
  )
]

submit_all-account :
    (n : ℕ) (r : Ring) (fs : List (Driver × Frame))
    → IsRing r
    → frames_account n (submit_all r fs) ≡ frames_account n r + count n (cmds (handed fs))
unfolding submit_all
submit_all-account n r [] h = omega arith
submit_all-account n r ((d, f) ∷ fs) h = omega (
  arith,
  submit_all-account n (ring_submit r d f).1 fs (ring_submit-IsRing r d f h),
  ring_submit-account n r d f h,
)

submit_all-IsRing : (r : Ring) (fs : List (Driver × Frame)) → IsRing r → IsRing (submit_all r fs)
unfolding submit_all
submit_all-IsRing r [] h = h
submit_all-IsRing r ((d, f) ∷ fs) h =
    submit_all-IsRing (ring_submit r d f).1 fs (ring_submit-IsRing r d f h)

shutdown_slot-gone :
    (n : ℕ) (s : Slot) (l : Log)
    → is_some s.fence ≡ true
    → (gone n (shutdown_slot s l).1 ≡ gone n l + in_slot n s.frame)
      × ((shutdown_slot s l).0 ≡ record { fence = none; frame = none })
unfolding shutdown_slot
shutdown_slot-gone n s l h = (ground (arith, h), ground (arith, h))

ring_shutdown-account :
    (n : ℕ) (r : Ring) → IsRing r → gone n (ring_shutdown r true).log ≡ frames_account n r
unfolding ring_shutdown
ring_shutdown-account n r h = elim (Bool-cases r.init) [
  | inl t ↦ ground (
    arith,
    t,
    shutdown_slot-gone n r.slot0 r.log (h.fenced t).0,
    shutdown_slot-gone n r.slot1 (shutdown_slot r.slot0 r.log).1 (h.fenced t).1,
  )
  | inr t ↦ ground (arith, t, h.blank t)
]

-- Whatever the driver answers, after any calls on a ring and a shutdown, each command buffer that
-- the ring held or was handed has been freed or, where a wait failed, forgotten, as often as it was
-- there: none is freed twice, and none stays behind in a slot.
pub submit_all-ring_shutdown :
    (n : ℕ) (r : Ring) (fs : List (Driver × Frame))
    → IsRing r
    → gone n (ring_shutdown (submit_all r fs) true).log
      ≡ frames_account n r + count n (cmds (handed fs))
submit_all-ring_shutdown n r fs h =
    ring_shutdown-account n (submit_all r fs) (submit_all-IsRing r fs h)
    ∙ submit_all-account n r fs h
