-- ===== src/Render/Ring/Window.antt =====
-- The ring of src/core/render/vk/ring.c as a window on the last two frames that were submitted.
use idk_overlay.Prelude.{
  is_some, ℕ, ◌≤◌, ◌<◌, ◌≡◌, refl, ap, ◌∙◌, List, [], ◌∷◌, Bool, true, false, Option, none, some,
  arith, Bool-cases, inl, inr,
}
use idk_overlay.Prelude.Account.{count}
use idk_overlay.Render.Ring.Start.{
  IsRing, Window, window, answers, reclaim-clears, cmds, async, sync, start, ring_submit-IsRing,
}
use idk_overlay.Render.Ring.{
  Frame, Slot, Log, Ring, Driver, reclaim, submit_slot, submit_async, ring_submit, submit_all,
}

abbrev pub also : Option Frame → List Frame → List Frame
also none fs = fs
also (some f) fs = f ∷ fs

-- One submission: the frame of the call before the last is freed, and the new one where it failed.
abbrev pub push : Window → Bool → Frame → Window
push w true f = record { older = w.newer; newer = some f; freed = also w.older w.freed }
push w false f = record { older = w.newer; newer = none; freed = f ∷ also w.older w.freed }

abbrev pub push_all : Window → List (Driver × Frame) → Window
push_all w [] = w
push_all w ((d, f) ∷ fs) = push_all (push w d.submit f) fs

abbrev pub Answers : List (Driver × Frame) → Type 0
Answers [] = Unit
Answers ((d, f) ∷ fs) = (answers d ≡ true) × Answers fs

reclaim-frees :
    (s : Slot) (l : Log) (d : Driver)
    → is_some s.fence ≡ true
    → d.wait ≡ true
    → (reclaim s l d).1.freed ≡ also s.frame l.freed
unfolding reclaim
reclaim-frees s l d h w = ground (arith, h, w)

submit_async-window :
    (r : Ring) (d : Driver) (f : Frame)
    → r.idx < 2
    → is_some r.slot0.fence ≡ true
    → is_some r.slot1.fence ≡ true
    → d.wait ≡ true
    → window (submit_async r d f).1 ≡ push (window r) d.submit f
unfolding submit_async submit_slot
submit_async-window r d f i a b w = elim (Bool-cases d.submit) [
  | inl t ↦
      ground (arith, t, i, cleared r.slot0 a, cleared r.slot1 b, freed r.slot0 a, freed r.slot1 b)
  | inr t ↦
      ground (arith, t, i, cleared r.slot0 a, cleared r.slot1 b, freed r.slot0 a, freed r.slot1 b)
]
  where
    cleared :
        (s : Slot)
        → is_some s.fence ≡ true
        → ((reclaim s r.log d).0.frame ≡ none) × (is_some (reclaim s r.log d).0.fence ≡ true)
    cleared s q = reclaim-clears s r.log d q

    freed :
        (s : Slot) → is_some s.fence ≡ true → (reclaim s r.log d).1.freed ≡ also s.frame r.log.freed
    freed s q = reclaim-frees s r.log d q w

-- With a driver that answers, each call is one step of the specification.
ring_submit-window :
    (r : Ring) (d : Driver) (f : Frame)
    → IsRing r
    → answers d ≡ true
    → (window (ring_submit r d f).1 ≡ push (window r) d.submit f)
ring_submit-window r d f h q = elim (start r d f h) [
  | async r1 t i a b w l s0 s1 e ↦
      ap (λ x. window x.1) e
      ∙ submit_async-window r1 d f i a b (ground (arith, q))
      ∙ ap (λ x. push x d.submit f) w
  | sync n _ _ ↦ absurd (ground (arith, n, q))
]

-- While the driver creates the fences and the waits succeed, whatever the submissions return, the
-- ring is a window on the frames of the last two calls: over any list of calls, which frames are in
-- flight, in which order, and which were freed, in which order, is what the window says.
pub submit_all-window :
    (r : Ring) (fs : List (Driver × Frame))
    → IsRing r
    → Answers fs
    → window (submit_all r fs) ≡ push_all (window r) fs
unfolding submit_all
submit_all-window r [] h q = refl
submit_all-window r ((d, f) ∷ fs) h (q, qs) =
    submit_all-window (ring_submit r d f).1 fs (ring_submit-IsRing r d f h) qs
    ∙ ap (λ w. push_all w fs) (ring_submit-window r d f h q)

push-keeps :
    (n : ℕ) (w : Window) (ok : Bool) (f : Frame)
    → count n (cmds w.freed) ≤ count n (cmds (push w ok f).freed)
push-keeps n w ok f = ground arith

push_all-keeps :
    (n : ℕ) (w : Window) (fs : List (Driver × Frame))
    → count n (cmds w.freed) ≤ count n (cmds (push_all w fs).freed)
push_all-keeps n w [] = omega arith
push_all-keeps n w ((d, f) ∷ fs) =
    omega (arith, push-keeps n w d.submit f, push_all-keeps n (push w d.submit f) fs)

push-frees :
    (w : Window) (a b c : Bool) (f g h : Frame)
    → 1 ≤ count f.cmd (cmds (push (push (push w a f) b g) c h).freed)
push-frees w a b c f g h = ground arith

-- While the driver creates the fences and the waits succeed, the second call after a frame's own has
-- freed it at the latest, whatever the submissions returned, and later calls leave it freed.
submit_all-frees :
    (r : Ring) (d d' d'' : Driver) (f g h : Frame) (fs : List (Driver × Frame))
    → IsRing r
    → Answers ((d, f) ∷ (d', g) ∷ (d'', h) ∷ fs)
    → 1 ≤ count f.cmd (cmds (submit_all r ((d, f) ∷ (d', g) ∷ (d'', h) ∷ fs)).log.freed)
submit_all-frees r d d' d'' f g h fs i q = omega (
  arith,
  ap (λ w. count f.cmd (cmds w.freed)) (submit_all-window r ((d, f) ∷ (d', g) ∷ (d'', h) ∷ fs) i q),
  push-frees (window r) d.submit d'.submit d''.submit f g h,
  push_all-keeps f.cmd (push (push (push (window r) d.submit f) d'.submit g) d''.submit h) fs,
)
