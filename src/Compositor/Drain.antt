-- ===== src/Compositor/Drain.antt =====
-- The loop of drain_hidden in src/core/compositor/frame.c, over any transport.
use idk_overlay.Prelude.{ℕ, zero, suc, ◌≤◌, ◌<◌, ◌≡◌, refl, Bool, true, false, Option, some, arith}
use idk_overlay.Prelude.Io.{Rc, fail, rc0, rc1}
use idk_overlay.Transport.{Transport}
use idk_overlay.Compositor.{Compositor, discarded, drain_loop, disconnect_client}

module _ (T : Transport) where
  open T use {State, drop, send_ack, pending, drop_pending, ack_pending}

  -- Dropping while hidden: the transport's frames go, one ACK "discarded" each.
  pub data Drained : ℕ → State → Bool → State → Type 0 where
    dry : {t : State} → (drop t).0 ≡ rc0 → Drained 0 t false (drop t).1
    breaks : {t : State} (e : Option _) → (drop t).0 ≡ fail e → Drained 0 t true (drop t).1
    drops :
        {t t' : State} {k : ℕ} {cut : Bool}
        → (drop t).0 ≡ rc1
        → Drained k (send_ack (drop t).1 discarded) cut t'
        → Drained (suc k) t cut t'

  -- What the end of a drain makes of the compositor.
  abbrev pub drained : Bool → Compositor → State → Compositor × State
  drained false c t = (c, t)
  drained true c t = disconnect_client T c t

  -- With more fuel than the frames that the transport can still hand over, the loop for a hidden
  -- overlay returns: it has dropped `k` frames, no more than were pending, with one ACK "discarded"
  -- after each, and stopped at an empty queue, the compositor unchanged, or at an error, with the
  -- client disconnected.
  pub drain_loop-returns :
      (fuel : ℕ) (c : Compositor) (t : State)
      → pending t < fuel
      → (k : ℕ) × (cut : Bool) × (t' : State) × Drained k t cut t'
        × (k ≤ pending t)
        × (drain_loop T fuel c t ≡ some (drained cut c t'))
  unfolding drain_loop
  drain_loop-returns zero c t h = absurd (omega arith)
  drain_loop-returns (suc fuel) c t h = go (drop t).0 refl (λ e.
      drain_loop-returns fuel c (send_ack (drop t).1 discarded)
        (omega (arith, drop_pending t e, ack_pending (drop t).1 discarded, h)))
    where
      go :
          (r : Rc)
          → (drop t).0 ≡ r
          → ((drop t).0 ≡ rc1
              → (k : ℕ) × (cut : Bool) × (t' : State) × Drained k
                  (send_ack (drop t).1 discarded)
                  cut
                  t'
                × (k ≤ pending (send_ack (drop t).1 discarded))
                × (drain_loop T fuel c (send_ack (drop t).1 discarded) ≡ some (drained cut c t')))
          → (k : ℕ) × (cut : Bool) × (t' : State) × Drained k t cut t'
            × (k ≤ pending t)
            × (drain_loop T (suc fuel) c t ≡ some (drained cut c t'))
      go (fail x) e ih = (0, true, (drop t).1, breaks x e, omega arith, rw (e, drain_loop) refl)
      go rc0 e ih = (0, false, (drop t).1, dry e, omega arith, rw (e, drain_loop) refl)
      go rc1 e ih =
          let (k, cut, t', d, b, q) = ih e in
          (
            suc k,
            cut,
            t',
            drops e d,
            omega (arith, drop_pending t e, ack_pending (drop t).1 discarded, b),
            rw (e, drain_loop) q,
          )
