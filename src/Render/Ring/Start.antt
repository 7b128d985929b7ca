-- ===== src/Render/Ring/Start.antt =====
-- The ring of src/core/render/vk/ring.c before and after a call.
use idk_overlay.Prelude.{
  ℕ, ◌+◌, ◌%◌, ◌<◌, ◌≡◌, refl, sym, subst, List, [], ◌∷◌, Bool, true, false, ◌&&◌, Option, is_some,
  none, some, arith, Bool-cases, inl, inr,
}
use idk_overlay.Render.Ring.{
  Frame, Slot, Log, Ring, Driver, sync_fallback, create_fences, reclaim, slot_at, submit_slot,
  submit_async, ring_submit,
}

-- The command buffers of some frames.
abbrev pub cmds : List Frame → List ℕ
cmds [] = []
cmds (f ∷ fs) = f.cmd ∷ cmds fs

-- The next slot is one of the two; once the fences were created both slots have one, and before that
-- no slot holds a frame.
pub record IsRing (r : Ring) : Type 0 where
  pub idx_lt : r.idx < 2
  pub fenced : r.init ≡ true → (is_some r.slot0.fence ≡ true) × (is_some r.slot1.fence ≡ true)
  pub blank : r.init ≡ false → (is_some r.slot0.frame ≡ false) × (is_some r.slot1.frame ≡ false)

-- The frames of the last two calls, `none` for a call that failed, and the frames
-- freed, newest first.
pub record Window : Type 0 where
  pub older : Option Frame
  pub newer : Option Frame
  pub freed : List Frame

-- The window that a ring stands for.
abbrev pub window : Ring → Window
window r = record {
  older = (slot_at r r.idx).frame;
  newer = (slot_at r ((r.idx + 1) % 2)).frame;
  freed = r.log.freed;
}

-- The driver creates both fences, and the waits succeed.
abbrev pub answers : Driver → Bool
answers d = is_some d.fence0 && is_some d.fence1 && d.wait

-- A slot with a fence is empty afterwards, and keeps a fence.
pub reclaim-clears :
    (s : Slot) (l : Log) (d : Driver)
    → is_some s.fence ≡ true
    → ((reclaim s l d).0.frame ≡ none) × (is_some (reclaim s l d).0.fence ≡ true)
unfolding reclaim
reclaim-clears s l d h = (ground (arith, h), ground (arith, h))

submit_async-idx :
    (r : Ring) (d : Driver) (f : Frame)
    → r.idx < 2
    → ((submit_async r d f).1.idx < 2) × ((submit_async r d f).1.init ≡ r.init)
unfolding submit_async submit_slot
submit_async-idx r d f i = (ground (arith, i), ground (arith, i))

submit_async-fenced :
    (r : Ring) (d : Driver) (f : Frame)
    → is_some r.slot0.fence ≡ true
    → is_some r.slot1.fence ≡ true
    → (is_some (submit_async r d f).1.slot0.fence ≡ true)
      × (is_some (submit_async r d f).1.slot1.fence ≡ true)
unfolding submit_async submit_slot
submit_async-fenced r d f a b = (
  ground (arith, a, reclaim-clears r.slot0 r.log d a),
  ground (arith, b, reclaim-clears r.slot1 r.log d b),
)

submit_async-IsRing :
    (r : Ring) (d : Driver) (f : Frame)
    → r.init ≡ true
    → r.idx < 2
    → is_some r.slot0.fence ≡ true
    → is_some r.slot1.fence ≡ true
    → IsRing (submit_async r d f).1
submit_async-IsRing r d f t i a b = record {
  idx_lt = (submit_async-idx r d f i).0;
  fenced = λ _. submit_async-fenced r d f a b;
  blank = λ e. absurd (ground (arith, e, t, submit_async-idx r d f i));
}

-- A call that fell back freed its frame and touched nothing else of the window.
abbrev pub Fallen : Ring → Frame → Ring → Type 0
Fallen r f r' =
    (r'.init ≡ false)
    × (r'.idx ≡ r.idx)
    × (r'.slot0.frame ≡ r.slot0.frame)
    × (r'.slot1.frame ≡ r.slot1.frame)
    × (r'.log.freed ≡ f ∷ r.log.freed)
    × (r'.log.leaked ≡ r.log.leaked)

-- A call submits in a ring with fences, which differs in nothing that the window or the log of
-- frames has, or it falls back in one without.
pub data Start (r : Ring) (d : Driver) (f : Frame) : Type 0 where
  async :
      (r1 : Ring)
      → r1.init ≡ true
      → r1.idx < 2
      → is_some r1.slot0.fence ≡ true
      → is_some r1.slot1.fence ≡ true
      → window r1 ≡ window r
      → r1.log ≡ r.log
      → r1.slot0.frame ≡ r.slot0.frame
      → r1.slot1.frame ≡ r.slot1.frame
      → ring_submit r d f ≡ submit_async r1 d f
      → Start r d f
  sync : answers d ≡ false → r.init ≡ false → Fallen r f (ring_submit r d f).1 → Start r d f

pub start : (r : Ring) (d : Driver) (f : Frame) → IsRing r → Start r d f
unfolding ring_submit create_fences sync_fallback
start r d f h = elim (Bool-cases r.init) [
  | inl t ↦ async r t h.idx_lt (h.fenced t).0 (h.fenced t).1 refl refl refl refl (ground (arith, t))
  | inr t ↦ go d.fence0 d.fence1 refl refl t
]
  where
    go : (o0 o1 : Option ℕ) → d.fence0 ≡ o0 → d.fence1 ≡ o1 → r.init ≡ false → Start r d f
    go none o1 e0 e1 t = sync (ground (arith, e0)) t (ground (arith, e0, t))
    go (some x) none e0 e1 t = sync (ground (arith, e0, e1)) t (ground (arith, e0, e1, t))
    go (some x) (some y) e0 e1 t =
        async
          (record r {
            slot0 = record r.slot0 { fence = some x };
            slot1 = record r.slot1 { fence = some y };
            init = true;
          })
          refl h.idx_lt refl refl (ground arith) refl refl refl (ground (arith, e0, e1, t))

pub ring_submit-IsRing :
    (r : Ring) (d : Driver) (f : Frame) → IsRing r → IsRing (ring_submit r d f).1
ring_submit-IsRing r d f h = elim (start r d f h) [
  | async r1 t i a b w l s0 s1 e ↦
      subst (λ x. IsRing x.1) (sym e) (submit_async-IsRing r1 d f t i a b)
  | sync n y (t, i, s0, s1, l, k) ↦ record {
    idx_lt = omega (arith, i, h.idx_lt);
    fenced = λ e. absurd (ground (arith, e, t));
    blank = λ _. (ground (arith, s0, h.blank y), ground (arith, s1, h.blank y));
  }
]
