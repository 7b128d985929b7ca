-- ===== src/Render/Ring.antt =====
-- src/core/render/vk/ring.c: the two slots of frames that the GPU still draws, each with a fence. A
-- handle is `none` where the source has VK_NULL_HANDLE. What the Vulkan driver answers is an argument.
pub mod Start
pub mod Window
pub mod Account
use idk_overlay.Prelude.{
  ℕ, ◌+◌, ◌-◌, ◌*◌, ◌/◌, ◌%◌, ◌≤◌, ◌≡◌, List, [], ◌∷◌, Bool, true, false, Option, none, some, ltb,
  ◌==◌, ◌&&◌, if◌then◌else◌,
}
use idk_overlay.Compositor.Resize.{Timespec, gain, loss}

-- VK_SWAPCHAIN_COOLDOWN_MS
abbrev pub cooldown_ms : ℕ
cooldown_ms = 100

-- ring_cooldown_active; `created` is vk_last_swapchain_create_ts.
unfoldable pub ring_cooldown_active : Timespec → Timespec → Bool
ring_cooldown_active created now =
    if created.sec == 0 then false else ltb (gain created now) (cooldown_ms + loss created now)

-- What one frame leaves to be freed once the GPU is done with it.
pub record Frame : Type 0 where
  pub cmd : ℕ
  pub fb : ℕ
  pub view : ℕ

-- `vk_async_slot_t`; the source sets and clears `cmd`, `fb` and `view` together.
pub record Slot : Type 0 where
  pub fence : Option ℕ
  pub frame : Option Frame

-- What was destroyed, newest first, which no C struct has: frames whose three handles were freed,
-- frames whose handles were forgotten, and fences.
pub record Log : Type 0 where
  pub freed : List Frame
  pub leaked : List Frame
  pub fences : List ℕ

-- `vk_ring_t`: both slots, `vk_async_ring_idx` and `vk_async_ring_init`.
pub record Ring : Type 0 where
  pub slot0 : Slot
  pub slot1 : Slot
  pub idx : ℕ
  pub init : Bool
  pub log : Log

-- What the driver answers during one call: each vkCreateFence of the first call, the fence of the
-- fallback, whether vkWaitForFences, vkResetFences and vkQueueSubmit succeed, and the fence that
-- replaces one that could not be reset.
pub record Driver : Type 0 where
  pub fence0 : Option ℕ
  pub fence1 : Option ℕ
  pub sync_fence : Option ℕ
  pub wait : Bool
  pub reset : Bool
  pub again : Option ℕ
  pub submit : Bool

abbrev log_free : Frame → Log → Log
log_free f l = record l { freed = f ∷ l.freed }

abbrev log_fence : Option ℕ → Log → Log
log_fence none l = l
log_fence (some f) l = record l { fences = f ∷ l.fences }

-- The fallback of the first call: a submission of its own, waited for, and the frame freed.
unfoldable pub sync_fallback : Log → Driver → Frame → Log
sync_fallback l d f = log_free f (log_fence d.sync_fence l)

-- The creation of both fences. Where the second fails, the first is destroyed.
unfoldable pub create_fences : Ring → Driver → Bool × Ring
create_fences r d = elim d.fence0 [
  | none ↦ (false, r)
  | some f0 ↦ elim d.fence1 [
    | none ↦ (
      false,
      record r { slot0 = record r.slot0 { fence = none }; log = log_fence (some f0) r.log },
    )
    | some f1 ↦ (
      true,
      record r {
        slot0 = record r.slot0 { fence = some f0 };
        slot1 = record r.slot1 { fence = some f1 };
        init = true;
      },
    )
  ]
]

-- What a slot holds is waited for and freed, or forgotten where the wait fails. A failed creation
-- leaves the handle of the destroyed fence in the slot.
unfoldable pub reclaim : Slot → Log → Driver → Slot × Log
reclaim s l d = elim s.fence [
  | none ↦ (s, l)
  | some x ↦ elim s.frame [
    | none ↦ (s, l)
    | some g ↦
        if d.wait
        then (if d.reset then (record { fence = some x; frame = none }, log_free g l) else (
          record { fence = elim d.again [ none ↦ some x | some y ↦ some y ]; frame = none },
          log_fence (some x) (log_free g l),
        ))
        else (record { fence = some x; frame = none }, record l { leaked = g ∷ l.leaked })
  ]
]

-- The slot that `vk_async_ring_idx` names, and a change of it.
abbrev pub slot_at : Ring → ℕ → Slot
slot_at r i = if i == 0 then r.slot0 else r.slot1

abbrev pub set_slot : Ring → ℕ → Slot → Ring
set_slot r i s = if i == 0 then record r { slot0 = s } else record r { slot1 = s }

-- vkQueueSubmit on the slot's fence, and what follows.
unfoldable pub submit_slot : Ring → ℕ → Driver → Frame → Bool × Ring
submit_slot r i d f =
    if d.submit
    then (true, set_slot r i (record { fence = (slot_at r i).fence; frame = some f }))
    else (false, record r { log = log_free f r.log })

-- ring_submit from the choice of the slot on
unfoldable pub submit_async : Ring → Driver → Frame → Bool × Ring
unfolding reclaim submit_slot
submit_async r d f =
    let (s, l) = reclaim (slot_at r r.idx) r.log d in
    submit_slot (record (set_slot r r.idx s) { idx = (r.idx + 1) % 2; log = l }) r.idx d f

-- ring_submit; the result says whether it returns 0.
unfoldable pub ring_submit : Ring → Driver → Frame → Bool × Ring
unfolding create_fences submit_async sync_fallback
ring_submit r d f =
    if r.init
    then submit_async r d f
    else let (ok, r1) = create_fences r d in
      if ok then submit_async r1 d f else (false, record r1 { log = sync_fallback r1.log d f })

-- The body of the loop of ring_shutdown
unfoldable pub shutdown_slot : Slot → Log → Slot × Log
shutdown_slot s l = elim s.fence [
  | none ↦ (s, l)
  | some x ↦ elim s.frame [
    | none ↦ (record { fence = none; frame = none }, log_fence (some x) l)
    | some g ↦ (record { fence = none; frame = none }, log_fence (some x) (log_free g l))
  ]
]

-- ring_shutdown; `has_dev` says whether there is a device.
unfoldable pub ring_shutdown : Ring → Bool → Ring
unfolding shutdown_slot
ring_shutdown r has_dev =
    if r.init && has_dev
    then (let (s0, l0) = shutdown_slot r.slot0 r.log in
        let (s1, l1) = shutdown_slot r.slot1 l0 in
        record { slot0 = s0; slot1 = s1; idx = 0; init = false; log = l1 })
    else r

-- Successive calls, each with the driver's answers and the frame.
unfoldable pub submit_all : Ring → List (Driver × Frame) → Ring
submit_all r [] = r
submit_all r ((d, f) ∷ fs) = submit_all (ring_submit r d f).1 fs

-- vk_context_t starts zeroed.
abbrev pub empty_ring : Ring
empty_ring = record {
  slot0 = record { fence = none; frame = none };
  slot1 = record { fence = none; frame = none };
  idx = 0;
  init = false;
  log = record { freed = []; leaked = []; fences = [] };
}
