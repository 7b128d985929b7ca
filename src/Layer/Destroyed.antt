-- ===== src/Layer/Destroyed.antt =====
-- src/hook/vklayer/device.c, tables.c: what is left of a device that was destroyed.
use idk_overlay.Prelude.{
  ℕ, ◌≡◌, ◌≢◌, refl, Bool, true, false, Option, none, some, ◌==◌, if◌then◌else◌, arith,
}
use mathlib.Core.Option.{some-injective}
use idk_overlay.Render.Context.{Context}
use idk_overlay.Render.Draw.{Drawn, returned, faulted, blocked}
use idk_overlay.Layer.{
  Swapchain, Queue, Layer, find, clear, find_device, find_swapchain, owner_of,
  find_device_for_queue, remove_device, destroy_device, can_present, present_device,
}
use idk_overlay.Layer.Present.{
  Present, Presented, reached, vk_compositor_render, draw_target, draw_on, present_drawn,
  present_to, queue_present,
}
use idk_overlay.Layer.Tables.{find-clear}

-- The owner of a swapchain that was found, and the device that a present reached.
abbrev pub owner_found : Option Swapchain → Option ℕ
owner_found none = none
owner_found (some s) = some s.owner

abbrev pub device_reached : Presented → Option ℕ
device_reached (reached device result c) = some device
device_reached _ = none

swapchain-clears :
    (device swapchain : ℕ) (l : Layer)
    → owner_found (find_swapchain swapchain (destroy_device device l)) ≢ some device
unfolding destroy_device remove_device find_swapchain
swapchain-clears device swapchain l =
    go
      (find (λ (x : Swapchain). x.swapchain) swapchain
        (clear (λ (x : Swapchain). x.owner) device l.swapchains))
      refl
  where
    go :
        (o : Option Swapchain)
        → find
            (λ (x : Swapchain). x.swapchain)
            swapchain
            (clear (λ (x : Swapchain). x.owner) device l.swapchains)
          ≡ o
        → owner_found o ≢ some device
    go none e h = absurd (ground (arith, h))
    go (some s) e h =
        let f : (s.owner == device) ≡ false =
          find-clear (λ (x : Swapchain). x.swapchain) (λ (x : Swapchain). x.owner) swapchain device
            l.swapchains s e in
        absurd (ground (arith, f, some-injective s.owner device h))

queue-clears :
    (device queue : ℕ) (l : Layer)
    → find_device_for_queue queue (destroy_device device l) ≢ some device
unfolding destroy_device remove_device find_device_for_queue owner_of
queue-clears device queue l =
    go (find (λ (x : Queue). x.queue) queue (clear (λ (x : Queue). x.owner) device l.queues)) refl
  where
    go :
        (o : Option Queue)
        → find (λ (x : Queue). x.queue) queue (clear (λ (x : Queue). x.owner) device l.queues) ≡ o
        → owner_of o ≢ some device
    go none e h = absurd (ground (arith, h))
    go (some q) e h =
        let f : (q.owner == device) ≡ false =
          find-clear (λ (x : Queue). x.queue) (λ (x : Queue). x.owner) queue device l.queues q e in
        absurd (ground (arith, f, some-injective q.owner device h))

-- A present reaches no device but the owner of its queue.
queue_present-device :
    (p : Present) (queue result device : ℕ) (c : Context) (l : Layer)
    → device_reached (queue_present p queue result c l) ≡ some device
    → find_device_for_queue queue l ≡ some device
unfolding queue_present present_device present_to present_drawn
queue_present-device p queue result device c l = go (find_device_for_queue queue l)
  where
    c1 : Context
    c1 = vk_compositor_render c p.incoming

    drawn :
        (d : Drawn) (h : ℕ)
        → device_reached (present_drawn d h result) ≡ some device
        → some h ≡ some device
    drawn (returned c') h e = e
    drawn faulted h e = absurd (ground (arith, e))
    drawn blocked h e = absurd (ground (arith, e))

    known :
        (b : Bool) (h : ℕ)
        → device_reached (present_to (if b then some h else none) p result c1 l) ≡ some device
        → some h ≡ some device
    known true h e = drawn (draw_on p c1 (draw_target p c1 l)) h e
    known false h e = absurd (ground (arith, e))

    go :
        (o : Option ℕ)
        → device_reached (
            present_to
              (elim o [
                | none ↦ none
                | some h ↦ if can_present (find_device h l) then some h else none
              ])
              p
              result
              c1
              l)
          ≡ some device
        → o ≡ some device
    go none e = absurd (ground (arith, e))
    go (some h) e = known (can_present (find_device h l)) h e

-- After a device was destroyed no swapchain that is found has it as owner, no queue that is found is its
-- own, and no present, on whatever queue, calls its vkQueuePresentKHR.
pub destroy_device-clears :
    (p : Present) (device queue swapchain result : ℕ) (c : Context) (l : Layer)
    → (owner_found (find_swapchain swapchain (destroy_device device l)) ≢ some device)
      × (find_device_for_queue queue (destroy_device device l) ≢ some device)
      × (device_reached (queue_present p queue result c (destroy_device device l)) ≢ some device)
destroy_device-clears p device queue swapchain result c l = (
  swapchain-clears device swapchain l,
  queue-clears device queue l,
  λ e.
      queue-clears device queue l
        (queue_present-device p queue result device c (destroy_device device l) e),
)
