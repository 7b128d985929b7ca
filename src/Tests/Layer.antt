-- ===== src/Tests/Layer.antt =====
-- Runs of the Vulkan layer's tables.
use idk_overlay.Prelude.{ℕ, ◌≡◌, ◌≢◌, refl, [], ◌∷◌, true, none, some, arith}
use idk_overlay.Render.Ring.{ring_cooldown_active}
use idk_overlay.Render.Draw.{render_overlay, draw_locked}
use idk_overlay.Layer.{
  Device, Swapchain, Layer, no_entries, find, clear, remove, owner_of, find_device, find_swapchain,
  find_device_for_queue, remove_device, destroy_device, create_swapchain, get_device_queue,
  present_device, inject_extensions, add_extension, member,
}
use idk_overlay.Layer.Present.{
  Present, refused, reached, stuck, vk_compositor_render, draw_target, draw_on, present_drawn,
  present_to, queue_present,
}
use idk_overlay.Layer.Queues.{ask, queue_present-exhausted}
use idk_overlay.Layer.Destroyed.{owner_found, device_reached, destroy_device-clears}
use idk_overlay.Tests.Rendering.{vk, soon}

abbrev gpu : ℕ → Device
gpu h = record {
  device = h;
  destroy = true;
  create_swapchain = true;
  destroy_swapchain = true;
  queue_present = true;
  get_images = true;
  get_queue = true;
}

-- Two devices.
abbrev two : Layer
two = record no_entries { devices = some (gpu 7) ∷ some (gpu 8) ∷ [] }

abbrev window : ℕ → ℕ → Swapchain
window s d = record { swapchain = s; owner = d; width = 640; height = 480; format = 44 }

-- A swapchain and a queue of each.
abbrev busy : Layer
busy = record two {
  swapchains = some (window 20 7) ∷ some (window 21 8) ∷ [];
  queues = some (record { queue = 30; owner = 7 }) ∷ some (record { queue = 31; owner = 8 }) ∷ [];
}

-- A present on the second window, over which the overlay is drawn.
abbrev over : Present
over = record {
  incoming = none;
  visible = true;
  swapchain = some 21;
  index = 1;
  gpa = true;
  get_images = true;
  count = 3;
  memory = true;
  image = true;
  commands = true;
  vk = soon;
}

queue_present-exhausted_example :
    queue_present over 31 0 vk (get_device_queue 8 31 (ask 16 7 30 two))
    ≡ refused (vk_compositor_render vk none)
unfolding find find_device_for_queue owner_of
queue_present-exhausted_example =
    queue_present-exhausted over 16 7 30 8 31 0 vk two refl refl refl (omega arith)

destroy_device-clears_example :
    (owner_found (find_swapchain 20 (destroy_device 7 busy)) ≢ some 7)
    × (find_device_for_queue 30 (destroy_device 7 busy) ≢ some 7)
    × (device_reached (queue_present over 30 0 vk (destroy_device 7 busy)) ≢ some 7)
destroy_device-clears_example = destroy_device-clears over 7 30 20 0 vk busy

-- The present on the other device's queue still reaches it: 50 ms after the swapchain was created nothing
-- is drawn, and the lock stays held.
reached_run :
    queue_present over 31 0 vk (destroy_device 7 busy) ≡ reached 8 0 (record vk { locked = true })
unfolding queue_present vk_compositor_render present_device find_device_for_queue find_device
    owner_of destroy_device remove_device remove clear find present_to draw_target draw_on
    find_swapchain present_drawn render_overlay draw_locked ring_cooldown_active
reached_run = refl

-- The next present waits for that lock for ever.
stuck_run : queue_present over 31 0 (record vk { locked = true }) (destroy_device 7 busy) ≡ stuck
unfolding queue_present vk_compositor_render present_device find_device_for_queue find_device
    owner_of destroy_device remove_device remove clear find present_to draw_target draw_on
    find_swapchain present_drawn render_overlay
stuck_run = refl

-- The game's extensions, one of which it asked for itself, and the missing one.
inject_run : inject_extensions (1 ∷ 2 ∷ []) (5 ∷ 2 ∷ []) ≡ 5 ∷ 2 ∷ 1 ∷ []
unfolding inject_extensions add_extension member
inject_run = refl

-- A swapchain of an unknown device is refused.
swapchain_run : create_swapchain 9 0 (window 22 9) two ≡ (none, two)
unfolding create_swapchain find_device find
swapchain_run = refl
