-- ===== src/Layer/Present.antt =====
-- src/hook/vklayer/present.c: idk_QueuePresentKHR, which takes a frame from the webview, draws it on the
-- game's image, and calls the next layer. The cursor that it dispatches first touches neither the tables nor
-- the renderer.
use idk_overlay.Prelude.{ℕ, Bool, not, ◌&&◌, Option, none, some, ltb, if◌then◌else◌}
use idk_overlay.Wire.Delta.{Delta}
use idk_overlay.Compositor.{Compositor}
use idk_overlay.Render.Context.{Context}
use idk_overlay.Render.Receive.{vk_render}
use idk_overlay.Render.Draw.{Vk, Drawn, returned, faulted, blocked, render_overlay}
use idk_overlay.Layer.{Swapchain, Layer, find_swapchain, present_device}

-- What one present brings and meets: the frame that the compositor received, if any, with what the file of
-- a rectangle says; g_overlay_visible; the first swapchain of the present, if there is one, and the index
-- of its image; whether the device has vkGetDeviceProcAddr, and whether that answers
-- vkGetSwapchainImagesKHR; the number of images, whether malloc(3) succeeds, whether the image is not
-- null; whether the five command functions are known; and what Vulkan answers while the overlay is drawn.
pub record Present : Type 0 where
  pub incoming : Option (Compositor × Option (ℕ × Delta))
  pub visible : Bool
  pub swapchain : Option ℕ
  pub index : ℕ
  pub gpa : Bool
  pub get_images : Bool
  pub count : ℕ
  pub memory : Bool
  pub image : Bool
  pub commands : Bool
  pub vk : Vk

-- How a present ends: VK_ERROR_INITIALIZATION_FAILED; the call of a device's vkQueuePresentKHR with its
-- result; a wait for ever for vk_render_lock; or a memcpy through a null pointer.
pub data Presented : Type 0 where
  refused : Context → Presented
  reached : (device result : ℕ) → Context → Presented
  stuck crashed : Presented

-- idk_vk_compositor_render, as far as the renderer's state goes; `none`: the webview is dead, or no frame
-- came.
unfoldable pub vk_compositor_render : Context → Option (Compositor × Option (ℕ × Delta)) → Context
unfolding vk_render
vk_compositor_render c none = c
vk_compositor_render c (some (comp, head)) = (vk_render c comp head).1

-- The swapchain to draw on
unfoldable pub draw_target : Present → Context → Layer → Option Swapchain
unfolding find_swapchain
draw_target p c l =
    if not (p.visible && c.overlay.has_frame && p.gpa) then none else (elim p.swapchain [
      | none ↦ none
      | some sc ↦ elim (find_swapchain sc l) [
        | none ↦ none
        | some s ↦
            if ltb 0 s.width
              && ltb 0 s.height
              && p.get_images
              && ltb p.index p.count
              && p.memory
              && p.commands
            then some s
            else none
      ]
    ])

unfoldable pub draw_on : Present → Context → Option Swapchain → Drawn
unfolding render_overlay
draw_on p c none = returned c
draw_on p c (some s) = render_overlay c p.vk p.image s.format

-- The next layer's call, once the drawing returned
unfoldable pub present_drawn : Drawn → ℕ → ℕ → Presented
present_drawn (returned c) device result = reached device result c
present_drawn faulted device result = crashed
present_drawn blocked device result = stuck

unfoldable pub present_to : Option ℕ → Present → ℕ → Context → Layer → Presented
unfolding draw_target draw_on present_drawn
present_to none p result c l = refused c
present_to (some device) p result c l =
    present_drawn (draw_on p c (draw_target p c l)) device result

-- idk_QueuePresentKHR; `result` is what the next layer answers.
unfoldable pub queue_present : Present → ℕ → ℕ → Context → Layer → Presented
unfolding vk_compositor_render present_device present_to
queue_present p queue result c l =
    present_to (present_device queue l) p result (vk_compositor_render c p.incoming) l
