-- ===== src/Render/Draw.antt =====
-- src/core/render/vk/render.c, pipeline.c, renderpass.c, shaders.c and context.c: drawing the overlay
-- on a swapchain image, under vk_render_lock, and the shutdown.
pub mod Keeps
pub mod Lock
use idk_overlay.Prelude.{
  ℕ, List, [], ◌∷◌, ◌++◌, Bool, true, false, not, ◌&&◌, ◌||◌, Option, none, some, is_some, ◌==◌,
  if◌then◌else◌,
}
use idk_overlay.Compositor.Resize.{Timespec}
use idk_overlay.Render.Ring.{Driver, ring_cooldown_active, ring_submit, ring_shutdown}
use idk_overlay.Render.Context.{Context}
use idk_overlay.Render.Staging.{Gpu, toss}
use idk_overlay.Render.Upload.{File, Upload, done, fault}
use idk_overlay.Render.Import.{Icd, dmabuf_destroy}
use idk_overlay.Render.Receive.{overlay_upload}

-- What Vulkan answers while a frame is drawn: the render pass, the two shader modules, the pipeline,
-- the command buffer and whether it begins, the view of the swapchain image and the framebuffer.
pub record Vk : Type 0 where
  pub now : Timespec
  pub pass : Option ℕ
  pub vert : Option ℕ
  pub frag : Option ℕ
  pub pipe : Option ℕ
  pub cmd : Option ℕ
  pub begun : Bool
  pub view : Option ℕ
  pub fb : Option ℕ
  pub gpu : Gpu
  pub icd : Icd
  pub file : File
  pub driver : Driver

-- VK_FORMAT_B8G8R8A8_UNORM
abbrev b8g8r8a8 : ℕ
b8g8r8a8 = 44

-- vk_create_render_pass
unfoldable pub vk_create_render_pass : Context → Vk → ℕ → Bool × Context
vk_create_render_pass c v format =
    if is_some c.render_pass && (c.rp_format == format)
    then (true, c)
    else (let c1 = record c {
      render_pass = none;
      trash = record c.trash { passes = toss c.render_pass c.trash.passes };
    } in
        elim v.pass [
          | none ↦ (false, c1)
          | some p ↦ (
            true,
            record c1 {
              render_pass = some p;
              rp_format = format;
              pipeline = none;
              trash = record c1.trash { pipelines = toss c1.pipeline c1.trash.pipelines };
            },
          )
        ])

-- vk_create_shader_modules
unfoldable pub vk_create_shader_modules : Context → Vk → Option (ℕ × ℕ) × Context
vk_create_shader_modules c v = elim v.vert [
  | none ↦ (none, c)
  | some m ↦ elim v.frag [
    | none ↦ (none, record c { modules = m ∷ c.modules })
    | some f ↦ (some (m, f), record c { modules = f ∷ m ∷ c.modules })
  ]
]

-- vk_create_pipeline from vkCreateGraphicsPipelines on; both modules stand first among the live ones.
unfoldable pub build_pipeline : Option (ℕ × ℕ) × Context → List ℕ → Vk → Bool × Context
build_pipeline (none, c) before v = (false, c)
build_pipeline (some mods, c) before v = elim v.pipe [
  | none ↦ (false, c)
  | some p ↦ (true, record c { pipeline = some p; modules = before })
]

-- vk_create_pipeline
unfoldable pub vk_create_pipeline : Context → Vk → ℕ → Bool × Context
unfolding vk_create_shader_modules build_pipeline
vk_create_pipeline c v format =
    if is_some c.pipeline && (c.rp_format == format)
    then (true, c)
    else (let (ok, c1) =
          vk_create_render_pass
            (record c {
              pipeline = none;
              trash = record c.trash { pipelines = toss c.pipeline c.trash.pipelines };
            })
            v format in
        if ok then build_pipeline (vk_create_shader_modules c1 v) c1.modules v else (false, c1))

-- overlay_ensure_pipeline; VK_FORMAT_UNDEFINED is 0.
unfoldable pub overlay_ensure_pipeline : Context → Vk → ℕ → Bool × Context
overlay_ensure_pipeline c v format =
    let f = if format == 0 then b8g8r8a8 else format in
    if not (is_some c.pipeline) || not (c.rp_format == f)
    then vk_create_pipeline c v f
    else (true, c)

-- ring_begin_cmd: the command buffer, freed again where it cannot begin.
abbrev pub ring_begin_cmd : Vk → Option ℕ
ring_begin_cmd v = if v.begun then v.cmd else none

-- renderpass_make_framebuffer: the framebuffer and the view, destroyed again without a framebuffer.
unfoldable pub make_framebuffer : Context → Vk → Option (ℕ × ℕ) × Context
make_framebuffer c v = elim v.view [
  | none ↦ (none, c)
  | some w ↦ elim v.fb [
    | none ↦ (none, record c { trash = record c.trash { views = w ∷ c.trash.views } })
    | some f ↦ (some (f, w), c)
  ]
]

-- How a call of render_overlay ends: it returns, a memcpy leaves its mapping, or it waits for ever for
-- a mutex that its own thread holds.
pub data Drawn : Type 0 where
  returned : Context → Drawn
  faulted : Drawn
  blocked : Drawn

-- render_overlay after renderpass_make_framebuffer: the one path that unlocks.
unfoldable pub submit_made : Option (ℕ × ℕ) × Context → Vk → ℕ → Drawn
submit_made (none, c) v cmd = returned c
submit_made (some (fb, view), c) v cmd = returned (record c {
  ring = (ring_submit c.ring v.driver (record { cmd = cmd; fb = fb; view = view })).1;
  locked = false;
})

-- render_overlay after overlay_upload
unfoldable pub after_upload : Upload → Vk → ℕ → Drawn
unfolding submit_made make_framebuffer
after_upload fault v cmd = faulted
after_upload (done false c) v cmd = returned c
after_upload (done true c) v cmd =
    if is_some c.overlay.view then submit_made (make_framebuffer c v) v cmd else returned c

-- render_overlay after ring_begin_cmd
unfoldable pub draw_begun : Option ℕ → Context → Vk → Drawn
unfolding after_upload
draw_begun none c v = returned c
draw_begun (some cmd) c v = after_upload (overlay_upload c v.gpu v.icd v.file) v cmd

-- render_overlay once it holds the lock
unfoldable pub draw_locked : Context → Vk → ℕ → Drawn
unfolding draw_begun
draw_locked c v format =
    if ring_cooldown_active c.created v.now
    then returned c
    else (let (ok, c1) = overlay_ensure_pipeline c v format in
        if ok then draw_begun (ring_begin_cmd v) c1 v else returned c1)

-- idk_vk_compositor_render_overlay; `image` says whether the swapchain image is not null.
unfoldable pub render_overlay : Context → Vk → Bool → ℕ → Drawn
unfolding draw_locked
render_overlay c v image format =
    if not c.overlay.has_frame || not image
    then returned c
    else if c.locked
    then blocked
    else draw_locked (record c { locked = true }) v format

-- idk_vk_compositor_notify_swapchain_created
abbrev pub swapchain_created : Context → Timespec → Context
swapchain_created c now = record c { created = now }

-- vk_upload_destroy
unfoldable pub vk_upload_destroy : Context → Context
vk_upload_destroy c = record c {
  staging = record c.staging {
    view = none;
    img = none;
    img_mem = none;
    buf = none;
    mem = none;
    mapped = none;
    size = 0;
    shm_fd = none;
  };
  trash = record c.trash {
    views = toss c.staging.view c.trash.views;
    images = toss c.staging.img c.trash.images;
    memories = toss c.staging.mem (toss c.staging.img_mem c.trash.memories);
    buffers = toss c.staging.buf c.trash.buffers;
  };
  closed = toss c.staging.shm_fd c.closed;
}

-- idk_vk_compositor_shutdown, less descset_destroy and idk_compositor_shutdown; `has_dev` says whether
-- there is a device.
unfoldable pub vk_shutdown : Context → Bool → Context
unfolding vk_upload_destroy
vk_shutdown c has_dev =
    let c1 = record c { ring = ring_shutdown c.ring has_dev } in
    let c2 =
      if has_dev
      then dmabuf_destroy (
          vk_upload_destroy (record c1 {
            render_pass = none;
            rp_format = 0;
            pipeline = none;
            trash = record c1.trash {
              passes = toss c1.render_pass c1.trash.passes;
              pipelines = toss c1.pipeline c1.trash.pipelines;
            };
          }))
      else c1 in
    record c2 {
      overlay = record { img = none; view = none; w = 0; h = 0; has_frame = false };
      staging = record c2.staging {
        baseline_valid = false;
        is_delta = false;
        img_w = 0;
        img_h = 0;
      };
      dmabuf = record c2.dmabuf { cached = record c2.dmabuf.cached { w = 0; h = 0; buf_id = 0 } };
    }
