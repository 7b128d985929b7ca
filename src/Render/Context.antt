-- ===== src/Render/Context.antt =====
-- src/core/render/vk/context.h: the state of the Vulkan back end. A handle is `none` where the source
-- has VK_NULL_HANDLE, a descriptor where it is negative. `trash`, `closed` and `copies` log, newest
-- first, the handles destroyed, the close(2) calls and the copies to the image; no C struct has them.
use idk_overlay.Prelude.{ℕ, List, Bool, Option}
use idk_overlay.Compositor.Cache.{Cache}
use idk_overlay.Compositor.Resize.{Timespec}
use idk_overlay.Render.Ring.{Ring}

-- `vk_overlay_t`, less the size of the image, which is in Staging
pub record Overlay : Type 0 where
  pub img : Option ℕ
  pub view : Option ℕ
  pub w : ℕ
  pub h : ℕ
  pub has_frame : Bool

-- `vk_staging_t`, with vk_shm_img_w and vk_shm_img_h. `staged` is what the mapped buffer holds.
pub record Staging : Type 0 where
  pub buf : Option ℕ
  pub mem : Option ℕ
  pub mapped : Option ℕ
  pub size : ℕ
  pub img : Option ℕ
  pub img_mem : Option ℕ
  pub view : Option ℕ
  pub img_w : ℕ
  pub img_h : ℕ
  pub shm_fd : Option ℕ
  pub is_delta : Bool
  pub baseline_valid : Bool
  pub staged : List ℕ

-- What identifies an imported dmabuf: the tuple that dmabuf_check_cache compares.
pub record Tuple : Type 0 where
  pub w : ℕ
  pub h : ℕ
  pub stride : ℕ
  pub fourcc : ℕ
  pub modifier : ℕ
  pub buf_id : ℕ

-- `vk_dmabuf_t`; `cached` holds vk_dmabuf_w to vk_dmabuf_modifier and vk_dmabuf_cache_id.
pub record Dmabuf : Type 0 where
  pub fd : Option ℕ
  pub cached : Tuple
  pub img : Option ℕ
  pub img_mem : Option ℕ
  pub view : Option ℕ
  pub pending_fd : Option ℕ
  pub pending : Tuple
  pub has_pending : Bool

-- The handles destroyed, by their kind.
pub record Trash : Type 0 where
  pub buffers : List ℕ
  pub memories : List ℕ
  pub images : List ℕ
  pub views : List ℕ
  pub pipelines : List ℕ
  pub passes : List ℕ

-- One vkCmdCopyBufferToImage: the region, what it copies, and whether the barrier before it lets the
-- rest of the image be discarded.
pub record Copy : Type 0 where
  pub x : ℕ
  pub y : ℕ
  pub w : ℕ
  pub h : ℕ
  pub bytes : List ℕ
  pub discards : Bool

-- `vk_context_t` and the two mapping caches of upload.c. `locked` says whether vk_render_lock is
-- held; `modules` are the shader modules not destroyed yet;
-- `created` is vk_last_swapchain_create_ts, `failed` vk_dmabuf_failed_this_frame, `props`
-- whether vk_fn_GetPhysMemProps is loaded.
pub record Context : Type 0 where
  pub drm_vendor : ℕ
  pub props : Bool
  pub overlay : Overlay
  pub staging : Staging
  pub dmabuf : Dmabuf
  pub ring : Ring
  pub pipeline : Option ℕ
  pub render_pass : Option ℕ
  pub rp_format : ℕ
  pub modules : List ℕ
  pub failed : Bool
  pub created : Timespec
  pub locked : Bool
  pub shm_cache : Cache
  pub rect_cache : Cache
  pub trash : Trash
  pub closed : List ℕ
  pub copies : List Copy
