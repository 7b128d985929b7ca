-- ===== src/Render/Draw/Keeps.antt =====
-- What idk_vk_compositor_render_overlay leaves alone before it submits.
use idk_overlay.Prelude.{
  ℕ, ◌≡◌, refl, ◌∙◌, Bool, true, false, not, Option, none, some, is_some, Option-cases, ◌==◌,
  if◌then◌else◌, take, drop, ◌-◌, ◌*◌, ◌%◌, ◌^◌, arith, Bool-cases, inl, inr,
}
use idk_overlay.Wire.Delta.{Delta, delta_size}
use idk_overlay.Compositor.Cache.{cache_map}
use idk_overlay.Render.Context.{Context, Tuple}
use idk_overlay.Render.Staging.{
  Gpu, staging_ensure, drop_staging, create_staging, image_ensure, drop_image, create_image,
}
use idk_overlay.Render.Upload.{
  File, Upload, done, fault, vk_upload_shm, stage_shm, finish_shm, fill, record_copy, show_staging,
  vk_upload_shm_rect, stage_rect, decode_delta,
}
use idk_overlay.Render.Import.{
  Icd, vk_upload_dmabuf, import_miss, bind_import, bind_tail, import_tail, finish_import,
  dmabuf_check_cache, drop_import, show_dmabuf, dmabuf_bind_memory, choose_memory, dmabuf_import,
  dmabuf_create_image, import_image, import_checked,
}
use idk_overlay.Render.Receive.{overlay_upload, upload_pending, release_pending, settle_shm}
use idk_overlay.Render.Draw.{
  Vk, vk_create_render_pass, vk_create_pipeline, build_pipeline, vk_create_shader_modules,
  overlay_ensure_pipeline, make_framebuffer,
}

-- What the steps before the submission leave alone.
abbrev pub Keeps : Context → Context → Type 0
Keeps c c' =
    (c'.ring ≡ c.ring) × (c'.locked ≡ c.locked) × (c'.overlay.has_frame ≡ c.overlay.has_frame)

-- What an import leaves alone besides.
abbrev pub Steady : Context → Context → Type 0
Steady c c' =
    Keeps c c'
    × (c'.dmabuf.has_pending ≡ c.dmabuf.has_pending)
    × (c'.staging.shm_fd ≡ c.staging.shm_fd)

-- What an upload from shared memory leaves alone besides.
abbrev pub Same : Context → Context → Type 0
Same c c' =
    Keeps c c'
    × (c'.closed ≡ c.closed)
    × (c'.dmabuf ≡ c.dmabuf)
    × (c'.staging.shm_fd ≡ c.staging.shm_fd)

abbrev pub SameUpload : Context → Upload → Type 0
SameUpload c fault = Unit
SameUpload c (done b c') = Same c c'

abbrev pub KeepsUpload : Context → Upload → Type 0
KeepsUpload c fault = Unit
KeepsUpload c (done b c') = Keeps c c'

staging_ensure-Same : (c : Context) (g : Gpu) (n : ℕ) → Same c (staging_ensure c g n).1
unfolding staging_ensure drop_staging create_staging
staging_ensure-Same c g n =
    ((ground arith, ground arith, ground arith), ground arith, ground arith, ground arith)

image_ensure-Same : (c : Context) (g : Gpu) (w h : ℕ) → Same c (image_ensure c g w h).1
unfolding image_ensure drop_image create_image
image_ensure-Same c g w h =
    ((ground arith, ground arith, ground arith), ground arith, ground arith, ground arith)

vk_create_pipeline-Keeps : (c : Context) (v : Vk) (f : ℕ) → Keeps c (vk_create_pipeline c v f).1
unfolding vk_create_pipeline vk_create_render_pass vk_create_shader_modules build_pipeline
vk_create_pipeline-Keeps c v f = (ground arith, ground arith, ground arith)

pub overlay_ensure_pipeline-Keeps :
    (c : Context) (v : Vk) (f : ℕ) → Keeps c (overlay_ensure_pipeline c v f).1
unfolding overlay_ensure_pipeline
overlay_ensure_pipeline-Keeps c v f = elim (Bool-cases (f == 0)) [
  | inl z ↦ ground (arith, z, vk_create_pipeline-Keeps c v 44)
  | inr z ↦ ground (arith, z, vk_create_pipeline-Keeps c v f)
]

dmabuf_bind_memory-Steady : (c : Context) (a : Icd) (i : ℕ) → Steady c (dmabuf_bind_memory c a i).1
unfolding dmabuf_bind_memory choose_memory
dmabuf_bind_memory-Steady c a i =
    ((ground arith, ground arith, ground arith), ground arith, ground arith)

dmabuf_import-Steady : (c : Context) (a : Icd) (i : ℕ) → Steady c (dmabuf_import c a i).1
unfolding dmabuf_import
dmabuf_import-Steady c a i =
    ((ground arith, ground arith, ground arith), ground arith, ground arith)

finish_import-Steady :
    (c : Context) (a : Icd) (fd : ℕ) (t : Tuple) (m : ℕ) → Steady c (finish_import c a fd t m).1
unfolding finish_import show_dmabuf
finish_import-Steady c a fd t m =
    ((ground arith, ground arith, ground arith), ground arith, ground arith)

pub Keeps-compose : (c1 c2 c3 : Context) → Keeps c1 c2 → Keeps c2 c3 → Keeps c1 c3
Keeps-compose c1 c2 c3 (a, b, d) (a', b', d') = (a' ∙ a, b' ∙ b, d' ∙ d)

Same-compose : (c1 c2 c3 : Context) → Same c1 c2 → Same c2 c3 → Same c1 c3
Same-compose c1 c2 c3 (k, a, b, d) (k', a', b', d') =
    (Keeps-compose c1 c2 c3 k k', a' ∙ a, b' ∙ b, d' ∙ d)

Steady-compose : (c1 c2 c3 : Context) → Steady c1 c2 → Steady c2 c3 → Steady c1 c3
Steady-compose c1 c2 c3 (k, a, b) (k', a', b') = (Keeps-compose c1 c2 c3 k k', a' ∙ a, b' ∙ b)

bind_import-Steady :
    (c : Context) (a : Icd) (fd : ℕ) (t : Tuple) (i : ℕ) → Steady c (bind_import c a fd t i).1
unfolding bind_import bind_tail import_tail
bind_import-Steady c a fd t i = go (dmabuf_bind_memory c a i) (dmabuf_bind_memory-Steady c a i)
  where
    imported : (r : Option ℕ × Context) → Steady c r.1 → Steady c (import_tail r a fd t).1
    imported (none, c2) k = k
    imported (some m, c2) k =
        Steady-compose c c2 (finish_import c2 a fd t m).1 k (finish_import-Steady c2 a fd t m)

    go : (r : Option ℕ × Context) → Steady c r.1 → Steady c (bind_tail r a fd t i).1
    go (none, c1) k = k
    go (some y, c1) k =
        imported (dmabuf_import c1 a i)
          (Steady-compose c c1 (dmabuf_import c1 a i).1 k (dmabuf_import-Steady c1 a i))

import_miss-Steady :
    (c : Context) (a : Icd) (fd : ℕ) (t : Tuple) → Steady c (import_miss c a fd t).1
unfolding import_miss import_image
import_miss-Steady c a fd t = go (dmabuf_create_image a t.modifier)
  where
    go : (o : Option ℕ) → Steady c (import_image o c a fd t).1
    go none = ((refl, refl, refl), refl, refl)
    go (some i) =
        bind_import-Steady (record c { dmabuf = record c.dmabuf { img = some i } }) a fd t i

pub vk_upload_dmabuf-Steady :
    (c : Context) (a : Icd) (fd : ℕ) (t : Tuple) → Steady c (vk_upload_dmabuf c a fd t).1
unfolding vk_upload_dmabuf import_checked dmabuf_check_cache drop_import show_dmabuf
vk_upload_dmabuf-Steady c a fd t = (
  (ground (arith, k), ground (arith, k), ground (arith, k)),
  ground (arith, k),
  ground (arith, k),
)
  where
    k : Steady (drop_import c) (import_miss (drop_import c) a fd t).1
    k = import_miss-Steady (drop_import c) a fd t

upload_pending-Keeps : (c : Context) (a : Icd) (fd : ℕ) → KeepsUpload c (upload_pending c a fd)
unfolding upload_pending release_pending
upload_pending-Keeps c a fd =
    go (vk_upload_dmabuf c0 a fd c.dmabuf.pending)
      (vk_upload_dmabuf-Steady c0 a fd c.dmabuf.pending)
  where
    c0 : Context
    c0 = record c { dmabuf = record c.dmabuf { pending_fd = none; has_pending = false } }

    go : (r : Bool × Context) → Steady c0 r.1 → KeepsUpload c (release_pending r fd)
    go (true, c1) (k, _, _) = k
    go (false, c1) (k, _, _) = k

finish_shm-Same :
    (c : Context) (r : Bool × Context) (w h : ℕ) → Same c r.1 → SameUpload c (finish_shm r w h)
unfolding finish_shm record_copy show_staging
finish_shm-Same c (false, c1) w h k = k
finish_shm-Same c (true, c1) w h k = k

stage_shm-Same :
    (c : Context) (r : Bool × Context) (g : Gpu) (file : File) (w h n offset : ℕ)
    → Same c r.1
    → SameUpload c (stage_shm r g file w h n offset)
unfolding stage_shm fill
stage_shm-Same c (false, c1) g file w h n offset k = k
stage_shm-Same c (true, c1) g file w h n offset k = go (not (is_some c1.staging.mapped))
  where
    c2 : Context
    c2 = fill (take n (drop offset file.bytes)) c1

    go : (b : Bool) → SameUpload c (if b then fault else finish_shm (image_ensure c2 g w h) w h)
    go true = tt
    go false =
        finish_shm-Same c (image_ensure c2 g w h) w h
          (Same-compose c c2 (image_ensure c2 g w h).1 k (image_ensure-Same c2 g w h))

pub vk_upload_shm-Same :
    (c : Context) (g : Gpu) (file : File) (w h n b : ℕ)
    → SameUpload c (vk_upload_shm c g file w h n b)
unfolding vk_upload_shm
vk_upload_shm-Same c g file w h n b =
    let k = (cache_map c.shm_cache file.stat file.total file.map).1 in
    let c1 = record c { shm_cache = k } in
    ground (
      arith,
      stage_shm-Same c (staging_ensure c1 g n) g file w h n ((b * n) % 2 ^ 32)
          (staging_ensure-Same c1 g n),
    )

stage_rect-Same :
    (c : Context) (r : Bool × Context) (g : Gpu) (file : File) (d : Delta) (n : ℕ)
    → Same c r.1
    → SameUpload c (stage_rect r g file d n)
unfolding stage_rect fill record_copy show_staging
stage_rect-Same c (false, c1) g file d n k = k
stage_rect-Same c (true, c1) g file d n k = ground (arith, k)

pub vk_upload_shm_rect-Same :
    (c : Context) (g : Gpu) (file : File) (w h : ℕ) → SameUpload c (vk_upload_shm_rect c g file w h)
unfolding vk_upload_shm_rect
vk_upload_shm_rect-Same c g file w h =
    let k = (cache_map c.rect_cache file.stat file.total file.map).1 in
    let c1 = record c { rect_cache = k } in
    let n = k.size - delta_size in
    ground (
      arith,
      stage_rect-Same c (staging_ensure c1 g n) g file (decode_delta file.bytes) n
          (staging_ensure-Same c1 g n),
    )

settle_shm-Keeps : (c : Context) (u : Upload) → SameUpload c u → KeepsUpload c (settle_shm u)
unfolding settle_shm
settle_shm-Keeps c fault k = k
settle_shm-Keeps c (done false c1) (k, _, _, _) = k
settle_shm-Keeps c (done true c1) (k, _, _, _) = k

pub overlay_upload-Keeps :
    (c : Context) (g : Gpu) (a : Icd) (file : File) → KeepsUpload c (overlay_upload c g a file)
unfolding overlay_upload
overlay_upload-Keeps c g a file = elim (Option-cases c.dmabuf.pending_fd) [
  | inl e ↦ ground (arith, e, whole, rect)
  | inr (fd, e) ↦ ground (arith, e, upload_pending-Keeps c a fd, whole, rect)
]
  where
    n : ℕ
    n = (c.overlay.w * c.overlay.h * 4) % 2 ^ 32

    whole : KeepsUpload c (settle_shm (vk_upload_shm c g file c.overlay.w c.overlay.h n 0))
    whole =
        settle_shm-Keeps c (vk_upload_shm c g file c.overlay.w c.overlay.h n 0)
          (vk_upload_shm-Same c g file c.overlay.w c.overlay.h n 0)

    rect : KeepsUpload c (settle_shm (vk_upload_shm_rect c g file c.overlay.w c.overlay.h))
    rect =
        settle_shm-Keeps c (vk_upload_shm_rect c g file c.overlay.w c.overlay.h)
          (vk_upload_shm_rect-Same c g file c.overlay.w c.overlay.h)

pub make_framebuffer-Keeps : (c : Context) (v : Vk) → Keeps c (make_framebuffer c v).1
unfolding make_framebuffer
make_framebuffer-Keeps c v = (ground arith, ground arith, ground arith)
