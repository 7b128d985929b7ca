-- ===== src/Render/Receive.antt =====
-- src/core/render/vk/render.c and cache.c: a frame that the compositor received becomes the frame to
-- upload, and is uploaded in a later call.
pub mod Ledger
use idk_overlay.Prelude.{
  ℕ, ◌*◌, ◌/◌, ◌%◌, ◌^◌, List, [], ◌∷◌, ◌++◌, Bool, true, false, not, ◌&&◌, ◌||◌, Option, none,
  some, is_some, ltb, ◌==◌, if◌then◌else◌,
}
use idk_overlay.Wire.{FrameHeader, frame_is_dmabuf}
use idk_overlay.Wire.Delta.{Delta, delta_size, validate}
use idk_overlay.Compositor.{Compositor, close_frame_fds}
use idk_overlay.Render.Context.{Context, Tuple}
use idk_overlay.Render.Staging.{Gpu, toss}
use idk_overlay.Render.Upload.{File, Upload, done, fault, vk_upload_shm, vk_upload_shm_rect}
use idk_overlay.Render.Import.{Icd, vk_upload_dmabuf}

-- IDK_FRAME_FLAG_SHM_RECT is bit 2 of the flags.
abbrev pub frame_is_rect : FrameHeader → Bool
frame_is_rect h = ((h.flags / 4) % 2) == 1

-- `g_comp.dmabuf_fd[0]`, and the compositor once it is set to -1
abbrev pub first_fd : Compositor → Option ℕ
first_fd comp = elim comp.dmabuf_fd [ [] ↦ none | fd ∷ fds ↦ some fd ]

abbrev pub take_fd : Compositor → Compositor
take_fd comp = record comp { dmabuf_fd = elim comp.dmabuf_fd [ [] ↦ [] | fd ∷ fds ↦ fds ] }

-- The check of a rectangle before it is acknowledged. `head` is what fstat(2) and pread(2) say of the
-- file: its size and header, or `none` where one of them fails.
unfoldable pub rect_is_bad : Context → Compositor → Option (ℕ × Delta) → Bool
rect_is_bad c comp none = true
rect_is_bad c comp (some (size, r)) =
    not c.staging.baseline_valid
    || not (c.staging.img_w == comp.hdr.width)
    || not (c.staging.img_h == comp.hdr.height)
    || not (is_some (first_fd comp))
    || ltb size delta_size
    || not (validate r comp.hdr.width comp.hdr.height size)

-- idk_vk_compositor_render with a frame in shared memory: it takes the place of the frame before it.
unfoldable pub take_shm : Context → Compositor → Context
take_shm c comp = record c {
  overlay = record c.overlay { w = comp.hdr.width; h = comp.hdr.height; has_frame = true };
  staging = record c.staging { shm_fd = first_fd comp; is_delta = frame_is_rect comp.hdr };
  dmabuf = record c.dmabuf { cached = record c.dmabuf.cached { buf_id = 0 }; has_pending = false };
  closed =
      toss (if c.dmabuf.has_pending then c.dmabuf.pending_fd else none)
        (toss c.staging.shm_fd c.closed);
}

-- idk_vk_compositor_render with a dmabuf
unfoldable pub take_dmabuf : Context → Compositor → Context
take_dmabuf c comp = record c {
  overlay = record c.overlay { has_frame = true };
  staging = record c.staging { baseline_valid = false; shm_fd = none };
  dmabuf = record c.dmabuf {
    pending_fd = first_fd comp;
    pending = record {
      w = comp.hdr.width;
      h = comp.hdr.height;
      stride = comp.hdr.stride;
      fourcc = comp.hdr.fourcc;
      modifier = comp.hdr.modifier;
      buf_id = comp.hdr.buf_id;
    };
    has_pending = true;
  };
  closed =
      toss c.staging.shm_fd
        (toss (if c.dmabuf.has_pending then c.dmabuf.pending_fd else none) c.closed);
}

-- idk_vk_compositor_render after idk_compositor_recv_frame returned 1, with the code of the ACK that
-- it sends; the ACK reports a dmabuf that failed since the last one.
unfoldable pub vk_render : Context → Compositor → Option (ℕ × Delta) → ℕ × Context × Compositor
unfolding rect_is_bad take_shm take_dmabuf
vk_render c comp head =
    if frame_is_dmabuf comp.hdr
    then (
      (if c.failed then 1 else 0),
      record (take_dmabuf c comp) { failed = false },
      close_frame_fds (take_fd comp),
    )
    else if frame_is_rect comp.hdr && rect_is_bad c comp head
    then (1, c, close_frame_fds comp)
    else (
      (if c.failed then 1 else 0),
      record (take_shm c comp) { failed = false },
      close_frame_fds (take_fd comp),
    )

-- overlay_upload after vk_upload_dmabuf
unfoldable pub release_pending : Bool × Context → ℕ → Upload
release_pending (true, c) fd = done true c
release_pending (false, c) fd = done false (record c {
  closed = fd ∷ c.closed;
  dmabuf = record c.dmabuf {
    fd = elim c.dmabuf.fd [ none ↦ none | some x ↦ if x == fd then none else some x ];
  };
})

-- overlay_upload with a pending dmabuf
unfoldable pub upload_pending : Context → Icd → ℕ → Upload
unfolding release_pending
upload_pending c a fd =
    release_pending
      (vk_upload_dmabuf
        (record c { dmabuf = record c.dmabuf { pending_fd = none; has_pending = false } }) a fd
        c.dmabuf.pending)
      fd

-- overlay_upload after an upload from shared memory
unfoldable pub settle_shm : Upload → Upload
settle_shm fault = fault
settle_shm (done false c) =
    done false (record c { staging = record c.staging { baseline_valid = false } })
settle_shm (done true c) = done true (record c {
  staging = record c.staging { shm_fd = none; is_delta = false };
  closed = toss c.staging.shm_fd c.closed;
})

-- overlay_upload; the size of a whole frame is computed in 32 bits.
unfoldable pub overlay_upload : Context → Gpu → Icd → File → Upload
unfolding upload_pending settle_shm
overlay_upload c g a file =
    if c.dmabuf.has_pending && is_some c.dmabuf.pending_fd
    then (elim c.dmabuf.pending_fd [ none ↦ done true c | some fd ↦ upload_pending c a fd ])
    else if is_some c.staging.shm_fd
    then settle_shm (
        if c.staging.is_delta
        then vk_upload_shm_rect c g file c.overlay.w c.overlay.h
        else vk_upload_shm c g file c.overlay.w c.overlay.h
            ((c.overlay.w * c.overlay.h * 4) % 2 ^ 32) 0)
    else done true c
