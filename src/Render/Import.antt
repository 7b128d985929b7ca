-- ===== src/Render/Import.antt =====
-- src/core/render/vk/dmabuf.c and cache.c: the import of a dmabuf as an image, kept while the same
-- buffer comes again.
pub mod Descriptors
pub mod Twice
use idk_overlay.Prelude.{
  ℕ, ◌+◌, ◌≡◌, refl, List, [], ◌∷◌, Bool, true, false, not, ◌&&◌, Option, none, some, is_some, ◌==◌,
  if◌then◌else◌,
}
use idk_overlay.Render.Context.{Context, Dmabuf, Tuple, Trash}
use idk_overlay.Render.Format.{first_type, has_bit, device_local, mod_invalid, dmabuf_vendor_check}
use idk_overlay.Render.Staging.{toss}

-- What Vulkan and dup(2) answer during an import: the image with the modifier's layout and the linear
-- one, the memory types that the image and the descriptor allow, the propertyFlags of the memory types,
-- the duplicate, the memory and the view.
pub record Icd : Type 0 where
  pub image : Option ℕ
  pub linear : Option ℕ
  pub image_bits : ℕ
  pub fd_bits : Option ℕ
  pub types : List ℕ
  pub dup : Option ℕ
  pub memory : Option ℕ
  pub view : Option ℕ

abbrev pub same_tuple : Tuple → Tuple → Bool
same_tuple s t =
    (s.w == t.w)
    && (s.h == t.h)
    && (s.stride == t.stride)
    && (s.fourcc == t.fourcc)
    && (s.modifier == t.modifier)
    && not (t.buf_id == 0)
    && (s.buf_id == t.buf_id)

-- The overlay shows the imported image.
unfoldable pub show_dmabuf : Context → Context
show_dmabuf c = record c { overlay = record c.overlay { img = c.dmabuf.img; view = c.dmabuf.view } }

-- dmabuf_check_cache on a miss: the old import goes.
unfoldable pub drop_import : Context → Context
drop_import c = record c {
  dmabuf = record c.dmabuf {
    view = none;
    img = none;
    img_mem = none;
    fd = none;
    cached = record c.dmabuf.cached { buf_id = 0 };
  };
  trash = record c.trash {
    views = toss c.dmabuf.view c.trash.views;
    images = toss c.dmabuf.img c.trash.images;
    memories = toss c.dmabuf.img_mem c.trash.memories;
  };
  closed = toss c.dmabuf.fd c.closed;
}

-- dmabuf_check_cache: whether it is a hit.
unfoldable pub dmabuf_check_cache : Context → ℕ → Tuple → Bool × Context
unfolding show_dmabuf drop_import
dmabuf_check_cache c fd t =
    if is_some c.dmabuf.img && same_tuple c.dmabuf.cached t
    then (true, show_dmabuf (record c { closed = fd ∷ c.closed }))
    else (false, drop_import c)

-- dmabuf_create_image; with an explicit modifier a linear image is tried second.
unfoldable pub dmabuf_create_image : Icd → ℕ → Option ℕ
dmabuf_create_image a modifier =
    if is_some a.image
    then a.image
    else if not (modifier == 0) && not (modifier == mod_invalid)
    then a.linear
    else none

abbrev drop_dmabuf_img : ℕ → Bool → Context → Context
drop_dmabuf_img img failed c = record c {
  dmabuf = record c.dmabuf { img = none };
  trash = record c.trash { images = img ∷ c.trash.images };
  failed = failed;
}

-- dmabuf_bind_memory from the choice of the memory type on
unfoldable pub choose_memory : Context → Icd → ℕ → ℕ → Option ℕ × Context
choose_memory c a img bits =
    let allows = (λ (i : ℕ). has_bit a.image_bits i && has_bit bits i) in
    let near = first_type allows (λ flags. has_bit flags device_local) a.types 0 in
    let any = first_type allows (λ _. true) a.types 0 in
    if is_some near
    then (near, c)
    else if is_some any
    then (any, c)
    else (none, drop_dmabuf_img img true c)

-- dmabuf_bind_memory: the memory type, or `none` for 0xFFFFFFFF.
unfoldable pub dmabuf_bind_memory : Context → Icd → ℕ → Option ℕ × Context
unfolding choose_memory
dmabuf_bind_memory c a img = elim a.fd_bits [
  | none ↦ (none, drop_dmabuf_img img true c)
  | some bits ↦
      if c.props then choose_memory c a img bits else (none, drop_dmabuf_img img c.failed c)
]

-- dmabuf_import: the memory, or `none` where it returns -1.
unfoldable pub dmabuf_import : Context → Icd → ℕ → Option ℕ × Context
dmabuf_import c a img = elim a.dup [
  | none ↦ (none, record c { failed = true })
  | some d ↦ elim a.memory [
    | none ↦ (none, drop_dmabuf_img img true (record c { closed = d ∷ c.closed }))
    | some m ↦ (some m, c)
  ]
]

-- vk_upload_dmabuf from vkCreateImageView on
unfoldable pub finish_import : Context → Icd → ℕ → Tuple → ℕ → Bool × Context
unfolding show_dmabuf
finish_import c a fd t m = elim a.view [
  | none ↦ (
    false,
    record c {
      dmabuf = record c.dmabuf { img_mem = none; img = none; fd = none };
      trash = record c.trash {
        memories = m ∷ c.trash.memories;
        images = toss c.dmabuf.img c.trash.images;
      };
    },
  )
  | some v ↦ (
    true,
    show_dmabuf (record c {
      dmabuf = record c.dmabuf { img_mem = some m; view = some v; cached = t; fd = some fd };
    }),
  )
]

-- vk_upload_dmabuf after dmabuf_import
unfoldable pub import_tail : Option ℕ × Context → Icd → ℕ → Tuple → Bool × Context
import_tail (none, c) a fd t = (false, c)
import_tail (some m, c) a fd t = finish_import c a fd t m

-- vk_upload_dmabuf after dmabuf_bind_memory; the image is destroyed here where that failed.
unfoldable pub bind_tail : Option ℕ × Context → Icd → ℕ → Tuple → ℕ → Bool × Context
unfolding import_tail
bind_tail (none, c) a fd t img = (false, drop_dmabuf_img img true c)
bind_tail (some type, c) a fd t img = import_tail (dmabuf_import c a img) a fd t

-- vk_upload_dmabuf from dmabuf_bind_memory on
unfoldable pub bind_import : Context → Icd → ℕ → Tuple → ℕ → Bool × Context
unfolding bind_tail
bind_import c a fd t img = bind_tail (dmabuf_bind_memory c a img) a fd t img

-- vk_upload_dmabuf after dmabuf_create_image
unfoldable pub import_image : Option ℕ → Context → Icd → ℕ → Tuple → Bool × Context
unfolding bind_import
import_image none c a fd t = (false, record c { failed = true })
import_image (some img) c a fd t =
    bind_import (record c { dmabuf = record c.dmabuf { img = some img } }) a fd t img

-- vk_upload_dmabuf on a miss
unfoldable pub import_miss : Context → Icd → ℕ → Tuple → Bool × Context
unfolding import_image
import_miss c a fd t = import_image (dmabuf_create_image a t.modifier) c a fd t

-- vk_upload_dmabuf after dmabuf_check_cache
unfoldable pub import_checked : Bool × Context → Icd → ℕ → Tuple → Bool × Context
import_checked (true, c) a fd t = (true, c)
import_checked (false, c) a fd t = import_miss c a fd t

-- vk_upload_dmabuf: whether it returns 0.
unfoldable pub vk_upload_dmabuf : Context → Icd → ℕ → Tuple → Bool × Context
unfolding import_checked
vk_upload_dmabuf c a fd t =
    if dmabuf_vendor_check c.drm_vendor t.modifier
    then import_checked (dmabuf_check_cache c fd t) a fd t
    else (false, record c { failed = true })

-- dmabuf_destroy
unfoldable pub dmabuf_destroy : Context → Context
dmabuf_destroy c = record c {
  dmabuf = record c.dmabuf {
    view = none;
    img = none;
    img_mem = none;
    pending_fd = none;
    has_pending = false;
    fd = none;
  };
  trash = record c.trash {
    views = toss c.dmabuf.view c.trash.views;
    images = toss c.dmabuf.img c.trash.images;
    memories = toss c.dmabuf.img_mem c.trash.memories;
  };
  closed = toss c.dmabuf.fd (toss c.dmabuf.pending_fd c.closed);
}
