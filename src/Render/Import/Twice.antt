-- ===== src/Render/Import/Twice.antt =====
-- The image of a dmabuf import whose memory cannot be chosen.
use idk_overlay.Prelude.{ℕ, ◌+◌, ◌≡◌, none, some, arith}
use idk_overlay.Prelude.Account.{count}
use idk_overlay.Render.Context.{Context, Tuple}
use idk_overlay.Render.Import.{
  Icd, import_miss, import_image, bind_import, bind_tail, dmabuf_bind_memory, dmabuf_create_image,
}

-- Where an import creates an image and vkGetMemoryFdPropertiesKHR fails, the image is destroyed twice.
pub import_miss-destroys_twice :
    (c : Context) (a : Icd) (fd img : ℕ) (t : Tuple)
    → dmabuf_create_image a t.modifier ≡ some img
    → a.fd_bits ≡ none
    → count img (import_miss c a fd t).1.trash.images ≡ 2 + count img c.trash.images
unfolding import_miss import_image bind_import bind_tail dmabuf_bind_memory
import_miss-destroys_twice c a fd img t e z = ground (arith, e, z)
