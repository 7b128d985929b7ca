-- ===== src/Render/Receive/Ledger.antt =====
-- The descriptors of the frames that src/core/render/vk took from the compositor.
use idk_overlay.Prelude.{
  ℕ, ◌+◌, ◌*◌, ◌%◌, ◌^◌, ◌≤◌, ◌≡◌, ◌≢◌, refl, sym, ap, ◌∙◌, List, [], ◌∷◌, Bool, true, false, ◌&&◌,
  Option, none, some, Option-cases, if◌then◌else◌, arith, Bool-cases, inl, inr,
}
use idk_overlay.Prelude.Account.{count, held, count-append}
use idk_overlay.Wire.{frame_is_dmabuf}
use idk_overlay.Wire.Delta.{Delta}
use idk_overlay.Compositor.{Compositor, close_frame_fds}
use idk_overlay.Compositor.Frames.{account}
use idk_overlay.Render.Context.{Context, Dmabuf}
use idk_overlay.Render.Staging.{Gpu, toss}
use idk_overlay.Render.Upload.{File, Upload, done, fault, vk_upload_shm, vk_upload_shm_rect}
use idk_overlay.Render.Import.{Icd, vk_upload_dmabuf, dmabuf_destroy}
use idk_overlay.Render.Import.Descriptors.{import_account, Settled, vk_upload_dmabuf-Settled}
use idk_overlay.Render.Draw.Keeps.{
  Steady, vk_upload_dmabuf-Steady, SameUpload, vk_upload_shm-Same, vk_upload_shm_rect-Same,
}
use idk_overlay.Render.Receive.{
  frame_is_rect, rect_is_bad, take_shm, take_dmabuf, vk_render, first_fd, take_fd, upload_pending,
  settle_shm, overlay_upload, release_pending,
}

-- Descriptor `n`: the import, the dmabuf that waits to be imported, the file that waits to be uploaded,
-- and the close(2) calls.
abbrev pub vk_account : ℕ → Context → ℕ
vk_account n c =
    import_account n c
    + (if c.dmabuf.has_pending then held n c.dmabuf.pending_fd else 0)
    + held n c.staging.shm_fd

take_fd-account :
    (n : ℕ) (comp : Compositor)
    → account n (close_frame_fds (take_fd comp)) + held n (first_fd comp) ≡ account n comp
unfolding close_frame_fds
take_fd-account n comp = go comp.dmabuf_fd refl
  where
    go :
        (fds : List ℕ)
        → comp.dmabuf_fd ≡ fds
        → account n (close_frame_fds (take_fd comp)) + held n (first_fd comp) ≡ account n comp
    go [] e = ground (arith, e)
    go (fd ∷ fds) e = ground (arith, e, count-append n fds comp.closed)

close-account : (n : ℕ) (comp : Compositor) → account n (close_frame_fds comp) ≡ account n comp
unfolding close_frame_fds
close-account n comp = omega (arith, count-append n comp.dmabuf_fd comp.closed)

take_shm-account :
    (n : ℕ) (c : Context) (comp : Compositor)
    → vk_account n (take_shm c comp) ≡ vk_account n c + held n (first_fd comp)
unfolding take_shm
take_shm-account n c comp = ground arith

take_dmabuf-account :
    (n : ℕ) (c : Context) (comp : Compositor)
    → vk_account n (take_dmabuf c comp) ≡ vk_account n c + held n (first_fd comp)
unfolding take_dmabuf
take_dmabuf-account n c comp = ground arith

-- A frame that idk_vk_compositor_render takes from the compositor, or refuses: every descriptor that
-- the back end and the compositor had between them, they have afterwards, or it was closed, once for
-- each time; the frame that is replaced is closed.
pub vk_render-account :
    (n : ℕ) (c : Context) (comp : Compositor) (head : Option (ℕ × Delta))
    → vk_account n (vk_render c comp head).1 + account n (vk_render c comp head).2
      ≡ vk_account n c + account n comp
unfolding vk_render
vk_render-account n c comp head = elim (Bool-cases (frame_is_dmabuf comp.hdr)) [
  | inl d ↦ ground (arith, d, take_fd-account n comp, take_dmabuf-account n c comp)
  | inr d ↦ elim (Bool-cases (frame_is_rect comp.hdr && rect_is_bad c comp head)) [
    | inl b ↦ ground (arith, d, b, close-account n comp)
    | inr b ↦ ground (arith, d, b, take_fd-account n comp, take_shm-account n c comp)
  ]
]

-- The account of an upload's result; there is none after a fault.
abbrev pub Accounted : ℕ → ℕ → Upload → Type 0
Accounted n k fault = Unit
Accounted n k (done b c) = vk_account n c ≡ k

-- The part of the account that the dmabufs have.
abbrev dmabuf_held : ℕ → Dmabuf → ℕ
dmabuf_held n x = held n x.fd + (if x.has_pending then held n x.pending_fd else 0)

count-toss : (n : ℕ) (o : Option ℕ) (l : List ℕ) → count n (toss o l) ≡ held n o + count n l
count-toss n none l = omega arith
count-toss n (some x) l = refl

settle_shm-Accounted :
    (n : ℕ) (c : Context) (u : Upload)
    → SameUpload c u
    → Accounted n (vk_account n c) (settle_shm u)
unfolding settle_shm
settle_shm-Accounted n c fault k = tt
settle_shm-Accounted n c (done false c1) (k, a, b, d) =
    omega (arith, ap (count n) a, ap (dmabuf_held n) b, ap (held n) d)
settle_shm-Accounted n c (done true c1) (k, a, b, d) = omega (
  arith,
  ap (count n) a,
  ap (dmabuf_held n) b,
  ap (held n) d,
  count-toss n c1.staging.shm_fd c1.closed,
)

upload_pending-Accounted :
    (n : ℕ) (c : Context) (a : Icd) (fd : ℕ)
    → a.dup ≢ some n
    → c.dmabuf.pending_fd ≡ some fd
    → c.dmabuf.has_pending ≡ true
    → c.dmabuf.fd ≢ some fd
    → Accounted n (vk_account n c) (upload_pending c a fd)
unfolding upload_pending release_pending
upload_pending-Accounted n c a fd d e h z =
    go (vk_upload_dmabuf c0 a fd c.dmabuf.pending)
      (vk_upload_dmabuf-Settled n c0 a fd c.dmabuf.pending d)
      (vk_upload_dmabuf-Steady c0 a fd c.dmabuf.pending)
  where
    c0 : Context
    c0 = record c { dmabuf = record c.dmabuf { pending_fd = none; has_pending = false } }

    go :
        (r : Bool × Context)
        → Settled n fd c0 r
        → Steady c0 r.1
        → Accounted n (vk_account n c) (release_pending r fd)
    go (true, c1) k (_, p, s) = ground (arith, k, p, ap (held n) s, e, h)
    go (false, c1) (k, inl x) (_, p, s) = ground (arith, k, x, p, ap (held n) s, e, h)
    go (false, c1) (k, inr x) (_, p, s) = ground (arith, k, x, p, ap (held n) s, e, h, z)

-- Of every descriptor but the duplicate that an import makes, an upload that returns
-- keeps or closes each one as often as the back end had it, where the import does not keep the very
-- descriptor that waits.
pub overlay_upload-Accounted :
    (n : ℕ) (c : Context) (g : Gpu) (a : Icd) (file : File)
    → a.dup ≢ some n
    → (c.dmabuf.has_pending ≡ true → c.dmabuf.fd ≢ c.dmabuf.pending_fd)
    → Accounted n (vk_account n c) (overlay_upload c g a file)
unfolding overlay_upload
overlay_upload-Accounted n c g a file d z = elim (Bool-cases c.dmabuf.has_pending) [
  | inr h ↦ ground (arith, h, whole, rect)
  | inl h ↦ elim (Option-cases c.dmabuf.pending_fd) [
    | inl e ↦ ground (arith, e, h, whole, rect)
    | inr (fd, e) ↦
        ground (arith, e, h, upload_pending-Accounted n c a fd d e h (λ x. z h (x ∙ sym e)))
  ]
]
  where
    size : ℕ
    size = (c.overlay.w * c.overlay.h * 4) % 2 ^ 32

    whole :
        Accounted n
          (vk_account n c)
          (settle_shm (vk_upload_shm c g file c.overlay.w c.overlay.h size 0))
    whole =
        settle_shm-Accounted n c (vk_upload_shm c g file c.overlay.w c.overlay.h size 0)
          (vk_upload_shm-Same c g file c.overlay.w c.overlay.h size 0)

    rect :
        Accounted n
          (vk_account n c)
          (settle_shm (vk_upload_shm_rect c g file c.overlay.w c.overlay.h))
    rect =
        settle_shm-Accounted n c (vk_upload_shm_rect c g file c.overlay.w c.overlay.h)
          (vk_upload_shm_rect-Same c g file c.overlay.w c.overlay.h)

-- A dmabuf that waits when a frame in shared memory replaces it is closed then, and once more by a
-- shutdown before the next dmabuf: its number stays in the field that the shutdown reads.
take_shm-dmabuf_destroy :
    (c : Context) (comp : Compositor) (fd : ℕ)
    → c.dmabuf.has_pending ≡ true
    → c.dmabuf.pending_fd ≡ some fd
    → (frame_is_dmabuf comp.hdr ≡ false)
    → frame_is_rect comp.hdr ≡ false
    → (head : Option (ℕ × Delta))
    → 2 + count fd c.closed ≤ count fd (dmabuf_destroy (vk_render c comp head).1).closed
unfolding vk_render take_shm dmabuf_destroy
take_shm-dmabuf_destroy c comp fd h e d r head = ground (arith, h, e, d, r)
