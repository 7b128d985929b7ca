-- ===== src/Render/Import/Descriptors.antt =====
-- The descriptors and images that the imports of src/core/render/vk own.
use idk_overlay.Prelude.{
  ℕ, ◌+◌, ◌≡◌, ◌≢◌, refl, subst, ◌∙◌, ◌∷◌, Bool, true, false, ◌&&◌, Option, none, some, is_some,
  if◌then◌else◌, arith, ◌⊎◌, inl, inr,
}
use idk_overlay.Prelude.Account.{count, held}
use idk_overlay.Render.Context.{Context, Tuple}
use idk_overlay.Render.Format.{dmabuf_vendor_check}
use idk_overlay.Render.Import.{
  Icd, vk_upload_dmabuf, import_miss, bind_import, bind_tail, import_tail, finish_import,
  dmabuf_check_cache, drop_import, show_dmabuf, dmabuf_bind_memory, choose_memory, dmabuf_import,
  dmabuf_create_image, import_image, import_checked, same_tuple,
}

-- Descriptor `n`: the import that keeps it, and the close(2) calls.
abbrev pub import_account : ℕ → Context → ℕ
import_account n c = held n c.dmabuf.fd + count n c.closed

dmabuf_bind_memory-account :
    (n : ℕ) (c : Context) (a : Icd) (i : ℕ)
    → (import_account n (dmabuf_bind_memory c a i).1 ≡ import_account n c)
      × ((dmabuf_bind_memory c a i).1.dmabuf.fd ≡ c.dmabuf.fd)
unfolding dmabuf_bind_memory choose_memory
dmabuf_bind_memory-account n c a i = (ground arith, ground arith)

dmabuf_import-account :
    (n : ℕ) (c : Context) (a : Icd) (i : ℕ)
    → a.dup ≢ some n
    → (import_account n (dmabuf_import c a i).1 ≡ import_account n c)
      × ((dmabuf_import c a i).1.dmabuf.fd ≡ c.dmabuf.fd)
unfolding dmabuf_import
dmabuf_import-account n c a i d = (ground (arith, d), ground (arith, d))

-- What an import that starts without a descriptor leaves: the account, with the one that it owns, and
-- no descriptor where it fails.
abbrev Imported : ℕ → ℕ → ℕ → Bool × Context → Type 0
Imported n fd k (true, c) = import_account n c ≡ k + held n (some fd)
Imported n fd k (false, c) = (import_account n c ≡ k) × (c.dmabuf.fd ≡ none)

finish_import-Imported :
    (n : ℕ) (c : Context) (a : Icd) (fd : ℕ) (t : Tuple) (m : ℕ)
    → c.dmabuf.fd ≡ none
    → Imported n fd (import_account n c) (finish_import c a fd t m)
unfolding finish_import show_dmabuf
finish_import-Imported n c a fd t m e = go a.view
  where
    go :
        (o : Option ℕ)
        → Imported n fd (import_account n c) (finish_import c (record a { view = o }) fd t m)
    go none = (ground (arith, e), refl)
    go (some v) = ground (arith, e)

bind_import-Imported :
    (n : ℕ) (c : Context) (a : Icd) (fd : ℕ) (t : Tuple) (i : ℕ)
    → a.dup ≢ some n
    → c.dmabuf.fd ≡ none
    → Imported n fd (import_account n c) (bind_import c a fd t i)
unfolding bind_import bind_tail import_tail
bind_import-Imported n c a fd t i d e =
    go (dmabuf_bind_memory c a i) (dmabuf_bind_memory-account n c a i)
  where
    imported :
        (r : Option ℕ × Context)
        → (import_account n r.1 ≡ import_account n c) × (r.1.dmabuf.fd ≡ none)
        → Imported n fd (import_account n c) (import_tail r a fd t)
    imported (none, c2) (k, z) = (k, z)
    imported (some m, c2) (k, z) =
        subst (λ x. Imported n fd x (finish_import c2 a fd t m)) k
          (finish_import-Imported n c2 a fd t m z)

    go :
        (r : Option ℕ × Context)
        → (import_account n r.1 ≡ import_account n c) × (r.1.dmabuf.fd ≡ c.dmabuf.fd)
        → Imported n fd (import_account n c) (bind_tail r a fd t i)
    go (none, c1) (k, z) = (k, z ∙ e)
    go (some y, c1) (k, z) =
        let (k', z') = dmabuf_import-account n c1 a i d in
        imported (dmabuf_import c1 a i) (k' ∙ k, z' ∙ z ∙ e)

import_miss-Imported :
    (n : ℕ) (c : Context) (a : Icd) (fd : ℕ) (t : Tuple)
    → a.dup ≢ some n
    → c.dmabuf.fd ≡ none
    → Imported n fd (import_account n c) (import_miss c a fd t)
unfolding import_miss import_image
import_miss-Imported n c a fd t d e = go (dmabuf_create_image a t.modifier)
  where
    go : (o : Option ℕ) → Imported n fd (import_account n c) (import_image o c a fd t)
    go none = (refl, e)
    go (some i) =
        bind_import-Imported n (record c { dmabuf = record c.dmabuf { img = some i } }) a fd t i d e

drop_import-account :
    (n : ℕ) (c : Context)
    → (import_account n (drop_import c) ≡ import_account n c) × ((drop_import c).dmabuf.fd ≡ none)
unfolding drop_import
drop_import-account n c = (ground arith, refl)

-- How an upload leaves descriptor `n`. Where it succeeds, the account has grown by the descriptor that
-- it was given; where it fails, it has not, and the import keeps no descriptor or the one it had.
abbrev pub Settled : ℕ → ℕ → Context → Bool × Context → Type 0
Settled n fd c (true, c') = import_account n c' ≡ import_account n c + held n (some fd)
Settled n fd c (false, c') =
    (import_account n c' ≡ import_account n c)
    × ((c'.dmabuf.fd ≡ none) ⊎ (c'.dmabuf.fd ≡ c.dmabuf.fd))

-- Of every descriptor but the duplicate that the import makes, an upload of a dmabuf takes exactly the
-- one that it was given, and only where it succeeds: it keeps it with the image, or closes it where
-- the image is the one it has. The descriptor of an image that it drops is closed once.
pub vk_upload_dmabuf-Settled :
    (n : ℕ) (c : Context) (a : Icd) (fd : ℕ) (t : Tuple)
    → a.dup ≢ some n
    → Settled n fd c (vk_upload_dmabuf c a fd t)
unfolding vk_upload_dmabuf import_checked dmabuf_check_cache show_dmabuf
vk_upload_dmabuf-Settled n c a fd t d = vendor (dmabuf_vendor_check c.drm_vendor t.modifier)
  where
    missed : (r : Bool × Context) → Imported n fd (import_account n c) r → Settled n fd c r
    missed (true, c1) k = k
    missed (false, c1) (k, z) = (k, inl z)

    hit :
        (b : Bool)
        → Settled n fd c (
            import_checked
              (if b
                then (true, show_dmabuf (record c { closed = fd ∷ c.closed }))
                else (false, drop_import c))
              a
              fd
              t)
    hit true = ground arith
    hit false =
        let (k, z) = drop_import-account n c in
        missed (import_miss (drop_import c) a fd t) (
          subst (λ x. Imported n fd x (import_miss (drop_import c) a fd t)) k
            (import_miss-Imported n (drop_import c) a fd t d z))

    vendor :
        (b : Bool)
        → Settled n fd c (
            if b
            then import_checked (dmabuf_check_cache c fd t) a fd t
            else (false, record c { failed = true }))
    vendor true = hit (is_some c.dmabuf.img && same_tuple c.dmabuf.cached t)
    vendor false = (refl, inr refl)
