-- ===== src/Render/Staging.antt =====
-- src/core/render/vk/upload.c: staging_ensure and image_ensure. What Vulkan answers is an argument; a
-- creation that fails leaves the handle as it was.
use idk_overlay.Prelude.{
  ℕ, ◌≤◌, ◌<◌, ◌≡◌, List, [], ◌∷◌, Bool, true, false, ◌&&◌, Option, none, some, is_some,
  Option-cases, leb, ◌==◌, if◌then◌else◌, arith, inl, inr,
}
use idk_overlay.Render.Context.{Context}
use idk_overlay.Render.Format.{find_mem_type, device_local, host_visible}

-- The answers to staging_ensure and image_ensure: the handle that each call creates, the memory types
-- that the buffer and the image allow, the address that vkMapMemory gives, and the propertyFlags of
-- the memory types.
pub record Gpu : Type 0 where
  pub types : List ℕ
  pub buffer : Option ℕ
  pub buffer_bits : ℕ
  pub buffer_mem : Option ℕ
  pub mapped : Option ℕ
  pub image : Option ℕ
  pub image_bits : ℕ
  pub image_mem : Option ℕ
  pub view : Option ℕ
  pub flush : Bool

-- A destroyed handle; Vulkan ignores VK_NULL_HANDLE.
abbrev pub toss : Option ℕ → List ℕ → List ℕ
toss none l = l
toss (some h) l = h ∷ l

-- staging_ensure from vkDestroyBuffer to the last assignment before vkCreateBuffer
unfoldable pub drop_staging : Context → Context
drop_staging c = record c {
  staging = record c.staging { buf = none; mapped = none; mem = none };
  trash = record c.trash {
    buffers = toss c.staging.buf c.trash.buffers;
    memories = toss c.staging.mem c.trash.memories;
  };
}

-- staging_ensure from vkCreateBuffer on; the result says whether it returns 0.
unfoldable pub create_staging : Context → Gpu → ℕ → Bool × Context
create_staging c g n = elim g.buffer [
  | none ↦ (false, c)
  | some b ↦ elim (find_mem_type g.types g.buffer_bits host_visible) [
    | none ↦ (false, record c { staging = record c.staging { buf = some b } })
    | some t ↦ elim g.buffer_mem [
      | none ↦ (false, record c { staging = record c.staging { buf = some b } })
      | some m ↦ (
        true,
        record c {
          staging = record c.staging {
            buf = some b;
            mem = some m;
            mapped = g.mapped;
            size = n;
            staged = [];
          };
        },
      )
    ]
  ]
]

-- staging_ensure
unfoldable pub staging_ensure : Context → Gpu → ℕ → Bool × Context
unfolding drop_staging create_staging
staging_ensure c g n =
    if is_some c.staging.buf && leb n c.staging.size
    then (true, c)
    else create_staging (drop_staging c) g n

-- image_ensure up to vkCreateImage
unfoldable pub drop_image : Context → Context
drop_image c = record c {
  staging = record c.staging { baseline_valid = false; img = none; view = none; img_mem = none };
  trash = record c.trash {
    images = toss c.staging.img c.trash.images;
    views = toss c.staging.view c.trash.views;
    memories = toss c.staging.img_mem c.trash.memories;
  };
}

-- image_ensure from vkCreateImage on
unfoldable pub create_image : Context → Gpu → ℕ → ℕ → Bool × Context
create_image c g w h = elim g.image [
  | none ↦ (false, c)
  | some i ↦ elim (find_mem_type g.types g.image_bits device_local) [
    | none ↦ (false, record c { staging = record c.staging { img = some i } })
    | some t ↦ elim g.image_mem [
      | none ↦ (false, record c { staging = record c.staging { img = some i } })
      | some m ↦ elim g.view [
        | none ↦ (false, record c { staging = record c.staging { img = some i; img_mem = some m } })
        | some v ↦ (
          true,
          record c {
            staging = record c.staging {
              img = some i;
              img_mem = some m;
              view = some v;
              img_w = w;
              img_h = h;
            };
          },
        )
      ]
    ]
  ]
]

-- image_ensure
unfoldable pub image_ensure : Context → Gpu → ℕ → ℕ → Bool × Context
unfolding drop_image create_image
image_ensure c g w h =
    if is_some c.staging.img && (c.staging.img_w == w) && (c.staging.img_h == h)
    then (true, c)
    else create_image (drop_image c) g w h

-- The staging buffer is mapped wherever there is one, and the image has a view.
pub record IsStaged (c : Context) : Type 0 where
  pub mapped : is_some c.staging.buf ≡ true → is_some c.staging.mapped ≡ true
  pub viewed : is_some c.staging.img ≡ true → is_some c.staging.view ≡ true

-- From such a state, where vkMapMemory gives an address, staging_ensure that returns 0 leaves a mapped
-- buffer of at least the size asked for.
pub staging_ensure-mapped :
    (c : Context) (g : Gpu) (n : ℕ)
    → (is_some c.staging.buf ≡ true → is_some c.staging.mapped ≡ true)
    → is_some g.mapped ≡ true
    → (staging_ensure c g n).0 ≡ true
    → (is_some (staging_ensure c g n).1.staging.mapped ≡ true)
      × (n ≤ (staging_ensure c g n).1.staging.size)
unfolding staging_ensure drop_staging create_staging
staging_ensure-mapped c g n h m e = ground (arith, h, m, e)

-- A growth that fails after vkCreateBuffer succeeded keeps the old size: the next request that the
-- old size covers returns 0 at once, with nothing mapped.
pub staging_ensure-stale :
    (c : Context) (g g' : Gpu) (n k b : ℕ)
    → c.staging.size < n
    → k ≤ c.staging.size
    → g.buffer ≡ some b
    → g.buffer_mem ≡ none
    → ((staging_ensure c g n).0 ≡ false)
      × (staging_ensure (staging_ensure c g n).1 g' k ≡ (true, (staging_ensure c g n).1))
      × ((staging_ensure c g n).1.staging.mapped ≡ none)
unfolding staging_ensure drop_staging create_staging
staging_ensure-stale c g g' n k b l s p q =
    elim (Option-cases (find_mem_type g.types g.buffer_bits host_visible)) [
      | inl e ↦ (ground (arith, l, p, e), ground (arith, l, s, p, e), ground (arith, l, p, e))
      | inr (t, e) ↦
          (ground (arith, l, p, q, e), ground (arith, l, s, p, q, e), ground (arith, l, p, q, e))
    ]
