-- ===== src/Render/Upload.antt =====
-- src/core/render/vk/upload.c: the upload of a frame in shared memory, whole or as one rectangle.
pub mod Rect
use idk_overlay.Prelude.{
  ℕ, ◌+◌, ◌-◌, ◌*◌, ◌%◌, ◌^◌, List, [], ◌∷◌, ◌++◌, Bool, true, false, not, ◌&&◌, ◌||◌, Option, none,
  some, is_some, ltb, ◌==◌, if◌then◌else◌, length, take, drop,
}
use idk_overlay.Wire.Bytes.{of_le32}
use idk_overlay.Wire.Delta.{Delta, delta_size, validate}
use idk_overlay.Compositor.Cache.{Cache, cache_map}
use idk_overlay.Render.Context.{Context, Copy}
use idk_overlay.Render.Staging.{Gpu, staging_ensure, image_ensure}

-- A file of shared memory: what fstat(2), lseek(2) and mmap(2) say of it, and what its mapping shows.
pub record File : Type 0 where
  pub stat : Option (ℕ × ℕ)
  pub total : ℕ
  pub map : Option ℕ
  pub bytes : List ℕ

-- How an upload ends: it returns 0 or -1, or its memcpy writes through a null pointer, since
-- the staging buffer is not mapped.
pub data Upload : Type 0 where
  done : Bool → Context → Upload
  fault : Upload

-- memcpy to the start of the staging buffer
unfoldable pub fill : List ℕ → Context → Context
fill bytes c = record c {
  staging = record c.staging { staged = bytes ++ drop (length bytes) c.staging.staged };
}

-- copy_buf_to_img, or the barriers and the copy of vk_upload_shm_rect: a barrier from the layout
-- UNDEFINED lets the contents of the image go. The copy takes the start of the buffer.
unfoldable pub record_copy : ℕ → ℕ → ℕ → ℕ → Bool → Context → Context
record_copy x y w h discards c = record c {
  copies =
      record {
        x = x;
        y = y;
        w = w;
        h = h;
        bytes = take (w * h * 4) c.staging.staged;
        discards = discards;
      }
      ∷ c.copies;
}

-- The overlay shows the staging image.
unfoldable pub show_staging : Context → Context
show_staging c = record c {
  overlay = record c.overlay { img = c.staging.img; view = c.staging.view };
}

-- The end of vk_upload_shm, after the memcpy
unfoldable pub finish_shm : Bool × Context → ℕ → ℕ → Upload
unfolding record_copy show_staging
finish_shm (false, c) w h = done false c
finish_shm (true, c) w h =
    let c' = show_staging (record_copy 0 0 w h true c) in
    done true (record c' { staging = record c'.staging { baseline_valid = true } })

-- vk_upload_shm from staging_ensure on; `offset` is the place in the mapping. The mapping's size is not
-- looked at: the bytes that a shorter mapping does not show are missing from what is copied.
unfoldable pub stage_shm : Bool × Context → Gpu → File → ℕ → ℕ → ℕ → ℕ → Upload
unfolding fill finish_shm
stage_shm (false, c) g file w h n offset = done false c
stage_shm (true, c) g file w h n offset =
    if not (is_some c.staging.mapped)
    then fault
    else finish_shm (image_ensure (fill (take n (drop offset file.bytes)) c) g w h) w h

-- vk_upload_shm
unfoldable pub vk_upload_shm : Context → Gpu → File → ℕ → ℕ → ℕ → ℕ → Upload
unfolding stage_shm
vk_upload_shm c g file w h n buf_idx =
    if not c.props
    then done false c
    else (let (m, k) = cache_map c.shm_cache file.stat file.total file.map in
        let c1 = record c { shm_cache = k } in
        if is_some m
        then stage_shm (staging_ensure c1 g n) g file w h n ((buf_idx * n) % 2 ^ 32)
        else done false c1)

-- memcpy of the header: five little-endian words
unfoldable pub decode_delta : List ℕ → Delta
unfolding of_le32
decode_delta
      (a0 ∷ a1 ∷ a2 ∷ a3 ∷ b0 ∷ b1 ∷ b2 ∷ b3 ∷ c0 ∷ c1 ∷ c2 ∷ c3 ∷ d0 ∷ d1 ∷ d2 ∷ d3 ∷ e0 ∷ e1 ∷ e2
        ∷ e3 ∷ _) =
    record {
      magic = of_le32 a0 a1 a2 a3;
      x = of_le32 b0 b1 b2 b3;
      y = of_le32 c0 c1 c2 c3;
      width = of_le32 d0 d1 d2 d3;
      height = of_le32 e0 e1 e2 e3;
    }
decode_delta _ = record { magic = 0; x = 0; y = 0; width = 0; height = 0 }

-- vk_upload_shm_rect from staging_ensure on; `n` is `bytes`.
unfoldable pub stage_rect : Bool × Context → Gpu → File → Delta → ℕ → Upload
unfolding fill record_copy show_staging
stage_rect (false, c) g file r n = done false c
stage_rect (true, c) g file r n =
    if not (is_some c.staging.mapped)
    then fault
    else (let c1 = fill (take n (drop delta_size file.bytes)) c in
        if g.flush
        then done true (show_staging (record_copy r.x r.y r.width r.height false c1))
        else done false c1)

-- vk_upload_shm_rect
unfoldable pub vk_upload_shm_rect : Context → Gpu → File → ℕ → ℕ → Upload
unfolding stage_rect decode_delta
vk_upload_shm_rect c g file w h =
    if not c.staging.baseline_valid
      || not (is_some c.staging.img)
      || not (c.staging.img_w == w)
      || not (c.staging.img_h == h)
    then done false c
    else (let (m, k) = cache_map c.rect_cache file.stat file.total file.map in
        let c1 = record c { rect_cache = k } in
        if not (is_some m)
          || ltb k.size delta_size
          || not (validate (decode_delta file.bytes) w h k.size)
        then done false c1
        else stage_rect (staging_ensure c1 g (k.size - delta_size)) g file (decode_delta file.bytes)
            (k.size - delta_size))
