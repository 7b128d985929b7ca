-- ===== src/Render/Upload/Rect.antt =====
-- A rectangle from idk_shm_delta_pack in the webview to the copy that vk_upload_shm_rect records.
use idk_overlay.Prelude.{
  ℕ, ◌+◌, ◌-◌, ◌*◌, ◌/◌, ◌%◌, ◌^◌, ◌≤◌, ◌<◌, ◌≡◌, refl, sym, ap, ◌∙◌, List, ◌∷◌, ◌++◌, true, false,
  some, is_some, length, take, drop, get_elem?, get_elem?-append_right, take-append, take-length,
  drop-append, arith,
}
use native.Mathlib.Nat.{mul_comm, mul_assoc}
use idk_overlay.Wire.Bytes.{le32, of_le32}
use idk_overlay.Wire.Delta.{
  Delta, delta_size, validate, wrap64, pack, pack_rows, encode_delta, pack-pixels, pack-cases,
  validate-IsInside, delta_len-exact,
}
use idk_overlay.Compositor.Cache.{Cache, cache_map}
use idk_overlay.Render.Context.{Context, Copy}
use idk_overlay.Render.Format.{find_mem_type, host_visible}
use idk_overlay.Render.Staging.{Gpu, staging_ensure, drop_staging, create_staging}
use idk_overlay.Render.Upload.{
  File, done, fill, record_copy, show_staging, decode_delta, stage_rect, vk_upload_shm_rect,
}

le32-word :
    (n : ℕ)
    → n < 2 ^ 32
    → of_le32 (n % 256) ((n / 256) % 256) ((n / 65536) % 256) ((n / 16777216) % 256) ≡ n
unfolding of_le32
le32-word n h = omega arith

-- The header is read back.
decode_delta-encode_delta :
    (r : Delta) (body : List ℕ)
    → r.magic < 2 ^ 32
    → r.x < 2 ^ 32
    → r.y < 2 ^ 32
    → r.width < 2 ^ 32
    → r.height < 2 ^ 32
    → decode_delta (encode_delta r ++ body) ≡ r
unfolding decode_delta encode_delta le32
decode_delta-encode_delta r body m a b c d = λ i. record {
  magic = le32-word r.magic m i;
  x = le32-word r.x a i;
  y = le32-word r.y b i;
  width = le32-word r.width c i;
  height = le32-word r.height d i;
}

-- The image has a baseline of the canvas's size, and Vulkan gives a mapped staging buffer.
pub record IsReady (c : Context) (g : Gpu) (w h : ℕ) : Type 0 where
  pub baseline : c.staging.baseline_valid ≡ true
  pub image : is_some c.staging.img ≡ true
  pub width : c.staging.img_w ≡ w
  pub height : c.staging.img_h ≡ h
  pub mapped : is_some c.staging.buf ≡ true → is_some c.staging.mapped ≡ true
  pub buffer : is_some g.buffer ≡ true
  pub type : is_some (find_mem_type g.types g.buffer_bits host_visible) ≡ true
  pub memory : is_some g.buffer_mem ≡ true
  pub address : is_some g.mapped ≡ true
  pub flush : g.flush ≡ true

staging_ensure-ready :
    (c : Context) (g : Gpu) (w h n : ℕ)
    → IsReady c g w h
    → (c' : Context) × (staging_ensure c g n ≡ (true, c'))
      × (is_some c'.staging.mapped ≡ true)
      × (c'.copies ≡ c.copies)
unfolding staging_ensure drop_staging create_staging
staging_ensure-ready c g w h n r = (
  (staging_ensure c g n).1,
  ground (arith, r.buffer, r.type, r.memory),
  ground (arith, r.buffer, r.type, r.memory, r.address, r.mapped),
  ground (arith, r.buffer, r.type, r.memory),
)

-- What a staged rectangle becomes: the copy of its bytes, over an image that keeps the rest.
stage_rect-copies :
    (c : Context) (g : Gpu) (file : File) (r : Delta) (head body : List ℕ)
    → is_some c.staging.mapped ≡ true
    → g.flush ≡ true
    → file.bytes ≡ head ++ body
    → length head ≡ delta_size
    → length body ≡ r.width * r.height * 4
    → (c' : Context) × (stage_rect (true, c) g file r (length body) ≡ done true c')
      × (c'.copies
          ≡ record { x = r.x; y = r.y; w = r.width; h = r.height; bytes = body; discards = false }
            ∷ c.copies)
unfolding stage_rect fill record_copy show_staging
stage_rect-copies c g file r head body m f e l n = (
  show_staging (record_copy r.x r.y r.width r.height false (fill chunk c)),
  ground (arith, m, f),
  ap
      (λ b.
        record { x = r.x; y = r.y; w = r.width; h = r.height; bytes = b; discards = false }
        ∷ c.copies)
      (ap (λ b. take (r.width * r.height * 4) (b ++ drop (length b) c.staging.staged)) chunk_body
        ∙ take-append (r.width * r.height * 4) body (drop (length body) c.staging.staged) n),
)
  where
    chunk : List ℕ
    chunk = take (length body) (drop delta_size file.bytes)

    chunk_body : chunk ≡ body
    chunk_body =
        ap (λ b. take (length body) (drop delta_size b)) e
        ∙ ap (take (length body)) (drop-append delta_size head body l)
        ∙ take-length body

IsReady-cache :
    (c : Context) (g : Gpu) (w h : ℕ) (k : Cache)
    → IsReady c g w h
    → IsReady (record c { rect_cache = k }) g w h
IsReady-cache c g w h k i = record {
  baseline = i.baseline;
  image = i.image;
  width = i.width;
  height = i.height;
  mapped = i.mapped;
  buffer = i.buffer;
  type = i.type;
  memory = i.memory;
  address = i.address;
  flush = i.flush;
}

-- The steps of vk_upload_shm_rect before the staging, where the mapping has an accepted header.
rect-accepts :
    (c : Context) (g : Gpu) (file : File) (w h a : ℕ) (k : Cache) (r : Delta)
    → IsReady c g w h
    → cache_map c.rect_cache file.stat file.total file.map ≡ (some a, k)
    → delta_size ≤ k.size
    → decode_delta file.bytes ≡ r
    → validate r w h k.size ≡ true
    → vk_upload_shm_rect c g file w h
      ≡ stage_rect
          (staging_ensure (record c { rect_cache = k }) g (k.size - delta_size))
          g
          file
          r
          (k.size - delta_size)
unfolding vk_upload_shm_rect
rect-accepts c g file w h a k r i e l d v =
    ground (arith, i.baseline, i.image, i.width, i.height, e, l, d, v)

-- How many bytes a packed rectangle has.
pack-size :
    (r : Delta) (w h size m j : ℕ) (source : List ℕ)
    → validate r w h size ≡ true
    → w * h * 4 + delta_size < wrap64
    → length source ≡ w * h * 4
    → m < r.height
    → j < r.width * 4
    → (length (pack_rows r.height r.y r w source) ≡ r.width * r.height * 4)
      × (size ≡ delta_size + length (pack_rows r.height r.y r w source))
unfolding encode_delta le32
pack-size r w h size m j source v small len hm hj =
    let (inside, total) = (validate-IsInside r w h size).0 v in
    let exact = delta_len-exact r w h inside small in
    let (o, packed, long, _) = pack-pixels r w h size m j source v small len hm hj in
    let (_, out) = pack-cases r w h size source o packed in
    let sized = ap length (sym out) ∙ long in
    (
      omega (
        arith,
        sized,
        exact,
        total,
        sym (mul_assoc r.height r.width 4),
        mul_comm r.height r.width,
      ),
      omega (arith, sized),
    )

-- A rectangle of a canvas that the webview packed, uploaded over an image of the canvas's size:
-- where Vulkan gives a mapped staging buffer, the upload succeeds with one copy, to the rectangle's
-- place, of bytes of which byte `j` of row `m` is that of the canvas there; and the barrier before it
-- keeps the rest of the image.
pub vk_upload_shm_rect-pack :
    (c : Context) (g : Gpu) (file : File) (r : Delta) (w h a m j : ℕ) (k : Cache) (source : List ℕ)
    → IsReady c g w h
    → w < 2 ^ 32
    → h < 2 ^ 32
    → cache_map c.rect_cache file.stat file.total file.map ≡ (some a, k)
    → pack k.size source w h r ≡ some file.bytes
    → w * h * 4 + delta_size < wrap64
    → length source ≡ w * h * 4
    → m < r.height
    → j < r.width * 4
    → (c' : Context) × (top : Copy) × (vk_upload_shm_rect c g file w h ≡ done true c')
      × (c'.copies ≡ top ∷ c.copies)
      × (top.x ≡ r.x)
      × (top.y ≡ r.y)
      × (top.w ≡ r.width)
      × (top.h ≡ r.height)
      × (top.discards ≡ false)
      × (get_elem? top.bytes (m * (r.width * 4) + j)
          ≡ get_elem? source (((r.y + m) * w + r.x) * 4 + j))
unfolding encode_delta le32
vk_upload_shm_rect-pack c g file r w h a m j k source i wl hl e p small len hm hj =
    let (v, out) = pack-cases r w h k.size source file.bytes p in
    let (inside, _) = (validate-IsInside r w h k.size).0 v in
    let (_, packed, _, pixel) = pack-pixels r w h k.size m j source v small len hm hj in
    let (_, out') = pack-cases r w h k.size source _ packed in
    let (area, sized) = pack-size r w h k.size m j source v small len hm hj in
    let (c1, ensured, mapped, same) =
      staging_ensure-ready (record c { rect_cache = k }) g w h (k.size - delta_size)
        (IsReady-cache c g w h k i) in
    let (c2, staged, copied) =
      stage_rect-copies c1 g file r (encode_delta r) body mapped i.flush out refl area in
    let header =
      decode_delta-encode_delta r body (omega (arith, inside)) (omega (arith, inside, wl))
        (omega (arith, inside, hl)) (omega (arith, inside, wl)) (omega (arith, inside, hl)) in
    (
      c2,
      top,
      (rect-accepts c g file w h a k r i e (omega (arith, sized)) (ap decode_delta out ∙ header) v
          ∙ ap (λ x. stage_rect x g file r (k.size - delta_size)) ensured
          ∙ ap (stage_rect (true, c1) g file r) (omega (arith, sized))
          ∙ staged),
      copied ∙ ap (λ cs. top ∷ cs) same,
      refl,
      refl,
      refl,
      refl,
      refl,
      (sym (get_elem?-append_right (encode_delta r) body delta_size (m * (r.width * 4) + j) refl)
          ∙ ap (λ b. get_elem? b (delta_size + (m * (r.width * 4) + j))) (sym out')
          ∙ pixel),
    )
  where
    body : List ℕ
    body = pack_rows r.height r.y r w source

    top : Copy
    top = record { x = r.x; y = r.y; w = r.width; h = r.height; bytes = body; discards = false }
