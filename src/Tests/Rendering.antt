-- ===== src/Tests/Rendering.antt =====
-- Runs of the Vulkan back end.
use idk_overlay.Prelude.{
  ℕ, ◌+◌, ◌*◌, ◌≡◌, refl, List, [], ◌∷◌, ◌++◌, true, false, none, some, get_elem?, replicate, arith,
  ◌⊎◌,
}
use idk_overlay.Prelude.Account.{count}
use idk_overlay.Wire.{FrameHeader}
use idk_overlay.Wire.Bytes.{le32}
use idk_overlay.Wire.Delta.{Delta, delta_magic, pack, encode_delta, validate, delta_len, pack_rows}
use idk_overlay.Compositor.{Compositor}
use idk_overlay.Compositor.Cache.{Cache, cache_map, map_file}
use idk_overlay.Compositor.Frames.{account}
use idk_overlay.Render.Ring.{
  Frame, Driver, empty_ring, ring_cooldown_active, ring_submit, ring_shutdown, submit_all,
}
use idk_overlay.Render.Ring.Start.{IsRing, window, cmds}
use idk_overlay.Render.Ring.Window.{push_all, submit_all-window}
use idk_overlay.Render.Ring.Account.{gone, frames_account, handed, submit_all-ring_shutdown}
use idk_overlay.Render.Shader.{detect_gl_version, strip_es, strip, es_plain}
use idk_overlay.Render.Format.{find_mem_type, first_type}
use idk_overlay.Render.Context.{Context, Copy, Tuple}
use idk_overlay.Render.Staging.{Gpu, staging_ensure, staging_ensure-stale}
use idk_overlay.Render.Upload.{File, done, vk_upload_shm_rect}
use idk_overlay.Render.Upload.Rect.{IsReady, vk_upload_shm_rect-pack}
use idk_overlay.Render.Import.{Icd}
use idk_overlay.Render.Receive.{vk_render, overlay_upload}
use idk_overlay.Render.Receive.Ledger.{
  vk_account, vk_render-account, Accounted, overlay_upload-Accounted,
}
use idk_overlay.Render.Draw.{Vk, returned, blocked, render_overlay, draw_locked}
use idk_overlay.Render.Draw.Lock.{render_overlay-lock, render_overlay-cooldown}

abbrev driver : Driver
driver = record {
  fence0 = some 60;
  fence1 = some 61;
  sync_fence = none;
  wait = true;
  reset = true;
  again = none;
  submit = true;
}

abbrev first : Frame
first = record { cmd = 1; fb = 2; view = 3 }

abbrev second : Frame
second = record { cmd = 4; fb = 5; view = 6 }

abbrev third : Frame
third = record { cmd = 7; fb = 8; view = 9 }

empty_ring-IsRing : IsRing empty_ring
empty_ring-IsRing = record { idx_lt = omega arith; fenced = λ e. cc; blank = λ _. (refl, refl) }

abbrev three : List (Driver × Frame)
three = (driver, first) ∷ (record driver { submit = false }, second) ∷ (driver, third) ∷ []

submit_all-window_example :
    window (submit_all empty_ring three) ≡ push_all (window empty_ring) three
submit_all-window_example =
    submit_all-window empty_ring three empty_ring-IsRing (refl, (refl, (refl, tt)))

submit_all-ring_shutdown_example :
    gone 4 (ring_shutdown (submit_all empty_ring three) true).log
    ≡ frames_account 4 empty_ring + count 4 (cmds (handed three))
submit_all-ring_shutdown_example = submit_all-ring_shutdown 4 empty_ring three empty_ring-IsRing

abbrev gpu : Gpu
gpu = record {
  types = 2 ∷ 1 ∷ [];
  buffer = some 50;
  buffer_bits = 3;
  buffer_mem = some 51;
  mapped = some 52;
  image = some 53;
  image_bits = 3;
  image_mem = some 54;
  view = some 55;
  flush = true;
}

abbrev no_cache : Cache
no_cache = record { map = none; size = 0; ino = 0; dev = 0; unmapped = [] }

abbrev no_tuple : Tuple
no_tuple = record { w = 0; h = 0; stride = 0; fourcc = 0; modifier = 0; buf_id = 0 }

-- A back end whose image of 2 x 2 pixels has a baseline.
abbrev pub vk : Context
vk = record {
  drm_vendor = 0;
  props = true;
  overlay = record { img = some 20; view = some 21; w = 2; h = 2; has_frame = true };
  staging = record {
    buf = none;
    mem = none;
    mapped = none;
    size = 0;
    img = some 20;
    img_mem = some 22;
    view = some 21;
    img_w = 2;
    img_h = 2;
    shm_fd = none;
    is_delta = false;
    baseline_valid = true;
    staged = [];
  };
  dmabuf = record {
    fd = none;
    cached = no_tuple;
    img = none;
    img_mem = none;
    view = none;
    pending_fd = some 33;
    pending = no_tuple;
    has_pending = true;
  };
  ring = empty_ring;
  pipeline = none;
  render_pass = none;
  rp_format = 0;
  modules = [];
  failed = false;
  created = record { sec = 10; nsec = 0 };
  locked = false;
  shm_cache = no_cache;
  rect_cache = no_cache;
  trash = record {
    buffers = [];
    memories = [];
    images = [];
    views = [];
    pipelines = [];
    passes = [];
  };
  closed = [];
  copies = [];
}

abbrev corner : Delta
corner = record { magic = delta_magic; x = 1; y = 1; width = 1; height = 1 }

abbrev picture : List ℕ
picture = replicate 15 0 ++ (7 ∷ [])

abbrev packed : File
packed = record {
  stat = some (5, 6);
  total = 24;
  map = some 90;
  bytes =
      (73 ∷ 68 ∷ 82 ∷ 49 ∷ [])
      ++ (1 ∷ 0 ∷ 0 ∷ 0 ∷ [])
      ++ (1 ∷ 0 ∷ 0 ∷ 0 ∷ [])
      ++ (1 ∷ 0 ∷ 0 ∷ 0 ∷ [])
      ++ (1 ∷ 0 ∷ 0 ∷ 0 ∷ [])
      ++ (0 ∷ 0 ∷ 0 ∷ 7 ∷ []);
}

packed_bytes : pack 24 picture 2 2 corner ≡ some packed.bytes
unfolding pack encode_delta le32 pack_rows validate delta_len
packed_bytes = refl

vk-IsReady : IsReady vk gpu 2 2
unfolding find_mem_type first_type
vk-IsReady = record {
  baseline = refl;
  image = refl;
  width = refl;
  height = refl;
  mapped = λ e. cc;
  buffer = refl;
  type = refl;
  memory = refl;
  address = refl;
  flush = refl;
}

abbrev mapped_cache : Cache
mapped_cache = record { map = some 90; size = 24; ino = 5; dev = 6; unmapped = [] }

maps_packed : cache_map no_cache packed.stat packed.total packed.map ≡ (some 90, mapped_cache)
unfolding cache_map map_file
maps_packed = refl

vk_upload_shm_rect-pack_example :
    (c' : Context) × (top : Copy) × (vk_upload_shm_rect vk gpu packed 2 2 ≡ done true c')
    × (c'.copies ≡ top ∷ [])
    × (top.x ≡ 1)
    × (top.y ≡ 1)
    × (top.w ≡ 1)
    × (top.h ≡ 1)
    × (top.discards ≡ false)
    × (get_elem? top.bytes (0 * 4 + 3) ≡ get_elem? picture (((1 + 0) * 2 + 1) * 4 + 3))
vk_upload_shm_rect-pack_example =
    vk_upload_shm_rect-pack vk gpu packed corner 2 2 90 0 3 mapped_cache picture vk-IsReady
      (omega arith) (omega arith) maps_packed packed_bytes (omega arith) refl (omega arith)
      (omega arith)

abbrev icd : Icd
icd = record {
  image = some 70;
  linear = none;
  image_bits = 3;
  fd_bits = some 2;
  types = 2 ∷ 1 ∷ [];
  dup = some 40;
  memory = some 71;
  view = some 72;
}

abbrev plain : FrameHeader
plain = record {
  modifier = 0;
  width = 2;
  height = 2;
  stride = 0;
  fourcc = 0;
  flags = 1;
  nfd = 1;
  buf_id = 0;
}

abbrev comp : Compositor
comp = record {
  inited = true;
  has_frame = true;
  hdr = plain;
  dmabuf_fd = 34 ∷ 35 ∷ [];
  dmabuf_cache_id = 0;
  size = record { w = 2; h = 2; pending = false; since = record { sec = 0; nsec = 0 } };
  last_frame_ts = record { sec = 0; nsec = 0 };
  was_hidden = false;
  closed = [];
}

-- The pending 33 is closed, 34 waits, 35 is surplus.
vk_render-account_example :
    vk_account 33 (vk_render vk comp none).1 + account 33 (vk_render vk comp none).2
    ≡ vk_account 33 vk + account 33 comp
vk_render-account_example = vk_render-account 33 vk comp none

overlay_upload-Accounted_example :
    Accounted 33 (vk_account 33 vk) (overlay_upload vk gpu icd packed)
overlay_upload-Accounted_example =
    overlay_upload-Accounted 33 vk gpu icd packed (λ e. cc) (λ _ e. cc)

abbrev grown : Context
grown = record vk {
  staging = record vk.staging { buf = some 80; mem = some 81; mapped = some 82; size = 16 };
}

staging_ensure-stale_example :
    ((staging_ensure grown (record gpu { buffer_mem = none }) 64).0 ≡ false)
    × (staging_ensure (staging_ensure grown (record gpu { buffer_mem = none }) 64).1 gpu 16
        ≡ (true, (staging_ensure grown (record gpu { buffer_mem = none }) 64).1))
    × ((staging_ensure grown (record gpu { buffer_mem = none }) 64).1.staging.mapped ≡ none)
staging_ensure-stale_example =
    staging_ensure-stale grown (record gpu { buffer_mem = none }) gpu 64 16 50 (omega arith)
      (omega arith) refl refl

-- 50 ms after the swapchain was created
abbrev pub soon : Vk
soon = record {
  now = record { sec = 10; nsec = 50000000 };
  pass = some 100;
  vert = some 101;
  frag = some 102;
  pipe = some 103;
  cmd = some 104;
  begun = true;
  view = some 105;
  fb = some 106;
  gpu = gpu;
  icd = icd;
  file = packed;
  driver = driver;
}

soon_cools : ring_cooldown_active vk.created soon.now ≡ true
unfolding ring_cooldown_active
soon_cools = refl

abbrev stuck : Context
stuck = record vk { locked = true }

returns_stuck : render_overlay vk soon true 44 ≡ returned stuck
unfolding render_overlay draw_locked ring_cooldown_active
returns_stuck = refl

render_overlay-lock_example :
    ((true ≡ false) × (f : Frame) × (stuck.ring ≡ (ring_submit vk.ring soon.driver f).1))
    ⊎ ((stuck.ring ≡ vk.ring) × (render_overlay stuck soon true 44 ≡ blocked))
render_overlay-lock_example = render_overlay-lock vk stuck soon soon 44 44 refl refl returns_stuck

render_overlay-cooldown_example :
    (c' : Context) × (render_overlay vk soon true 44 ≡ returned c')
    × (render_overlay c' soon true 44 ≡ blocked)
render_overlay-cooldown_example = render_overlay-cooldown vk soon soon 44 44 refl refl soon_cools

-- "OpenGL ES 3.2", of which sscanf reads 3 and 2
detects : detect_gl_version (λ s. (3, 2)) (some (es_plain ++ (51 ∷ 46 ∷ 50 ∷ []))) ≡ (320, true)
unfolding detect_gl_version strip_es strip
detects = refl
