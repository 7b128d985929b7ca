-- ===== src/Tests/Webview.antt =====
-- Runs of the webview that renders with Chromium's embedding framework.
use idk_overlay.Prelude.{
  ℕ, zero, suc, ◌+◌, ◌-◌, ◌*◌, ◌≤◌, ◌<◌, ◌≡◌, ◌↔◌, refl, List, [], ◌∷◌, ◌++◌, true, false, none,
  some, inl, inr, length, get_elem?, replicate, arith,
}
use idk_overlay.Prelude.Int.{pos, negsuc}
use idk_overlay.Wire.{Ack}
use idk_overlay.Wire.Bytes.{le32}
use idk_overlay.Wire.Delta.{
  Delta, delta_magic, IsInside, validate, delta_len, pack, pack_rows, encode_delta,
}
use idk_overlay.Webview.Patch.{splice, patch_rows}
use idk_overlay.Webview.Patch.Rows.{byte}
use idk_overlay.Webview.Format.{bgra, to_gl_rgba, flip_rows, convert, swap_row, to_gl_y}
use idk_overlay.Webview.Format.Rows.{channel}
use idk_overlay.Webview.Format.Pixels.{to_gl_rgba-pixel}
use idk_overlay.Webview.Difference.{unchanged, find_delta, choose, scan_rows, scan_row, same, widen}
use idk_overlay.Webview.Difference.Replay.{find_delta-unchanged, find_delta-replay}
use idk_overlay.Webview.Damage.{Rect, choose_shm_roi, merge_rects, merge_rect, roi_of}
use idk_overlay.Webview.Damage.Replay.{IsDamage}
use idk_overlay.Webview.View.{
  View, Answers, PaintInfo, gpu, empty, pixels, owned_gpu, shm_frame, staged_frame,
}
use idk_overlay.Webview.View.Shm.{
  send_shm_pixels, pick_roi, verified_roi, dirty_roi, roi_size, payload, ship, note_shm,
  next_shadow,
}
use idk_overlay.Webview.View.Staging.{held_by}
use idk_overlay.Webview.View.Paint.{send_deferred_pixels, send_delta, after_pixels, clear_deferred}
use idk_overlay.Webview.View.Pacing.{poll_socket}
use idk_overlay.Webview.View.Run.{
  Event, accelerated_paint, connect, poll, visible, run, requests, settled,
}
use idk_overlay.Webview.View.Run.Spend.{bit}
use idk_overlay.Webview.View.Run.Requests.{run-requests}
use idk_overlay.Webview.View.Run.Inflight.{run-inflight}
use idk_overlay.Webview.View.Canvas.{Canvas, shown, canvas, write_rows}
use idk_overlay.Webview.View.Canvas.Deferred.{send_deferred_pixels-exact, send_shm_pixels-exact}
use idk_overlay.Webview.View.Stuck.{poll_socket-stuck}

-- Canvases of two times two pixels, of which one pixel differs.
abbrev dark : List ℕ
dark = replicate 16 0

abbrev spot : List ℕ
spot = 1 ∷ 2 ∷ 3 ∷ 4 ∷ replicate 12 0

abbrev corner : Delta
corner = record { magic = delta_magic; x = 0; y = 0; width = 1; height = 1 }

find_delta-replay_example :
    IsInside corner 2 2
    × (corner.width * corner.height * 2 < 2 * 2)
    × (patch_rows corner.height corner.y corner 2 spot dark ≡ spot)
unfolding find_delta choose scan_rows scan_row same widen
find_delta-replay_example =
    find_delta-replay spot dark 2 2 corner (omega arith, omega arith, refl, refl, omega arith) refl

find_delta-unchanged_example : (find_delta spot dark 2 2 ≡ unchanged) ↔ (spot ≡ dark)
find_delta-unchanged_example =
    find_delta-unchanged spot dark 2 2 (omega arith, omega arith, refl, refl, omega arith)

abbrev bgra_rows : List ℕ
bgra_rows = 1 ∷ 2 ∷ 3 ∷ 4 ∷ 5 ∷ 6 ∷ 7 ∷ 8 ∷ []

abbrev gl_rows : List ℕ
gl_rows = 7 ∷ 6 ∷ 5 ∷ 8 ∷ 3 ∷ 2 ∷ 1 ∷ 4 ∷ []

-- Red, the third byte of the source's first row, is the first byte of the result's last row.
to_gl_rgba-pixel_example :
    get_elem? gl_rows (byte 1 (2 - 1 - 0) 0 0)
    ≡ get_elem? bgra_rows (0 * 4 + (0 * 4 + channel bgra 0))
unfolding to_gl_rgba flip_rows convert swap_row splice
to_gl_rgba-pixel_example =
    to_gl_rgba-pixel bgra bgra_rows gl_rows 4 1 2 0 0 0 refl (omega arith) (omega arith)
      (omega arith) (omega arith)

abbrev fresh : View
fresh = record {
  browser = true;
  input = true;
  connected = true;
  connect_attempts = 0;
  quit = false;
  render_w = 2;
  render_h = 2;
  use_dmabuf = true;
  dmabuf_failed = false;
  dmabuf_reject_count = 0;
  pending = false;
  visible = true;
  request_credit = false;
  needs_full_update = true;
  capture_counter_valid = false;
  staged_send = false;
  deferred_kind = empty;
  deferred_pixels = [];
  deferred_w = 0;
  deferred_h = 0;
  deferred_gpu_ptr = none;
  gpu_inflight = none;
  gpu_last_acked = none;
  gpu_last_w = 0;
  gpu_last_h = 0;
  dropped_since_send = false;
  sent_w = 0;
  sent_h = 0;
  shm_roi_enabled = true;
  shm_baseline_valid = false;
  last_sent_shm = false;
  shm_shadow = [];
  shm_shadow_w = 0;
  shm_shadow_h = 0;
  last_capture_counter = 0;
  page_ready = true;
  capture = false;
  js_capture = false;
  js_visible = true;
  gpu_held = [];
  deferred_held = [];
  sent = [];
  begin_frames = 0;
  js = [];
  resized = 0;
}

abbrev willing : Answers
willing = record {
  created = true;
  sized = true;
  mapped = true;
  shm_sent = true;
  blit = true;
  holds = λ whole. 9 ∷ [];
  dup = true;
  dma_sent = true;
  readback = none;
}

-- The dark canvas was accepted, and the spot is deferred.
abbrev deferring : View
deferring = record fresh {
  request_credit = true;
  deferred_kind = pixels;
  deferred_pixels = spot;
  deferred_w = 2;
  deferred_h = 2;
  shm_baseline_valid = true;
  last_sent_shm = true;
  shm_shadow = dark;
  shm_shadow_w = 2;
  shm_shadow_h = 2;
}

abbrev image : List ℕ → Canvas
image bytes = record { w = 2; h = 2; bytes = bytes }

abbrev packed : List ℕ
packed = encode_delta corner ++ (1 ∷ 2 ∷ 3 ∷ 4 ∷ [])

send_deferred_pixels-exact_example : image spot ≡ canvas 2 2 spot
unfolding send_deferred_pixels send_delta after_pixels clear_deferred find_delta choose scan_rows
    scan_row same widen send_shm_pixels pick_roi verified_roi dirty_roi roi_size payload ship
    note_shm next_shadow validate delta_len pack pack_rows encode_delta le32 shown write_rows splice
    patch_rows
send_deferred_pixels-exact_example =
    send_deferred_pixels-exact willing deferring (some (image dark)) (image spot)
      (shm_frame 2 2 (some corner) packed) refl refl (omega arith) (omega arith) (omega arith) refl
      (inr (inr (refl, refl))) refl refl

-- A top-left rectangle, which is the lower half of the rows of the transport.
abbrev top_left : List Rect
top_left = record { x = negsuc 0; y = pos 0; width = 2; height = 1 } ∷ []

abbrev painted : List ℕ
painted = replicate 8 0 ++ (1 ∷ 2 ∷ 3 ∷ 4 ∷ replicate 4 0)

abbrev low : Delta
low = record { magic = delta_magic; x = 0; y = 1; width = 1; height = 1 }

choose_run : choose_shm_roi top_left 2 2 ≡ some low
unfolding choose_shm_roi merge_rects merge_rect roi_of to_gl_y
choose_run = refl

-- The canvases differ inside the rectangle only.
painted-IsDamage : IsDamage top_left painted dark 2 2
painted-IsDamage zero zero zero ha hb hc = inr refl
painted-IsDamage zero zero (suc zero) ha hb hc = inr refl
painted-IsDamage zero zero (suc (suc zero)) ha hb hc = inr refl
painted-IsDamage zero zero (suc (suc (suc zero))) ha hb hc = inr refl
painted-IsDamage zero (suc zero) zero ha hb hc = inr refl
painted-IsDamage zero (suc zero) (suc zero) ha hb hc = inr refl
painted-IsDamage zero (suc zero) (suc (suc zero)) ha hb hc = inr refl
painted-IsDamage zero (suc zero) (suc (suc (suc zero))) ha hb hc = inr refl
painted-IsDamage (suc zero) (suc zero) zero ha hb hc = inr refl
painted-IsDamage (suc zero) (suc zero) (suc zero) ha hb hc = inr refl
painted-IsDamage (suc zero) (suc zero) (suc (suc zero)) ha hb hc = inr refl
painted-IsDamage (suc zero) (suc zero) (suc (suc (suc zero))) ha hb hc = inr refl
painted-IsDamage (suc zero) zero c ha hb hc =
    inl (inl (omega arith, omega arith, omega arith, omega arith))
painted-IsDamage (suc (suc a)) b c ha hb hc = absurd (omega (arith, ha))
painted-IsDamage zero (suc (suc b)) c ha hb hc = absurd (omega (arith, hb))
painted-IsDamage (suc zero) (suc (suc b)) c ha hb hc = absurd (omega (arith, hb))
painted-IsDamage zero zero (suc (suc (suc (suc c)))) ha hb hc = absurd (omega (arith, hc))
painted-IsDamage zero (suc zero) (suc (suc (suc (suc c)))) ha hb hc = absurd (omega (arith, hc))
painted-IsDamage (suc zero) (suc zero) (suc (suc (suc (suc c)))) ha hb hc =
    absurd (omega (arith, hc))

abbrev painting : View
painting = record deferring {
  needs_full_update = false;
  deferred_kind = empty;
  deferred_pixels = [];
}

abbrev packed_low : List ℕ
packed_low = encode_delta low ++ (1 ∷ 2 ∷ 3 ∷ 4 ∷ [])

send_shm_pixels-exact_example : image painted ≡ canvas 2 2 painted
unfolding send_shm_pixels pick_roi verified_roi dirty_roi choose_shm_roi merge_rects merge_rect
    roi_of to_gl_y roi_size payload ship note_shm next_shadow validate delta_len pack pack_rows
    encode_delta le32 shown write_rows splice patch_rows
send_shm_pixels-exact_example =
    send_shm_pixels-exact painted 2 2 top_left willing painting (some (image dark)) (image painted)
      (shm_frame 2 2 (some low) packed_low) refl refl
      (omega arith, omega arith, refl, refl, omega arith) painted-IsDamage (inr (inr (refl, refl)))
      refl refl

abbrev info : PaintInfo
info = record {
  width = 2;
  height = 2;
  visible_x = 0;
  visible_y = 0;
  coded_w = 2;
  coded_h = 2;
  plane_count = 1;
  stride = 8;
  size = 16;
  modifier = 0;
  channels = bgra;
  map = none;
  has_counter = true;
  counter = 5;
  has_update_rect = false;
  update_w = 0;
  update_h = 0;
  dirty = [];
}

abbrev events : List Event
events =
    poll none (0 ∷ []) true willing willing
    ∷ accelerated_paint info willing
    ∷ accelerated_paint info willing
    ∷ visible false
    ∷ poll (some (record { code = 0; w = 2; h = 2 })) (0 ∷ 0 ∷ []) true willing willing
    ∷ visible true
    ∷ poll none (0 ∷ []) true willing willing
    ∷ []

run-requests_example :
    (length (run events fresh).sent + bit (run events fresh).request_credit
      ≤ length fresh.sent + bit fresh.request_credit + requests events)
    × (length (run events fresh).sent + bit fresh.pending
        ≤ length fresh.sent + bit (run events fresh).pending + settled events)
run-requests_example = run-requests events fresh

-- A frame of the first staging buffer waits.
abbrev flying : View
flying = record fresh {
  pending = true;
  gpu_inflight = some gpu;
  gpu_held = 3 ∷ [];
  sent_w = 2;
  sent_h = 2;
  sent = staged_frame gpu 2 2 ∷ [];
}

-- A capture comes while it waits.
abbrev calls : List Event
calls =
    accelerated_paint info willing
    ∷ visible false
    ∷ visible true
    ∷ poll none (0 ∷ []) true willing willing
    ∷ connect true true
    ∷ []

run-inflight_example :
    ((run calls flying).pending ≡ true)
    × ((run calls flying).gpu_inflight ≡ some gpu)
    × (held_by gpu (run calls flying) ≡ held_by gpu flying)
unfolding settled
run-inflight_example = run-inflight calls gpu flying refl refl refl refl

abbrev refusal : Ack
refusal = record { code = 1; w = 0; h = 0 }

-- DMA-BUFs were refused too often, and the refused frame cannot be read back.
abbrev frozen : View
frozen = record fresh {
  dmabuf_failed = true;
  deferred_kind = owned_gpu;
  deferred_gpu_ptr = some gpu;
  deferred_w = 2;
  deferred_h = 2;
}

poll_socket-stuck_example :
    ((poll_socket none (0 ∷ []) true willing willing frozen).sent ≡ frozen.sent)
    × ((poll_socket none (0 ∷ []) true willing willing frozen).begin_frames ≡ frozen.begin_frames)
    × ((poll_socket none (0 ∷ []) true willing willing frozen).deferred_kind ≡ owned_gpu)
poll_socket-stuck_example =
    poll_socket-stuck none (0 ∷ []) true willing willing frozen refl refl refl refl
