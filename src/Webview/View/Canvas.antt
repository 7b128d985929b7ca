-- ===== src/Webview/View/Canvas.antt =====
-- src/cli/webview_cef/view.cc with the consumers' uploads (core/render/gl/tex.c, core/render/vk/upload.c):
-- the canvas that the game shows after it accepted a frame from memory.
pub mod Exact
pub mod Deferred
use idk_overlay.Prelude.{
  ℕ, zero, suc, ◌+◌, ◌-◌, ◌*◌, ◌%◌, ◌≤◌, ◌<◌, ◌≡◌, refl, sym, ap, subst, ◌∙◌, List, [], ◌∷◌, ◌++◌,
  Bool, true, false, not, ◌&&◌, ◌||◌, ◌⊎◌, inl, inr, Option, none, some, ltb, ◌==◌, if◌then◌else◌,
  length, take, drop, take-append, drop-append, length-append, Bool-cases, Option-cases, arith,
}
use idk_overlay.Wire.Delta.{
  Delta, delta_size, wrap64, IsInside, validate, validate-IsInside, encode_delta, pack, pack_rows,
  pack-cases,
}
use idk_overlay.Webview.Patch.{splice, length-splice, patch_rows}
use idk_overlay.Webview.Patch.Rows.{row_bytes}
use idk_overlay.Webview.View.{View, Answers, Sent, shm_frame, staged_frame, forwarded_frame}
use idk_overlay.Webview.View.Shm.{roi_size, payload, next_shadow}

-- What the game shows: an image of RGBA pixels.
pub record Canvas : Type 0 where
  pub w : ℕ
  pub h : ℕ
  pub bytes : List ℕ

-- The rows of an uploaded rectangle, from row `y` of the image on.
unfoldable pub write_rows : ℕ → ℕ → Delta → ℕ → List ℕ → List ℕ → List ℕ
unfolding splice
write_rows zero y r w body image = image
write_rows (suc n) y r w body image =
    write_rows n (suc y) r w (drop (r.width * 4) body)
      (splice ((y * w + r.x) * 4) (take (r.width * 4) body) image)

-- What the game shows after it accepted a frame from memory: a full frame replaces the image, and
-- a rectangle is accepted over an image of the frame's size only. Other frames show no such image.
unfoldable pub shown : Sent → Option Canvas → Option Canvas
unfolding write_rows
shown (shm_frame w h none bytes) c = some (record { w = w; h = h; bytes = bytes })
shown (shm_frame w h (some r) bytes) none = none
shown (shm_frame w h (some r) bytes) (some k) =
    if (k.w == w) && (k.h == h)
    then some (record {
      w = w;
      h = h;
      bytes = write_rows r.height r.y r w (drop delta_size bytes) k.bytes;
    })
    else none
shown (staged_frame b w h) c = none
shown (forwarded_frame w h) c = none

-- The rows that idk_shm_delta_pack packed, written to the image, are the canvas's rows.
pub write_rows-pack_rows :
    (n y w h : ℕ) (r : Delta) (px image : List ℕ)
    → length px ≡ w * h * 4
    → r.x + r.width ≤ w
    → y + n ≤ h
    → write_rows n y r w (pack_rows n y r w px) image ≡ patch_rows n y r w px image
unfolding write_rows pack_rows patch_rows
write_rows-pack_rows zero y w h r px image e i l = refl
write_rows-pack_rows (suc n) y w h r px image e i l =
    ap
      (λ b.
        write_rows n (suc y) r w b
          (splice ((y * w + r.x) * 4) (take (r.width * 4) (row ++ rest)) image))
      (drop-append (r.width * 4) row rest long)
    ∙ ap (λ b. write_rows n (suc y) r w rest (splice ((y * w + r.x) * 4) b image))
        (take-append (r.width * 4) row rest long)
    ∙ write_rows-pack_rows n (suc y) w h r px (splice ((y * w + r.x) * 4) row image) e i
        (omega (arith, l))
  where
    row : List ℕ
    row = take (r.width * 4) (drop ((y * w + r.x) * 4) px)

    rest : List ℕ
    rest = pack_rows n (suc y) r w px

    long : length row ≡ r.width * 4
    long = (row_bytes y w h r.x r.width px e (omega (arith, l)) i).0

-- The image that a view takes the game to show: its shadow, where it has a baseline at all.
abbrev pub IsBaseline : View → Option Canvas → Type 0
IsBaseline v c =
    (v.shm_baseline_valid ≡ false)
    ⊎ ((c ≡ none)
        ⊎ ((c ≡ some (record { w = v.shm_shadow_w; h = v.shm_shadow_h; bytes = v.shm_shadow }))
            × (length v.shm_shadow ≡ v.shm_shadow_w * v.shm_shadow_h * 4)))

unfoldable pub canvas : ℕ → ℕ → List ℕ → Canvas
canvas w h bytes = record { w = w; h = h; bytes = bytes }

pub shown-full :
    (w h : ℕ) (bytes : List ℕ) (c : Option Canvas) (k : Canvas)
    → shown (shm_frame w h none bytes) c ≡ some k
    → k ≡ canvas w h bytes
unfolding shown canvas
shown-full w h bytes c k e = ground (arith, e)

pub shown-rect :
    (w h : ℕ) (r : Delta) (bytes : List ℕ) (old k : Canvas)
    → shown (shm_frame w h (some r) bytes) (some old) ≡ some k
    → (old.w ≡ w)
      × (old.h ≡ h)
      × (k ≡ canvas w h (write_rows r.height r.y r w (drop delta_size bytes) old.bytes))
unfolding shown canvas
shown-rect w h r bytes old k e = ground (arith, e)
