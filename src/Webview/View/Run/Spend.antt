-- ===== src/Webview/View/Run/Spend.antt =====
-- src/cli/webview_cef/view.cc: what a request's credit pays for.
use idk_overlay.Prelude.{
  ℕ, suc, ◌+◌, ◌≤◌, ◌≡◌, refl, List, Bool, true, false, ◌⊎◌, inl, inr, Option, none, some, length,
  Bool-cases, arith,
}
use idk_overlay.Wire.Delta.{Delta}
use idk_overlay.Webview.Format.{to_gl_rgba}
use idk_overlay.Webview.Damage.{Rect}
use idk_overlay.Webview.Difference.{DeltaResult, unchanged, full, partial, find_delta}
use idk_overlay.Webview.View.{
  View, Answers, PaintInfo, GpuBuf, DeferredKind, empty, pixels, owned_gpu,
}
use idk_overlay.Webview.View.Shm.{
  pick_roi, payload, note_shm, ship, send_shm_pixels, send_converted, send_shm_from_dmabuf,
}
use idk_overlay.Webview.View.Staging.{
  blit_into, note_staged, forward, send_frame_dmabuf, cache_deferred_pixels, cache_converted,
  cache_copy, cache_deferred_gpu, send_owned_gpu,
}
use idk_overlay.Webview.View.Paint.{
  clear_deferred, after_pixels, send_delta, send_deferred_pixels, after_owned, after_readback,
  send_deferred_gpu, send_deferred, maybe_send_deferred,
}

abbrev pub bit : Bool → ℕ
bit true = 1
bit false = 0

-- The fields that the pacing rests on are those of before.
abbrev pub Quiet : View → View → Type 0
Quiet v u =
    (length u.sent ≡ length v.sent)
    × (u.pending ≡ v.pending)
    × (u.request_credit ≡ v.request_credit)

-- Nothing was sent, or one frame was and is pending.
abbrev pub Sends : View → View → Type 0
Sends v u = Quiet v u ⊎ ((length u.sent ≡ suc (length v.sent)) × (u.pending ≡ true))

-- A frame sent was paid for by a credit, and no other one was pending.
abbrev pub Paid : View → View → Type 0
Paid v u =
    (length u.sent + bit u.request_credit ≤ length v.sent + bit v.request_credit)
    × (length u.sent + bit v.pending ≤ length v.sent + bit u.pending)

ship-Sends :
    (roi : Option Delta) (px : List ℕ) (w h : ℕ) (bytes : Option (List ℕ)) (a : Answers) (v : View)
    → Sends v (ship roi px w h bytes a v)
unfolding ship note_shm
ship-Sends roi px w h none a v = inl (refl, refl, refl)
ship-Sends roi px w h (some bytes) a v = ground arith

pub send_shm_pixels-Sends :
    (px : List ℕ) (w h : ℕ) (dirty : Option (List Rect)) (roi : Option Delta) (a : Answers)
    (v : View)
    → Sends v (send_shm_pixels px w h dirty roi a v)
unfolding send_shm_pixels
send_shm_pixels-Sends px w h dirty roi a v = ground (
  arith,
  ship-Sends (pick_roi roi dirty w h v) px w h (payload (pick_roi roi dirty w h v) px w h) a v,
)

send_converted-Sends :
    (o : Option (List ℕ)) (info : PaintInfo) (a : Answers) (v : View)
    → Sends v (send_converted o info a v)
unfolding send_converted
send_converted-Sends none info a v = inl (refl, refl, refl)
send_converted-Sends (some rgba) info a v =
    send_shm_pixels-Sends rgba info.width info.height (some info.dirty) none a v

pub send_shm_from_dmabuf-Sends :
    (info : PaintInfo) (a : Answers) (v : View) → Sends v (send_shm_from_dmabuf info a v)
unfolding send_shm_from_dmabuf
send_shm_from_dmabuf-Sends info a v = ground (
  arith,
  send_converted-Sends (to_gl_rgba info.map info.stride info.width info.height info.channels) info a
      v,
)

pub send_frame_dmabuf-Sends :
    (info : PaintInfo) (whole : Bool) (a : Answers) (v : View)
    → Sends v (send_frame_dmabuf info whole a v)
unfolding send_frame_dmabuf blit_into note_staged forward
send_frame_dmabuf-Sends info whole a v = ground arith

pub cache_deferred_pixels-Quiet :
    (px : List ℕ) (w h : ℕ) (v : View) → Quiet v (cache_deferred_pixels px w h v)
unfolding cache_deferred_pixels
cache_deferred_pixels-Quiet px w h v = ground arith

pub cache_deferred_gpu-Quiet :
    (info : PaintInfo) (a : Answers) (v : View) → Quiet v (cache_deferred_gpu info a v)
unfolding cache_deferred_gpu cache_copy cache_converted blit_into
cache_deferred_gpu-Quiet info a v = ground arith

-- The deferred frame, where a credit is there and nothing is pending.
abbrev Clears : View → View → Type 0
Clears v u =
    ((length u.sent ≡ length v.sent)
      × (u.pending ≡ v.pending)
      × ((u.request_credit ≡ v.request_credit) ⊎ (u.request_credit ≡ false)))
    ⊎ ((length u.sent ≡ suc (length v.sent)) × (u.pending ≡ true) × (u.request_credit ≡ false))

send_delta-Clears :
    (d : DeltaResult) (a : Answers) (v : View) → v.pending ≡ false → Clears v (send_delta d a v)
unfolding send_delta after_pixels clear_deferred
send_delta-Clears unchanged a v p = ground (arith, p)
send_delta-Clears full a v p =
    ground
      (arith, p, send_shm_pixels-Sends v.deferred_pixels v.deferred_w v.deferred_h none none a v)
send_delta-Clears (partial r) a v p =
    ground (
      arith,
      p,
      send_shm_pixels-Sends v.deferred_pixels v.deferred_w v.deferred_h none (some r) a v,
    )

send_deferred_pixels-Clears :
    (a : Answers) (v : View) → v.pending ≡ false → Clears v (send_deferred_pixels a v)
unfolding send_deferred_pixels
send_deferred_pixels-Clears a v p = ground (
  arith,
  send_delta-Clears full a v p,
  send_delta-Clears (find_delta v.deferred_pixels v.shm_shadow v.deferred_w v.deferred_h) a v p,
)

after_readback-Clears :
    (o : Option (List ℕ)) (a : Answers) (v : View)
    → v.pending ≡ false
    → Clears v (after_readback o a v)
unfolding after_readback
after_readback-Clears none a v p = inl (refl, refl, inl refl)
after_readback-Clears (some px) a v p =
    send_deferred_pixels-Clears a
      (record v { deferred_pixels = px; deferred_kind = pixels; deferred_gpu_ptr = none }) p

send_deferred_gpu-Clears :
    (o : Option GpuBuf) (a : Answers) (v : View)
    → v.pending ≡ false
    → Clears v (send_deferred_gpu o a v)
unfolding send_deferred_gpu after_owned send_owned_gpu clear_deferred note_staged
send_deferred_gpu-Clears none a v p = inl (refl, refl, inl refl)
send_deferred_gpu-Clears (some b) a v p = ground (arith, after_readback-Clears a.readback a v p)

send_deferred-Clears :
    (k : DeferredKind) (a : Answers) (v : View) → v.pending ≡ false → Clears v (send_deferred k a v)
unfolding send_deferred
send_deferred-Clears empty a v p = inl (refl, refl, inl refl)
send_deferred-Clears pixels a v p = send_deferred_pixels-Clears a v p
send_deferred-Clears owned_gpu a v p = send_deferred_gpu-Clears v.deferred_gpu_ptr a v p

pub maybe_send_deferred-Paid : (a : Answers) (v : View) → Paid v (maybe_send_deferred a v)
unfolding maybe_send_deferred
maybe_send_deferred-Paid a v = elim (Bool-cases v.pending) [
  | inl e ↦ ground (arith, e)
  | inr e ↦ ground (arith, e, send_deferred-Clears v.deferred_kind a v e)
]
