-- ===== src/Webview/View/Canvas/Deferred.antt =====
-- src/cli/webview_cef/view.cc: what the game shows after a deferred frame, and after a direct paint.
use idk_overlay.Prelude.{
  ℕ, ◌+◌, ◌*◌, ◌<◌, ◌≡◌, refl, sym, ap, ◌∙◌, List, Bool, true, false, ◌&&◌, ◌⊎◌, inl, inr, Option,
  none, some, ◌==◌, length, get_elem?, if_holds, arith,
}
use idk_overlay.Wire.Delta.{Delta, delta_size, wrap64}
use idk_overlay.Webview.Patch.{patch_rows}
use idk_overlay.Webview.Damage.{Rect, choose_shm_roi}
use idk_overlay.Webview.Damage.Replay.{IsDamage, choose_shm_roi-replay}
use idk_overlay.Webview.Difference.{DeltaResult, unchanged, full, partial, find_delta}
use idk_overlay.Webview.Difference.Replay.{find_delta-replay}
use idk_overlay.Webview.Difference.Canvases.{Canvases}
use idk_overlay.Webview.View.{View, Answers, Sent}
use idk_overlay.Webview.View.Shm.{dirty_roi, verified_roi, pick_roi, send_shm_pixels}
use idk_overlay.Webview.View.Paint.{clear_deferred, after_pixels, send_delta, send_deferred_pixels}
use idk_overlay.Webview.View.Canvas.{Canvas, shown, IsBaseline, canvas}
use idk_overlay.Webview.View.Canvas.Exact.{
  send_shm_pixels-shown, next_shadow-exact, send_shm_pixels-shadow,
}

-- A rectangle that covers every change.
abbrev IsCover : Option Delta → List ℕ → ℕ → View → Type 0
IsCover roi px w v =
    (roi ≡ none)
    ⊎ ((r : Delta) × (roi ≡ some r) × (patch_rows r.height r.y r w px v.shm_shadow ≡ px))

-- A frame whose rectangle covers every change shows the new image.
cover-shown :
    (px : List ℕ) (w h : ℕ) (dirty : Option (List Rect)) (verified : Option Delta) (a : Answers)
    (v : View) (c : Option Canvas) (k : Canvas) (f : Sent)
    → IsCover (pick_roi verified dirty w h v) px w v
    → v.pending ≡ false
    → (send_shm_pixels px w h dirty verified a v).pending ≡ true
    → length px ≡ w * h * 4
    → IsBaseline v c
    → get_elem? (send_shm_pixels px w h dirty verified a v).sent 0 ≡ some f
    → shown f c ≡ some k
    → k ≡ canvas w h px
cover-shown px w h dirty verified a v c k f i p q e b n s =
    send_shm_pixels-shown px w h dirty verified a v c k f p q e b n s
    ∙ ap (canvas w h) (
        send_shm_pixels-shadow px w h dirty verified a v p q
        ∙ next_shadow-exact (pick_roi verified dirty w h v) px w h v e i)

pick-none : (w h : ℕ) (v : View) → pick_roi none none w h v ≡ none
unfolding pick_roi verified_roi dirty_roi
pick-none w h v = ground arith

pick-verified :
    (r : Delta) (w h : ℕ) (v : View)
    → (pick_roi (some r) none w h v ≡ none) ⊎ (pick_roi (some r) none w h v ≡ some r)
unfolding pick_roi verified_roi dirty_roi
pick-verified r w h v = ground arith

pick-dirty :
    (dirty : List Rect) (w h : ℕ) (v : View)
    → (pick_roi none (some dirty) w h v ≡ none)
      ⊎ (pick_roi none (some dirty) w h v ≡ choose_shm_roi dirty w h)
unfolding pick_roi verified_roi dirty_roi
pick-dirty dirty w h v = ground arith

-- A deferred frame sent with FindDelta's answer, or in full.
abbrev IsAnswer : DeltaResult → View → Type 0
IsAnswer d v =
    (d ≡ full)
    ⊎ ((d ≡ find_delta v.deferred_pixels v.shm_shadow v.deferred_w v.deferred_h)
        × (length v.shm_shadow ≡ v.deferred_w * v.deferred_h * 4))

after_pixels-Keeps :
    (t : View) → ((after_pixels t).pending ≡ t.pending) × ((after_pixels t).sent ≡ t.sent)
unfolding after_pixels clear_deferred
after_pixels-Keeps t =
    if_holds (λ u. (u.pending ≡ t.pending) × (u.sent ≡ t.sent)) t.pending _ t (λ e. (refl, refl))
      (λ e. (refl, refl))

verified-IsCover :
    (r : Delta) (v : View)
    → Canvases v.deferred_pixels v.shm_shadow v.deferred_w v.deferred_h
    → partial r ≡ find_delta v.deferred_pixels v.shm_shadow v.deferred_w v.deferred_h
    → IsCover (pick_roi (some r) none v.deferred_w v.deferred_h v) v.deferred_pixels v.deferred_w v
verified-IsCover r v k e = elim (pick-verified r v.deferred_w v.deferred_h v) [
  | inl n ↦ inl n
  | inr s ↦ inr (
    r,
    s,
    (find_delta-replay v.deferred_pixels v.shm_shadow v.deferred_w v.deferred_h r k (sym e)).2,
  )
]

send_delta-exact :
    (d : DeltaResult) (a : Answers) (v : View) (c : Option Canvas) (k : Canvas) (f : Sent)
    → IsAnswer d v
    → v.pending ≡ false
    → (send_delta d a v).pending ≡ true
    → 0 < v.deferred_w
    → 0 < v.deferred_h
    → v.deferred_w * v.deferred_h * 4 + delta_size < wrap64
    → length v.deferred_pixels ≡ v.deferred_w * v.deferred_h * 4
    → IsBaseline v c
    → get_elem? (send_delta d a v).sent 0 ≡ some f
    → shown f c ≡ some k
    → k ≡ canvas v.deferred_w v.deferred_h v.deferred_pixels
unfolding send_delta
send_delta-exact unchanged a v c k f i p q hw hh small e b n s = absurd (ground (arith, p, q))
send_delta-exact full a v c k f i p q hw hh small e b n s =
    let (x, y) =
      after_pixels-Keeps
        (send_shm_pixels v.deferred_pixels v.deferred_w v.deferred_h none none a v) in
    cover-shown v.deferred_pixels v.deferred_w v.deferred_h none none a v c k f
      (inl (pick-none v.deferred_w v.deferred_h v)) p (sym x ∙ q) e b
      (ap (λ l. get_elem? l 0) (sym y) ∙ n) s
send_delta-exact (partial r) a v c k f (inl i) p q hw hh small e b n s = absurd (ground (arith, i))
send_delta-exact (partial r) a v c k f (inr (i, l)) p q hw hh small e b n s =
    let (x, y) =
      after_pixels-Keeps
        (send_shm_pixels v.deferred_pixels v.deferred_w v.deferred_h none (some r) a v) in
    cover-shown v.deferred_pixels v.deferred_w v.deferred_h none (some r) a v c k f
      (verified-IsCover r v (hw, hh, e, l, small) i) p (sym x ∙ q) e b
      (ap (λ l. get_elem? l 0) (sym y) ∙ n) s

-- The pixels that a view kept while the game was busy, sent when nothing waits, in full or as the
-- rectangle that FindDelta found: where the view has no baseline or the one that the game shows, the image
-- that the game shows after it accepted the frame, where it can, is exactly these pixels.
pub send_deferred_pixels-exact :
    (a : Answers) (v : View) (c : Option Canvas) (k : Canvas) (f : Sent)
    → v.pending ≡ false
    → (send_deferred_pixels a v).pending ≡ true
    → 0 < v.deferred_w
    → 0 < v.deferred_h
    → v.deferred_w * v.deferred_h * 4 + delta_size < wrap64
    → length v.deferred_pixels ≡ v.deferred_w * v.deferred_h * 4
    → IsBaseline v c
    → get_elem? (send_deferred_pixels a v).sent 0 ≡ some f
    → shown f c ≡ some k
    → k ≡ canvas v.deferred_w v.deferred_h v.deferred_pixels
unfolding send_deferred_pixels
send_deferred_pixels-exact a v c k f p q hw hh small e b n s =
    if_holds (λ (u : View). u.pending ≡ true → get_elem? u.sent 0 ≡ some f → Exact)
      (length v.deferred_pixels == 0) v _ (λ t q n. absurd (ground (arith, p, q)))
      (λ t.
        if_holds (λ (u : View). u.pending ≡ true → get_elem? u.sent 0 ≡ some f → Exact) comparable _
          _
          (λ t q n.
            send_delta-exact (find_delta v.deferred_pixels v.shm_shadow v.deferred_w v.deferred_h) a
              v c k f (inr (refl, same_size t)) p q hw hh small e b n s)
          (λ t q n. send_delta-exact full a v c k f (inl refl) p q hw hh small e b n s))
      q n
  where
    Exact : Type 0
    Exact = k ≡ canvas v.deferred_w v.deferred_h v.deferred_pixels

    comparable : Bool
    comparable =
        v.shm_roi_enabled
        && v.shm_baseline_valid
        && (v.deferred_w == v.shm_shadow_w)
        && (v.deferred_h == v.shm_shadow_h)
        && (length v.deferred_pixels == length v.shm_shadow)

    same_size : comparable ≡ true → length v.shm_shadow ≡ v.deferred_w * v.deferred_h * 4
    same_size t = ground (arith, t, e)

-- A direct paint from memory whose dirty rectangles cover every change from the shadow, sent when nothing
-- waits: where the view has no baseline or the one that the game shows, the image that the game shows
-- after it accepted the frame, where it can, is the new paint.
pub send_shm_pixels-exact :
    (px : List ℕ) (w h : ℕ) (dirty : List Rect) (a : Answers) (v : View) (c : Option Canvas)
    (k : Canvas) (f : Sent)
    → v.pending ≡ false
    → (send_shm_pixels px w h (some dirty) none a v).pending ≡ true
    → Canvases px v.shm_shadow w h
    → IsDamage dirty px v.shm_shadow w h
    → IsBaseline v c
    → get_elem? (send_shm_pixels px w h (some dirty) none a v).sent 0 ≡ some f
    → shown f c ≡ some k
    → k ≡ canvas w h px
send_shm_pixels-exact px w h dirty a v c k f p q sizes damage b n s =
    cover-shown px w h (some dirty) none a v c k f cover p q sizes.2 b n s
  where
    picked :
        (o : Option Delta)
        → choose_shm_roi dirty w h ≡ o
        → pick_roi none (some dirty) w h v ≡ choose_shm_roi dirty w h
        → IsCover (pick_roi none (some dirty) w h v) px w v
    picked none e t = inl (t ∙ e)
    picked (some r) e t =
        inr (r, t ∙ e, (choose_shm_roi-replay dirty px v.shm_shadow w h r sizes damage e).2)

    cover : IsCover (pick_roi none (some dirty) w h v) px w v
    cover = elim (pick-dirty dirty w h v) [
      | inl t ↦ inl t
      | inr t ↦ picked (choose_shm_roi dirty w h) refl t
    ]
