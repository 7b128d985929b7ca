-- ===== src/Webview/View/Canvas/Exact.antt =====
-- src/cli/webview_cef/view.cc: what the game shows after it accepted what SendShmPixels sent.
use idk_overlay.Prelude.{
  ℕ, ◌*◌, ◌≡◌, refl, sym, ap, subst, ◌∙◌, List, true, false, not, ◌&&◌, ◌||◌, ◌⊎◌, inl, inr, Option,
  none, some, ◌==◌, length, take, drop, get_elem?, drop-append, take-length, if_holds, arith,
}
use mathlib.Core.Option.{some-injective}
use idk_overlay.Wire.Bytes.{le32}
use idk_overlay.Wire.Delta.{
  Delta, delta_size, validate-IsInside, encode_delta, pack_rows, pack-cases,
}
use idk_overlay.Webview.Patch.{patch_rows}
use idk_overlay.Webview.Damage.{Rect}
use idk_overlay.Webview.View.{View, Answers, Sent, shm_frame}
use idk_overlay.Webview.View.Shm.{
  roi_size, payload, next_shadow, note_shm, ship, pick_roi, send_shm_pixels,
}
use idk_overlay.Webview.View.Canvas.{
  Canvas, write_rows, shown, write_rows-pack_rows, IsBaseline, canvas, shown-full, shown-rect,
}

next_shadow-patch :
    (r : Delta) (px : List ℕ) (w h : ℕ) (v : View)
    → v.shm_shadow_w ≡ w
    → v.shm_shadow_h ≡ h
    → length v.shm_shadow ≡ w * h * 4
    → next_shadow (some r) px w h v ≡ patch_rows r.height r.y r w px v.shm_shadow
unfolding next_shadow
next_shadow-patch r px w h v a b c = ground (arith, a, b, c)

-- A rectangle sent over a shadow of the canvas's size, which is what the game shows.
rect-shown :
    (r : Delta) (px bytes : List ℕ) (w h : ℕ) (v : View) (k : Canvas)
    → length px ≡ w * h * 4
    → length v.shm_shadow ≡ v.shm_shadow_w * v.shm_shadow_h * 4
    → payload (some r) px w h ≡ some bytes
    → shown
        (shm_frame w h (some r) bytes)
        (some (record { w = v.shm_shadow_w; h = v.shm_shadow_h; bytes = v.shm_shadow }))
      ≡ some k
    → k ≡ canvas w h (next_shadow (some r) px w h v)
unfolding payload encode_delta le32
rect-shown r px bytes w h v k e l p q =
    let (valid, out) = pack-cases r w h (roi_size r) px bytes p in
    let (i, _) = (validate-IsInside r w h (roi_size r)).0 valid in
    let (ew, eh, k') = shown-rect w h r bytes _ k q in
    let size : length v.shm_shadow ≡ w * h * 4 =
      l ∙ ap (λ n. n * v.shm_shadow_h * 4) ew ∙ ap (λ n. w * n * 4) eh in
    k'
    ∙ ap (canvas w h) (
        ap (λ b. write_rows r.height r.y r w (drop delta_size b) v.shm_shadow) out
        ∙ ap (λ b. write_rows r.height r.y r w b v.shm_shadow)
            (drop-append delta_size (encode_delta r) (pack_rows r.height r.y r w px) refl)
        ∙ write_rows-pack_rows r.height r.y w h r px v.shm_shadow e (omega (arith, i))
            (omega (arith, i))
        ∙ sym (next_shadow-patch r px w h v ew eh size))

-- The same of whatever SendShmPixels picks, a rectangle only with a baseline.
payload-shown :
    (roi : Option Delta) (px bytes : List ℕ) (w h : ℕ) (v : View) (c : Option Canvas) (k : Canvas)
    → length px ≡ w * h * 4
    → IsBaseline v c
    → (roi ≡ none) ⊎ (v.shm_baseline_valid ≡ true)
    → payload roi px w h ≡ some bytes
    → shown (shm_frame w h roi bytes) c ≡ some k
    → k ≡ canvas w h (next_shadow roi px w h v)
unfolding payload next_shadow shown
payload-shown none px bytes w h v c k e b v' p q =
    shown-full w h bytes c k q ∙ ap (canvas w h) (ground (arith, p))
payload-shown (some r) px bytes w h v c k e b (inl n) p q = absurd (ground (arith, n))
payload-shown (some r) px bytes w h v c k e (inl f) (inr t) p q = absurd (ground (arith, f, t))
payload-shown (some r) px bytes w h v c k e (inr (inl n)) (inr t) p q =
    absurd (no_image (ap (shown (shm_frame w h (some r) bytes)) (sym n) ∙ q))
  where
    no_image : shown (shm_frame w h (some r) bytes) none ≡ some k → ⊥
    no_image f = ground (arith, f)
payload-shown (some r) px bytes w h v c k e (inr (inr (s, l))) (inr t) p q =
    rect-shown r px bytes w h v k e l p (ap (shown (shm_frame w h (some r) bytes)) (sym s) ∙ q)

pick_roi-baseline :
    (verified : Option Delta) (dirty : Option (List Rect)) (w h : ℕ) (v : View)
    → (pick_roi verified dirty w h v ≡ none) ⊎ (v.shm_baseline_valid ≡ true)
unfolding pick_roi
pick_roi-baseline verified dirty w h v = ground arith

-- What SendShmPixels gave to the producer library where the frame is pending afterwards.
record HasSent (px : List ℕ) (w h : ℕ) (roi : Option Delta) (v u : View) : Type 0 where
  pub bytes : List ℕ
  pub payload : payload roi px w h ≡ some bytes
  pub newest : get_elem? u.sent 0 ≡ some (shm_frame w h roi bytes)
  pub shadow : u.shm_shadow ≡ next_shadow roi px w h v

ship-HasSent :
    (roi : Option Delta) (px : List ℕ) (w h : ℕ) (o : Option (List ℕ)) (a : Answers) (v : View)
    → payload roi px w h ≡ o
    → v.pending ≡ false
    → (ship roi px w h o a v).pending ≡ true
    → HasSent px w h roi v (ship roi px w h o a v)
unfolding ship note_shm
ship-HasSent roi px w h none a v e p q = absurd (ground (arith, p, q))
ship-HasSent roi px w h (some bytes) a v e p q = record {
  bytes = bytes;
  payload = e;
  newest = ground (arith, p, q);
  shadow = ground (arith, p, q);
}

sent-ship :
    (px : List ℕ) (w h : ℕ) (dirty : Option (List Rect)) (verified : Option Delta) (a : Answers)
    (v : View)
    → v.pending ≡ false
    → (send_shm_pixels px w h dirty verified a v).pending ≡ true
    → send_shm_pixels px w h dirty verified a v
      ≡ ship
          (pick_roi verified dirty w h v)
          px
          w
          h
          (payload (pick_roi verified dirty w h v) px w h)
          a
          v
unfolding send_shm_pixels
sent-ship px w h dirty verified a v p q =
    let shipped =
      ship (pick_roi verified dirty w h v) px w h (payload (pick_roi verified dirty w h v) px w h) a
        v in
    if_holds (λ u. u.pending ≡ true → u ≡ shipped)
      ((w == 0) || (h == 0) || not a.created || not a.sized || not a.mapped) v shipped
      (λ e t. absurd (ground (arith, p, t))) (λ e t. refl) q

send_shm_pixels-HasSent :
    (px : List ℕ) (w h : ℕ) (dirty : Option (List Rect)) (verified : Option Delta) (a : Answers)
    (v : View)
    → v.pending ≡ false
    → (send_shm_pixels px w h dirty verified a v).pending ≡ true
    → HasSent px w h (pick_roi verified dirty w h v) v (send_shm_pixels px w h dirty verified a v)
send_shm_pixels-HasSent px w h dirty verified a v p q =
    let e = sent-ship px w h dirty verified a v p q in
    subst (HasSent px w h (pick_roi verified dirty w h v) v) (sym e) (
      ship-HasSent (pick_roi verified dirty w h v) px w h
        (payload (pick_roi verified dirty w h v) px w h) a v refl p
        (ap (λ u. u.pending) (sym e) ∙ q))

-- A frame from memory that a view sent, where it has no baseline or the one that the game shows: the
-- image that the game shows once it accepted the frame, where it can, is the view's new shadow.
pub send_shm_pixels-shown :
    (px : List ℕ) (w h : ℕ) (dirty : Option (List Rect)) (verified : Option Delta) (a : Answers)
    (v : View) (c : Option Canvas) (k : Canvas) (f : Sent)
    → v.pending ≡ false
    → (send_shm_pixels px w h dirty verified a v).pending ≡ true
    → length px ≡ w * h * 4
    → IsBaseline v c
    → get_elem? (send_shm_pixels px w h dirty verified a v).sent 0 ≡ some f
    → shown f c ≡ some k
    → k ≡ canvas w h (send_shm_pixels px w h dirty verified a v).shm_shadow
send_shm_pixels-shown px w h dirty verified a v c k f p q e b n s =
    let t = send_shm_pixels-HasSent px w h dirty verified a v p q in
    let same : f ≡ shm_frame w h (pick_roi verified dirty w h v) t.bytes =
      some-injective f _ (sym n ∙ t.newest) in
    payload-shown (pick_roi verified dirty w h v) px t.bytes w h v c k e b
      (pick_roi-baseline verified dirty w h v) t.payload (ap (λ g. shown g c) (sym same) ∙ s)
    ∙ ap (canvas w h) (sym t.shadow)

-- The shadow that is sent is the new image, where a rectangle that is picked covers what differs.
pub next_shadow-exact :
    (roi : Option Delta) (px : List ℕ) (w h : ℕ) (v : View)
    → length px ≡ w * h * 4
    → (roi ≡ none)
      ⊎ ((r : Delta) × (roi ≡ some r) × (patch_rows r.height r.y r w px v.shm_shadow ≡ px))
    → next_shadow roi px w h v ≡ px
unfolding next_shadow
next_shadow-exact none px w h v e x = ap (λ n. take n px) (sym e) ∙ take-length px
next_shadow-exact (some r) px w h v e (inl n) = absurd (ground (arith, n))
next_shadow-exact (some r) px w h v e (inr (q, same, exact)) =
    if_holds (λ s. s ≡ px)
      ((v.shm_shadow_w == w) && (v.shm_shadow_h == h) && (length v.shm_shadow == w * h * 4)) _ _
      (λ t.
        subst (λ z. patch_rows z.height z.y z w px v.shm_shadow ≡ px)
          (sym (some-injective r q same)) exact)
      (λ t. ap (λ n. take n px) (sym e) ∙ take-length px)

pub send_shm_pixels-shadow :
    (px : List ℕ) (w h : ℕ) (dirty : Option (List Rect)) (verified : Option Delta) (a : Answers)
    (v : View)
    → v.pending ≡ false
    → (send_shm_pixels px w h dirty verified a v).pending ≡ true
    → (send_shm_pixels px w h dirty verified a v).shm_shadow
      ≡ next_shadow (pick_roi verified dirty w h v) px w h v
send_shm_pixels-shadow px w h dirty verified a v p q =
    (send_shm_pixels-HasSent px w h dirty verified a v p q).shadow
