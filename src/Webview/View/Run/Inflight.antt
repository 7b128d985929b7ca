-- ===== src/Webview/View/Run/Inflight.antt =====
-- src/cli/webview_cef/view.cc: the staging buffer of a frame that waits for its answer.
use idk_overlay.Prelude.{
  ℕ, ◌*◌, ◌≡◌, refl, ◌∙◌, List, [], ◌∷◌, Bool, true, false, not, ◌||◌, Option, none, some, if_holds,
  arith,
}
use idk_overlay.Webview.Format.{bgra, to_gl_rgba}
use idk_overlay.Webview.Damage.{Rect}
use idk_overlay.Webview.View.{View, Answers, PaintInfo, GpuBuf, gpu, deferred_gpu}
use idk_overlay.Webview.View.Staging.{
  target, held_by, blit_into, cache_deferred_pixels, cache_converted, cache_copy,
  cache_deferred_gpu,
}
use idk_overlay.Webview.View.Paint.{
  defer_pixels, paint_rgba, on_paint, defer_gpu, on_accelerated_paint,
}
use idk_overlay.Webview.View.Pacing.{
  nudge_frame, on_load_end, recv_requests, serve_request, take_requests, take_ack, poll_socket,
  connect_task, fire_capture_events, fire_visible_events, set_capture, keep_frame,
  set_overlay_visible,
}
use idk_overlay.Webview.View.Acks.{restore_gpu, restore_shadow}
use idk_overlay.Webview.View.Run.{
  Event, load_end, paint, accelerated_paint, connect, poll, capture, visible, step, run, settled,
}

-- A frame of the staging buffer `b` waits for its answer.
abbrev Waits : GpuBuf → View → Type 0
Waits b v = (v.connected ≡ true) × (v.pending ≡ true) × (v.gpu_inflight ≡ some b)

-- It still does, and the buffer holds what it held.
abbrev Keeps : GpuBuf → View → View → Type 0
Keeps b v u = Waits b u × (held_by b u ≡ held_by b v)

-- No blit goes into the buffer of the frame that waits.
blit_into-Keeps :
    (b : GpuBuf) (whole : Bool) (a : Answers) (v : View)
    → Waits b v
    → Keeps b v (blit_into (target v) whole a v)
unfolding blit_into target
blit_into-Keeps gpu whole a v w = (w, ground (arith, w))
blit_into-Keeps deferred_gpu whole a v w = (w, ground (arith, w))

cache_deferred_gpu-Keeps :
    (b : GpuBuf) (info : PaintInfo) (a : Answers) (v : View)
    → Waits b v
    → Keeps b v (cache_deferred_gpu info a v)
unfolding cache_deferred_gpu cache_copy cache_converted
cache_deferred_gpu-Keeps gpu info a v w = ground (arith, w, blit_into-Keeps gpu true a v w)
cache_deferred_gpu-Keeps deferred_gpu info a v w =
    ground (arith, w, blit_into-Keeps deferred_gpu true a v w)

cache_deferred_pixels-Keeps :
    (b : GpuBuf) (px : List ℕ) (w h : ℕ) (v : View)
    → Waits b v
    → Keeps b v (cache_deferred_pixels px w h v)
unfolding cache_deferred_pixels
cache_deferred_pixels-Keeps gpu px w h v i = ground (arith, i)
cache_deferred_pixels-Keeps deferred_gpu px w h v i = ground (arith, i)

defer_pixels-Keeps :
    (b : GpuBuf) (px : List ℕ) (w h : ℕ) (a : Answers) (v : View)
    → Waits b v
    → Keeps b v (defer_pixels px w h a v)
unfolding defer_pixels
defer_pixels-Keeps gpu px w h a v i = ground (arith, i, cache_deferred_pixels-Keeps gpu px w h v i)
defer_pixels-Keeps deferred_gpu px w h a v i =
    ground (arith, i, cache_deferred_pixels-Keeps deferred_gpu px w h v i)

paint_rgba-Keeps :
    (b : GpuBuf) (o : Option (List ℕ)) (w h : ℕ) (dirty : List Rect) (a : Answers) (v : View)
    → Waits b v
    → Keeps b v (paint_rgba o w h dirty a v)
unfolding paint_rgba
paint_rgba-Keeps b none w h dirty a v i = (i, refl)
paint_rgba-Keeps gpu (some px) w h dirty a v i =
    ground (arith, i, defer_pixels-Keeps gpu px w h a v i)
paint_rgba-Keeps deferred_gpu (some px) w h dirty a v i =
    ground (arith, i, defer_pixels-Keeps deferred_gpu px w h a v i)

on_paint-Keeps :
    (b : GpuBuf) (buffer : Option (List ℕ)) (w h : ℕ) (dirty : List Rect) (a : Answers) (v : View)
    → Waits b v
    → Keeps b v (on_paint buffer w h dirty a v)
unfolding on_paint
on_paint-Keeps b buffer w h dirty a v i =
    if_holds (Keeps b v) (not v.connected || not v.visible) v
      (paint_rgba (to_gl_rgba buffer (w * 4) w h bgra) w h dirty a v) (λ e. (i, refl))
      (λ e. paint_rgba-Keeps b (to_gl_rgba buffer (w * 4) w h bgra) w h dirty a v i)

defer_gpu-Keeps :
    (b : GpuBuf) (info : PaintInfo) (a : Answers) (v : View)
    → Waits b v
    → Keeps b v (defer_gpu info a v)
unfolding defer_gpu
defer_gpu-Keeps gpu info a v i = ground (arith, i, cache_deferred_gpu-Keeps gpu info a v i)
defer_gpu-Keeps deferred_gpu info a v i =
    ground (arith, i, cache_deferred_gpu-Keeps deferred_gpu info a v i)

on_accelerated_paint-Keeps :
    (b : GpuBuf) (info : PaintInfo) (a : Answers) (v : View)
    → Waits b v
    → Keeps b v (on_accelerated_paint info a v)
unfolding on_accelerated_paint
on_accelerated_paint-Keeps gpu info a v i = ground (arith, i, defer_gpu-Keeps gpu info a v i)
on_accelerated_paint-Keeps deferred_gpu info a v i =
    ground (arith, i, defer_gpu-Keeps deferred_gpu info a v i)

take_requests-Keeps :
    (b : GpuBuf) (r : Bool × Bool) (still : Bool) (a : Answers) (v : View)
    → Waits b v
    → Keeps b v (take_requests r still a v)
unfolding take_requests serve_request
take_requests-Keeps gpu (true, requested) still a v i = ground (arith, i)
take_requests-Keeps deferred_gpu (true, requested) still a v i = ground (arith, i)
take_requests-Keeps gpu (false, requested) still a v i = ground (arith, i)
take_requests-Keeps deferred_gpu (false, requested) still a v i = ground (arith, i)

poll_socket-Keeps :
    (b : GpuBuf) (types : List ℕ) (still : Bool) (back a : Answers) (v : View)
    → Waits b v
    → Keeps b v (poll_socket none types still back a v)
unfolding poll_socket take_ack
poll_socket-Keeps gpu types still back a v i =
    ground (arith, i, take_requests-Keeps gpu (recv_requests 256 types false) still a v i)
poll_socket-Keeps deferred_gpu types still back a v i =
    ground (arith, i, take_requests-Keeps deferred_gpu (recv_requests 256 types false) still a v i)

on_load_end-Keeps : (b : GpuBuf) (v : View) → Waits b v → Keeps b v (on_load_end v)
unfolding on_load_end nudge_frame
on_load_end-Keeps gpu v i = ground (arith, i)
on_load_end-Keeps deferred_gpu v i = ground (arith, i)

connect_task-Keeps :
    (b : GpuBuf) (inits : Bool) (v : View) → Waits b v → Keeps b v (connect_task true inits v)
unfolding connect_task
connect_task-Keeps gpu inits v i = ground (arith, i)
connect_task-Keeps deferred_gpu inits v i = ground (arith, i)

set_capture-Keeps : (b : GpuBuf) (on : Bool) (v : View) → Waits b v → Keeps b v (set_capture on v)
unfolding set_capture fire_capture_events
set_capture-Keeps gpu on v i = ground (arith, i)
set_capture-Keeps deferred_gpu on v i = ground (arith, i)

set_overlay_visible-Keeps :
    (b : GpuBuf) (on : Bool) (v : View) → Waits b v → Keeps b v (set_overlay_visible on v)
unfolding set_overlay_visible keep_frame fire_visible_events restore_shadow restore_gpu
set_overlay_visible-Keeps gpu on v i = ground (arith, i)
set_overlay_visible-Keeps deferred_gpu on v i = ground (arith, i)

Keeps-next : (b : GpuBuf) (v u t : View) → Keeps b v u → (Waits b u → Keeps b u t) → Keeps b v t
Keeps-next b v u t (w, h) f = let (w', h') = f w in (w', h' ∙ h)

run-Keeps :
    (b : GpuBuf) (es : List Event) (v : View) → Waits b v → settled es ≡ 0 → Keeps b v (run es v)
unfolding run step settled
run-Keeps b [] v w e = (w, refl)
run-Keeps b (load_end ∷ es) v w e =
    Keeps-next b v (on_load_end v) (run es (on_load_end v)) (on_load_end-Keeps b v w)
      (λ x. run-Keeps b es (on_load_end v) x e)
run-Keeps b (paint buffer m n dirty a ∷ es) v w e =
    Keeps-next b v (on_paint buffer m n dirty a v) (run es (on_paint buffer m n dirty a v))
      (on_paint-Keeps b buffer m n dirty a v w)
      (λ x. run-Keeps b es (on_paint buffer m n dirty a v) x e)
run-Keeps b (accelerated_paint info a ∷ es) v w e =
    Keeps-next b v (on_accelerated_paint info a v) (run es (on_accelerated_paint info a v))
      (on_accelerated_paint-Keeps b info a v w)
      (λ x. run-Keeps b es (on_accelerated_paint info a v) x e)
run-Keeps b (connect true inits ∷ es) v w e =
    Keeps-next b v (connect_task true inits v) (run es (connect_task true inits v))
      (connect_task-Keeps b inits v w) (λ x. run-Keeps b es (connect_task true inits v) x e)
run-Keeps b (poll none types still back a ∷ es) v w e =
    Keeps-next b v (poll_socket none types still back a v)
      (run es (poll_socket none types still back a v)) (poll_socket-Keeps b types still back a v w)
      (λ x. run-Keeps b es (poll_socket none types still back a v) x e)
run-Keeps b (capture on ∷ es) v w e =
    Keeps-next b v (set_capture on v) (run es (set_capture on v)) (set_capture-Keeps b on v w)
      (λ x. run-Keeps b es (set_capture on v) x e)
run-Keeps b (visible on ∷ es) v w e =
    Keeps-next b v (set_overlay_visible on v) (run es (set_overlay_visible on v))
      (set_overlay_visible-Keeps b on v w) (λ x. run-Keeps b es (set_overlay_visible on v) x e)
run-Keeps b (connect false inits ∷ es) v w e = absurd (omega (arith, e))
run-Keeps b (poll (some ack) types still back a ∷ es) v w e = absurd (omega (arith, e))

-- While a frame of a staging buffer waits for its answer and the connection stands, whatever calls a view
-- gets that bring no answer and no loss of the connection, the frame still waits, and its buffer
-- holds what it held: no capture is blitted into the buffer of the frame that waits.
pub run-inflight :
    (es : List Event) (b : GpuBuf) (v : View)
    → v.connected ≡ true
    → v.pending ≡ true
    → v.gpu_inflight ≡ some b
    → settled es ≡ 0
    → ((run es v).pending ≡ true)
      × ((run es v).gpu_inflight ≡ some b)
      × (held_by b (run es v) ≡ held_by b v)
run-inflight es b v c p g e = let ((_, p', g'), h) = run-Keeps b es v (c, p, g) e in (p', g', h)
