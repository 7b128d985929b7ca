-- ===== src/Layer/Drawing.antt =====
-- src/hook/vklayer/present.c: how a present ends on a device that can present.
use idk_overlay.Prelude.{
  ℕ, ◌≡◌, ◌⊎◌, refl, Bool, true, false, not, ◌||◌, inl, inr, Option, none, some, is_some, if_holds,
  arith,
}
use idk_overlay.Render.Ring.{ring_cooldown_active}
use idk_overlay.Render.Context.{Context}
use idk_overlay.Render.Upload.{Upload, done, fault}
use idk_overlay.Render.Receive.{overlay_upload}
use idk_overlay.Render.Draw.{
  Vk, Drawn, returned, faulted, blocked, overlay_ensure_pipeline, make_framebuffer, submit_made,
  draw_begun, ring_begin_cmd, after_upload, draw_locked, render_overlay,
}
use idk_overlay.Layer.{Swapchain, Layer}
use idk_overlay.Layer.Present.{
  Present, Presented, reached, stuck, crashed, draw_target, draw_on, present_drawn, present_to,
}

-- A call of render_overlay that holds the lock does not wait for it.
abbrev NotBlocked : Drawn → Type 0
NotBlocked (returned c) = Unit
NotBlocked faulted = Unit
NotBlocked blocked = ⊥

submit_made-NotBlocked :
    (m : Option (ℕ × ℕ) × Context) (v : Vk) (cmd : ℕ) → NotBlocked (submit_made m v cmd)
unfolding submit_made
submit_made-NotBlocked (none, c) v cmd = tt
submit_made-NotBlocked (some (fb, view), c) v cmd = tt

draw_begun-NotBlocked : (o : Option ℕ) (c : Context) (v : Vk) → NotBlocked (draw_begun o c v)
unfolding draw_begun after_upload
draw_begun-NotBlocked none c v = tt
draw_begun-NotBlocked (some cmd) c v = go (overlay_upload c v.gpu v.icd v.file)
  where
    go : (u : Upload) → NotBlocked (after_upload u v cmd)
    go fault = tt
    go (done false c1) = tt
    go (done true c1) =
        if_holds NotBlocked (is_some c1.overlay.view) _ _
          (λ e. submit_made-NotBlocked (make_framebuffer c1 v) v cmd) (λ e. tt)

draw_locked-NotBlocked : (c : Context) (v : Vk) (f : ℕ) → NotBlocked (draw_locked c v f)
unfolding draw_locked
draw_locked-NotBlocked c v f =
    if_holds NotBlocked (ring_cooldown_active c.created v.now) _ _ (λ e. tt)
      (λ e.
        if_holds NotBlocked (overlay_ensure_pipeline c v f).0 _ _
          (λ e'. draw_begun-NotBlocked (ring_begin_cmd v) (overlay_ensure_pipeline c v f).1 v)
          (λ e'. tt))

-- How a drawing ends that finds the renderer at `c`.
abbrev Ended : Context → Drawn → Type 0
Ended c (returned c') = Unit
Ended c faulted = (c.locked ≡ false) × (c.overlay.has_frame ≡ true)
Ended c blocked = (c.locked ≡ true) × (c.overlay.has_frame ≡ true)

has_frame_of :
    (c : Context) (image : Bool)
    → (not c.overlay.has_frame || not image) ≡ false
    → c.overlay.has_frame ≡ true
has_frame_of c image e = ground (arith, e)

render_overlay-Ended :
    (c : Context) (v : Vk) (image : Bool) (f : ℕ) → Ended c (render_overlay c v image f)
unfolding render_overlay
render_overlay-Ended c v image f =
    if_holds (Ended c) (not c.overlay.has_frame || not image) _ _ (λ e. tt)
      (λ e.
        if_holds (Ended c) c.locked _ _ (λ t. (t, has_frame_of c image e))
          (λ t.
            go (draw_locked (record c { locked = true }) v f)
              (draw_locked-NotBlocked (record c { locked = true }) v f) t (has_frame_of c image e)))
  where
    go : (d : Drawn) → NotBlocked d → c.locked ≡ false → c.overlay.has_frame ≡ true → Ended c d
    go (returned c') n t h = tt
    go faulted n t h = (t, h)
    go blocked n t h = absurd n

-- A present on a known device at a renderer `c`: it reaches the device, or waits for the lock, or crashes.
abbrev pub Arrives : ℕ → ℕ → Present → Context → Presented → Type 0
Arrives device result p c r =
    ((c' : Context) × (r ≡ reached device result c'))
    ⊎ (((r ≡ stuck) × (c.locked ≡ true) × (c.overlay.has_frame ≡ true) × (p.visible ≡ true))
        ⊎ ((r ≡ crashed) × (c.locked ≡ false) × (c.overlay.has_frame ≡ true) × (p.visible ≡ true)))

draw_target-visible :
    (p : Present) (c : Context) (l : Layer) (s : Swapchain)
    → draw_target p c l ≡ some s
    → p.visible ≡ true
unfolding draw_target
draw_target-visible p c l s e = ground (arith, e)

pub present_to-Arrives :
    (device result : ℕ) (p : Present) (c : Context) (l : Layer)
    → Arrives device result p c (present_to (some device) p result c l)
unfolding present_to draw_on present_drawn
present_to-Arrives device result p c l = go (draw_target p c l) refl
  where
    drawn :
        (d : Drawn)
        → Ended c d
        → p.visible ≡ true
        → Arrives device result p c (present_drawn d device result)
    drawn (returned c') e v = inl (c', refl)
    drawn faulted (t, h) v = inr (inr (refl, t, h, v))
    drawn blocked (t, h) v = inr (inl (refl, t, h, v))

    go :
        (o : Option Swapchain)
        → draw_target p c l ≡ o
        → Arrives device result p c (present_drawn (draw_on p c o) device result)
    go none e = inl (c, refl)
    go (some s) e =
        drawn (render_overlay c p.vk p.image s.format)
          (render_overlay-Ended c p.vk p.image s.format) (draw_target-visible p c l s e)
