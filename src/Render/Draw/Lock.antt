-- ===== src/Render/Draw/Lock.antt =====
-- Which calls of idk_vk_compositor_render_overlay give vk_render_lock back.
use idk_overlay.Prelude.{
  ℕ, ◌≡◌, refl, sym, ap, subst, ◌∙◌, Bool, true, false, Option, none, some, is_some, if◌then◌else◌,
  arith, ◌⊎◌, inl, inr,
}
use idk_overlay.Render.Ring.{Frame, ring_cooldown_active, ring_submit}
use idk_overlay.Render.Context.{Context}
use idk_overlay.Render.Upload.{Upload, done, fault}
use idk_overlay.Render.Receive.{overlay_upload}
use idk_overlay.Render.Draw.Keeps.{
  Keeps, KeepsUpload, Keeps-compose, overlay_upload-Keeps, overlay_ensure_pipeline-Keeps,
  make_framebuffer-Keeps,
}
use idk_overlay.Render.Draw.{
  Vk, Drawn, returned, faulted, blocked, overlay_ensure_pipeline, make_framebuffer, submit_made,
  draw_begun, ring_begin_cmd, after_upload, draw_locked, render_overlay,
}

-- A call that took the lock at `c`: it returns with the lock and nothing submitted, or without the
-- lock and one frame submitted.
abbrev Ended : Context → Vk → Drawn → Type 0
Ended c v (returned c') =
    (c'.overlay.has_frame ≡ c.overlay.has_frame)
    × (((c'.locked ≡ true) × (c'.ring ≡ c.ring))
        ⊎ ((c'.locked ≡ false) × (f : Frame) × (c'.ring ≡ (ring_submit c.ring v.driver f).1)))
Ended c v faulted = Unit
Ended c v blocked = Unit

submit_made-Ended :
    (c : Context) (m : Option (ℕ × ℕ) × Context) (v : Vk) (cmd : ℕ)
    → c.locked ≡ true
    → Keeps c m.1
    → Ended c v (submit_made m v cmd)
unfolding submit_made
submit_made-Ended c (none, c1) v cmd t (r, l, h) = (h, inl (l ∙ t, r))
submit_made-Ended c (some (fb, view), c1) v cmd t (r, l, h) =
    let frame : Frame = record { cmd = cmd; fb = fb; view = view } in
    (h, inr (refl, frame, ap (λ x. (ring_submit x v.driver frame).1) r))

after_upload-Ended :
    (c : Context) (u : Upload) (v : Vk) (cmd : ℕ)
    → c.locked ≡ true
    → KeepsUpload c u
    → Ended c v (after_upload u v cmd)
unfolding after_upload
after_upload-Ended c fault v cmd t k = tt
after_upload-Ended c (done false c1) v cmd t (r, l, h) = (h, inl (l ∙ t, r))
after_upload-Ended c (done true c1) v cmd t k = shown (is_some c1.overlay.view)
  where
    shown :
        (b : Bool)
        → Ended c v (if b then submit_made (make_framebuffer c1 v) v cmd else returned c1)
    shown true =
        submit_made-Ended c (make_framebuffer c1 v) v cmd t
          (Keeps-compose c c1 (make_framebuffer c1 v).1 k (make_framebuffer-Keeps c1 v))
    shown false = (k.2, inl (k.1 ∙ t, k.0))

draw_begun-Ended :
    (c c1 : Context) (o : Option ℕ) (v : Vk)
    → c.locked ≡ true
    → Keeps c c1
    → Ended c v (draw_begun o c1 v)
unfolding draw_begun
draw_begun-Ended c c1 none v t (r, l, h) = (h, inl (l ∙ t, r))
draw_begun-Ended c c1 (some cmd) v t k =
    after_upload-Ended c (overlay_upload c1 v.gpu v.icd v.file) v cmd t
      (through (overlay_upload c1 v.gpu v.icd v.file) (overlay_upload-Keeps c1 v.gpu v.icd v.file))
  where
    through : (u : Upload) → KeepsUpload c1 u → KeepsUpload c u
    through fault _ = tt
    through (done b c2) k' = Keeps-compose c c1 c2 k k'

draw_locked-Ended : (c : Context) (v : Vk) (f : ℕ) → c.locked ≡ true → Ended c v (draw_locked c v f)
unfolding draw_locked
draw_locked-Ended c v f t = cooled (ring_cooldown_active c.created v.now)
  where
    ready :
        (b : Bool)
        → Ended c v (
            if b
            then draw_begun (ring_begin_cmd v) (overlay_ensure_pipeline c v f).1 v
            else returned (overlay_ensure_pipeline c v f).1)
    ready true =
        draw_begun-Ended c (overlay_ensure_pipeline c v f).1 (ring_begin_cmd v) v t
          (overlay_ensure_pipeline-Keeps c v f)
    ready false = let (r, l, h) = overlay_ensure_pipeline-Keeps c v f in (h, inl (l ∙ t, r))

    cooled :
        (b : Bool)
        → Ended c v (
            if b
            then returned c
            else (if (overlay_ensure_pipeline c v f).0
                then draw_begun (ring_begin_cmd v) (overlay_ensure_pipeline c v f).1 v
                else returned (overlay_ensure_pipeline c v f).1))
    cooled true = (refl, inl (t, refl))
    cooled false = ready (overlay_ensure_pipeline c v f).0

takes_lock :
    (c : Context) (v : Vk) (format : ℕ)
    → c.overlay.has_frame ≡ true
    → c.locked ≡ false
    → render_overlay c v true format ≡ draw_locked (record c { locked = true }) v format
unfolding render_overlay
takes_lock c v format f l = ground (arith, f, l)

waits :
    (c : Context) (v : Vk) (format : ℕ)
    → c.overlay.has_frame ≡ true
    → c.locked ≡ true
    → render_overlay c v true format ≡ blocked
unfolding render_overlay
waits c v format f l = ground (arith, f, l)

-- A call that has a frame and an image to draw and finds the lock free returns in one of two ways. It
-- submitted one frame to the ring and the lock is free again; or it submitted nothing, and then every
-- later call with an image waits for ever, the lock being held by a thread that returned.
pub render_overlay-lock :
    (c c' : Context) (v v' : Vk) (format format' : ℕ)
    → c.overlay.has_frame ≡ true
    → c.locked ≡ false
    → render_overlay c v true format ≡ returned c'
    → ((c'.locked ≡ false) × (f : Frame) × (c'.ring ≡ (ring_submit c.ring v.driver f).1))
      ⊎ ((c'.ring ≡ c.ring) × (render_overlay c' v' true format' ≡ blocked))
render_overlay-lock c c' v v' format format' f l e = go (
    subst (Ended held v) (sym (takes_lock c v format f l) ∙ e)
      (draw_locked-Ended held v format refl))
  where
    held : Context
    held = record c { locked = true }

    go :
        Ended held v (returned c')
        → ((c'.locked ≡ false) × (x : Frame) × (c'.ring ≡ (ring_submit c.ring v.driver x).1))
          ⊎ ((c'.ring ≡ c.ring) × (render_overlay c' v' true format' ≡ blocked))
    go (h, inl (t, r)) = inr (r, waits c' v' format' (h ∙ f) t)
    go (h, inr s) = inl s

-- During the 100 ms after a swapchain was created, a call that has a frame and an image to draw and finds
-- the lock free returns, and every later call with an image waits for ever.
pub render_overlay-cooldown :
    (c : Context) (v v' : Vk) (format format' : ℕ)
    → c.overlay.has_frame ≡ true
    → c.locked ≡ false
    → ring_cooldown_active c.created v.now ≡ true
    → (c' : Context) × (render_overlay c v true format ≡ returned c')
      × (render_overlay c' v' true format' ≡ blocked)
unfolding draw_locked
render_overlay-cooldown c v v' format format' f l k = (
  record c { locked = true },
  takes_lock c v format f l ∙ ground (arith, k),
  waits (record c { locked = true }) v' format' f refl,
)
