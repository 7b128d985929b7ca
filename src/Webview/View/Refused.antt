-- ===== src/Webview/View/Refused.antt =====
-- src/cli/webview_cef/view.cc: frames that the game refused.
use idk_overlay.Prelude.{◌≡◌, true, false, not, ◌&&◌, ◌||◌, ◌⊎◌, is_some, ◌==◌, length}
use idk_overlay.Wire.{Ack}
use idk_overlay.Webview.View.{View}

-- No baseline, and a full frame is due.
abbrev Stale : View → Type 0
Stale v = (v.shm_baseline_valid ≡ false) × (v.needs_full_update ≡ true)

-- A frame that can be sent again.
abbrev pub CanRedo : View → Type 0
CanRedo v =
    (is_some v.gpu_inflight ≡ true) ⊎ ((v.last_sent_shm && not (length v.shm_shadow == 0)) ≡ true)

-- No answer but a new size changes the page's size.
abbrev SameSize : View → View → Type 0
SameSize v u = (u.render_w ≡ v.render_w) × (u.render_h ≡ v.render_h)

-- The answer brings no new size: it names none, or the one that the page has.
abbrev pub NoResize : Ack → View → Type 0
NoResize ack v =
    ((ack.w == 0) || (ack.h == 0) || ((ack.w == v.render_w) && (ack.h == v.render_h))) ≡ true
