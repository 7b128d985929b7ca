-- ===== src/Hook/Toggle.antt =====
-- What the hotkeys do to the capture, on Wayland (wayland/hotkey.c, wayland/sidecar/kb.c) and X11.
use idk_overlay.Prelude.{
  ℕ, ◌%◌, ◌≡◌, ◌↔◌, refl, ◌∷◌, Bool, true, false, none, ◌==◌, ◌&&◌, not, arith, ◌∙◌,
}
use idk_overlay.Hook.{
  Input, key_event, call, move_cursor, send_event, send_overlay_state, send_capture_state,
  send_repeat_info, wayland_set_capture, x11_set_capture,
}
use idk_overlay.Hook.Keys.{
  is_hotkey, cap_match, ovl_match, show_overlay, toggle_capture, handle_hotkey, wkb_key,
  sidecar_kb_key, send_key, x11_handle_key_event, mods_of, keycode_to_scancode,
}

-- What a change of the capture leaves alone: the hotkeys, the modifiers and the two flags.
abbrev pub Agrees : Input → Input → Type 0
Agrees s s' =
    (s'.capture_key ≡ s.capture_key)
    × (s'.overlay_key ≡ s.overlay_key)
    × (s'.mods ≡ s.mods)
    × (s'.webview_dead ≡ s.webview_dead)
    × (s'.hotkey_pressed ≡ s.hotkey_pressed)

wayland_set_capture-Agrees :
    (s : Input) (b : Bool)
    → Agrees s (wayland_set_capture s b) × ((wayland_set_capture s b).captured ≡ b)
unfolding wayland_set_capture move_cursor call send_capture_state send_repeat_info send_event
wayland_set_capture-Agrees s b = ground arith

toggle_capture-Agrees :
    (s : Input)
    → Agrees s (toggle_capture wayland_set_capture s)
      × ((toggle_capture wayland_set_capture s).captured ≡ not s.captured)
unfolding toggle_capture show_overlay send_overlay_state send_event
toggle_capture-Agrees s =
    ground (arith, wayland_set_capture-Agrees s true, wayland_set_capture-Agrees s false)

-- What one press of the capture hotkey makes of the state.
pressed_once : Input → Input
pressed_once s = toggle_capture wayland_set_capture (record s { hotkey_pressed = true })

wkb_key-pressed :
    (s : Input) (time key keysym : ℕ)
    → s.webview_dead ≡ false
    → cap_match s key keysym ≡ true
    → s.hotkey_pressed ≡ false
    → wkb_key s time key keysym 1 ≡ (pressed_once s, false)
unfolding wkb_key handle_hotkey pressed_once
wkb_key-pressed s time key keysym d m p = ground (arith, d, m, p)

cap_match-cong :
    (s s' : Input) (key keysym : ℕ)
    → Agrees s s'
    → cap_match s key keysym ≡ true
    → cap_match s' key keysym ≡ true
cap_match-cong s s' key keysym a m = rw (a.0, a.2) m

sidecar_kb_key-held :
    (s : Input) (key keysym : ℕ)
    → s.webview_dead ≡ false
    → cap_match s key keysym ≡ true
    → s.hotkey_pressed ≡ true
    → sidecar_kb_key s key keysym 1 ≡ s
unfolding sidecar_kb_key handle_hotkey
sidecar_kb_key-held s key keysym d m p = ground (arith, d, m, p)

wkb_key-held :
    (s : Input) (time key keysym : ℕ)
    → s.webview_dead ≡ false
    → cap_match s key keysym ≡ true
    → s.hotkey_pressed ≡ true
    → wkb_key s time key keysym 1 ≡ (s, false)
unfolding wkb_key handle_hotkey
wkb_key-held s time key keysym d m p = ground (arith, d, m, p)

-- While the webview lives and no hotkey is held down, a press of the capture hotkey, heard by the
-- game's keyboard, turns the capture over once: when the hook's own keyboard hears the same press
-- after it, or the game's keyboard hears it again, nothing changes and the game is told nothing.
pub wkb_key-toggles_once :
    (s : Input) (time time' key keysym : ℕ)
    → s.webview_dead ≡ false
    → cap_match s key keysym ≡ true
    → s.hotkey_pressed ≡ false
    → (s' : Input) × (wkb_key s time key keysym 1 ≡ (s', false))
      × (s'.captured ≡ not s.captured)
      × (sidecar_kb_key s' key keysym 1 ≡ s')
      × (wkb_key s' time' key keysym 1 ≡ (s', false))
unfolding pressed_once
wkb_key-toggles_once s time time' key keysym d m p =
    let (a, c) = toggle_capture-Agrees (record s { hotkey_pressed = true }) in
    let dead : (pressed_once s).webview_dead ≡ false = a.3 ∙ d in
    let match' : cap_match (pressed_once s) key keysym ≡ true =
      cap_match-cong (record s { hotkey_pressed = true }) (pressed_once s) key keysym a m in
    (
      pressed_once s,
      wkb_key-pressed s time key keysym d m p,
      c,
      sidecar_kb_key-held (pressed_once s) key keysym dead match' a.4,
      wkb_key-held (pressed_once s) time' key keysym dead match' a.4,
    )

-- A capture hotkey whose modifier `m` is up before its key stays held down for the hook: the release
-- of the key does not free it, and the next press of the hotkey does not turn the capture over. The
-- overlay hotkey is another key.
pub wkb_key-stays_held :
    (s : Input) (m time time' key keysym : ℕ)
    → s.webview_dead ≡ false
    → s.hotkey_pressed ≡ true
    → cap_match s key keysym ≡ true
    → is_hotkey s.capture_key m key keysym ≡ false
    → is_hotkey s.overlay_key m key keysym ≡ false
    → (s' : Input) × (s' ≡ (wkb_key (record s { mods = m }) time key keysym 0).0)
      × (s'.hotkey_pressed ≡ true)
      × ((wkb_key (record s' { mods = s.mods }) time' key keysym 1).0.captured ≡ s.captured)
unfolding wkb_key handle_hotkey send_key send_event
wkb_key-stays_held s m time time' key keysym d p c n o = (
  (wkb_key (record s { mods = m }) time key keysym 0).0,
  refl,
  ground (arith, d, p, c, n, o),
  ground (arith, d, p, c, n, o),
)

-- When the game's keyboard handler is called on Wayland, the capture is off, and the hook has done
-- nothing else.
wkb_key-game :
    (s : Input) (time key keysym state : ℕ)
    → (wkb_key s time key keysym state).1 ≡ true
    → (s.captured ≡ false) × ((wkb_key s time key keysym state).0 ≡ s)
unfolding wkb_key handle_hotkey
wkb_key-game s time key keysym state e = ground (arith, e)

-- A captured key that is no hotkey goes to the webview alone, once, with its code, its keysym and
-- the modifiers of the moment, on Wayland, whatever its state; the pair of zeros is no key.
wkb_key-webview :
    (s : Input) (time key keysym state : ℕ)
    → s.captured ≡ true
    → s.webview_dead ≡ false
    → cap_match s key keysym ≡ false
    → ovl_match s key keysym ≡ false
    → ((key == 0) && (state == 0)) ≡ false
    → wkb_key s time key keysym state ≡ (
      record s {
        sent =
            record {
              payload = key_event key keysym;
              press = not (state == 0);
              capture = true;
              mods = s.mods % 65536;
              time = time;
            }
            ∷ s.sent;
      },
      false,
    )
unfolding wkb_key handle_hotkey send_key send_event
wkb_key-webview s time key keysym state c d m o z = ground (arith, c, d, m, o, z)

x11_set_capture-captured : (s : Input) (b : Bool) → (x11_set_capture s b).captured ≡ b
unfolding x11_set_capture call send_capture_state send_repeat_info send_event
x11_set_capture-captured s b = ground arith

-- On X11 an event that a hotkey or the capture takes is kept from the game, and a key reaches the
-- game exactly when the capture is off before it and no hotkey of a living webview matches it under
-- the modifiers that the event carries.
x11_handle_key_event-game :
    (s : Input) (time keycode keysym state : ℕ) (pressed : Bool)
    → ((x11_handle_key_event s time keycode keysym state pressed).1 ≡ false) ↔ (
        (s.captured ≡ false)
        × (handle_hotkey x11_set_capture
              (record s { mods = mods_of state })
              (keycode_to_scancode keycode)
              keysym
              pressed
            ≡ none))
unfolding x11_handle_key_event
x11_handle_key_event-game s time keycode keysym state pressed = ground arith
