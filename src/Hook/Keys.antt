-- ===== src/Hook/Keys.antt =====
-- The key handlers: src/hook/input/wayland/hotkey.c, wayland/sidecar/kb.c and x11/kb.c.
use idk_overlay.Prelude.{
  ℕ, ◌+◌, ◌-◌, ◌%◌, Bool, true, false, Option, none, some, ltb, ◌==◌, ◌&&◌, ◌||◌, not,
  if◌then◌else◌,
}
use Prim.Native.Nat.{bit_and}
use idk_overlay.Hook.{
  Input, Hotkey, key_event, send_event, send_overlay_state, wayland_set_capture, x11_set_capture,
}

-- is_capture_hotkey and is_overlay_hotkey, on the hotkey that each reads
unfoldable pub is_hotkey : Hotkey → ℕ → ℕ → ℕ → Bool
is_hotkey h mods key keysym =
    if (not (h.keysym == 0) && (keysym == h.keysym))
      || (not (h.scancode == 0) && (key == h.scancode))
    then (if h.mods == 0 then true else bit_and mods h.mods == h.mods)
    else false

abbrev pub same_key : Input → Bool
same_key s =
    (s.capture_key.keysym == s.overlay_key.keysym) && (s.capture_key.mods == s.overlay_key.mods)

abbrev pub cap_match : Input → ℕ → ℕ → Bool
cap_match s key keysym = is_hotkey s.capture_key s.mods key keysym

abbrev pub ovl_match : Input → ℕ → ℕ → Bool
ovl_match s key keysym = not (same_key s) && is_hotkey s.overlay_key s.mods key keysym

-- The overlay is shown, and the webview told.
unfoldable pub show_overlay : Input → Input
unfolding send_overlay_state
show_overlay s = send_overlay_state (record s { overlay_visible = true }) true

-- A press of the capture hotkey.
unfoldable pub toggle_capture : (Input → Bool → Input) → Input → Input
unfolding show_overlay
toggle_capture set_capture s = elim (same_key s) [
  | true ↦ elim s.captured [
    | false ↦ show_overlay (set_capture s true)
    | true ↦ set_capture s false
  ]
  | false ↦ let s1 = set_capture s (not s.captured) in if s1.captured then show_overlay s1 else s1
]

-- A press of the overlay hotkey.
unfoldable pub toggle_overlay : Input → Input
unfolding send_overlay_state
toggle_overlay s =
    let v = not s.overlay_visible in send_overlay_state (record s { overlay_visible = v }) v

-- The branches of the hotkeys; `none`: the key is no hotkey, or the webview is dead.
unfoldable pub handle_hotkey : (Input → Bool → Input) → Input → ℕ → ℕ → Bool → Option Input
unfolding toggle_capture toggle_overlay
handle_hotkey set_capture s key keysym pressed = elim s.webview_dead [
  | true ↦ none
  | false ↦ elim (cap_match s key keysym) [
    | true ↦ some (
        if pressed && not s.hotkey_pressed
        then toggle_capture set_capture (record s { hotkey_pressed = true })
        else if pressed
        then s
        else record s { hotkey_pressed = false })
    | false ↦ elim (ovl_match s key keysym) [
      | true ↦ some (
          if pressed && not s.hotkey_pressed
          then toggle_overlay (record s { hotkey_pressed = true })
          else if pressed
          then s
          else record s { hotkey_pressed = false })
      | false ↦ none
    ]
  ]
]

-- The event that a captured key becomes; `down` is `state != 0`.
unfoldable pub send_key : Input → ℕ → ℕ → ℕ → Bool → Input
unfolding send_event
send_key s time key keysym down = send_event s record {
  payload = key_event key keysym;
  press = down;
  capture = true;
  mods = s.mods % 65536;
  time = time;
}

-- wkb_key; the second result says whether the game's own handler is called. `state` is the
-- protocol's: 0 released, 1 pressed, 2 repeated.
unfoldable pub wkb_key : Input → ℕ → ℕ → ℕ → ℕ → Input × Bool
unfolding handle_hotkey send_key
wkb_key s time key keysym state = elim ((key == 0) && (state == 0)) [
  | true ↦ (s, false)
  | false ↦ elim (handle_hotkey wayland_set_capture s key keysym (state == 1)) [
    | some s' ↦ (s', false)
    | none ↦
        if s.captured then (send_key s time key keysym (not (state == 0)), false) else (s, true)
  ]
]

-- sidecar_kb_key
unfoldable pub sidecar_kb_key : Input → ℕ → ℕ → ℕ → Input
unfolding handle_hotkey
sidecar_kb_key s key keysym state = elim ((key == 0) && (state == 0)) [
  | true ↦ s
  | false ↦ elim (handle_hotkey wayland_set_capture s key keysym (state == 1)) [
    | some s' ↦ s'
    | none ↦ s
  ]
]

-- update_mods_from_state: ShiftMask 1, ControlMask 4, Mod1Mask 8, Mod4Mask 64
unfoldable pub mods_of : ℕ → ℕ
mods_of state =
    (if bit_and state 1 == 0 then 0 else 2)
    + (if bit_and state 4 == 0 then 0 else 1)
    + (if bit_and state 8 == 0 then 0 else 4)
    + (if bit_and state 64 == 0 then 0 else 8)

unfoldable pub keycode_to_scancode : ℕ → ℕ
keycode_to_scancode keycode = if ltb keycode 8 then keycode else keycode - 8

-- x11_handle_key_event; the second result says whether the event is kept from the game.
unfoldable pub x11_handle_key_event : Input → ℕ → ℕ → ℕ → ℕ → Bool → Input × Bool
unfolding mods_of keycode_to_scancode handle_hotkey send_key
x11_handle_key_event s time keycode keysym state pressed =
    let s0 = record s { mods = mods_of state } in
    let scancode = keycode_to_scancode keycode in
    elim (handle_hotkey x11_set_capture s0 scancode keysym pressed) [
      | some s' ↦ (s', true)
      | none ↦
          if s0.captured
          then (
            send_key (if pressed then record s0 { hotkey_pressed = false } else s0) time scancode
                keysym pressed,
            true,
          )
          else (s0, false)
    ]
