-- ===== src/Hook.antt =====
-- src/hook/input: the input hook, between the game's windows and the webview. The globals of
-- wayland/state.c, kb.c and ptr.c that both window systems share, and what the hook sends. xkbcommon
-- and Xlib decode keys and modifiers, so keysyms are arguments.
pub mod Cursor
pub mod Keys
pub mod Configure
pub mod Buttons
pub mod Toggle
use idk_overlay.Prelude.{
  ℕ, ◌%◌, List, [], ◌∷◌, Bool, true, false, Option, none, some, ◌==◌, ◌&&◌, ◌||◌, not,
  if◌then◌else◌,
}
use idk_overlay.Prelude.Int.{ℤ}

-- The union of `idk_input_event_t`, with `type` as the constructor.
pub data Payload : Type 0 where
  key_event : (keycode keysym : ℕ) → Payload
  button_event : (x y : ℤ) (button : ℕ) → Payload
  motion_event : (x y : ℤ) → Payload
  axis_event : (dx dy : ℤ) → Payload
  state_event : Payload
  repeat_event : (rate delay : ℕ) → Payload
  overlay_event : (visible : Bool) → Payload

-- `flags` as its two bits, IDK_INPUT_FLAG_PRESS and IDK_INPUT_FLAG_CAPTURE
pub record Event : Type 0 where
  pub payload : Payload
  pub press : Bool
  pub capture : Bool
  pub mods : ℕ
  pub time : ℕ

-- A hotkey: zero is "none" for each number.
pub record Hotkey : Type 0 where
  pub keysym : ℕ
  pub scancode : ℕ
  pub mods : ℕ

-- The calls that a change of the capture makes outside this state, into the cursor code of each
-- window system and into the game's listeners.
pub data Call : Type 0 where
  dispatch_cursor : Call
  restore_cursor : Call
  forget_generation : Call
  capture_changed : (captured : Bool) → Call
  ensure_shape_device : Call
  set_shape : (serial : ℕ) → Call
  hide_pointer : (serial : ℕ) → Call
  game_motion : (x y : ℤ) → Call

-- What the hook knows of the game's pointer on Wayland; `shape_device` is g_cursor_shape_device as
-- sidecar_ensure_cursor_shape_device leaves it, `motion_listener` whether the game listens.
pub record Pointer : Type 0 where
  pub x : ℤ
  pub y : ℤ
  pub has_proxy : Bool
  pub in_surface : Bool
  pub motion_listener : Bool
  pub shape_device : Bool
  pub enter_serial : ℕ
  pub sidecar_serial : ℕ
  pub pointer_serial : ℕ
  pub cursor_hidden : Bool
  pub pre_hidden : Bool

-- `calls` are those, and `sent` are the events handed to send_event_to_webview while the webview lives, newest first.
pub record Input : Type 0 where
  pub webview_dead : Bool
  pub captured : Bool
  pub hotkey_pressed : Bool
  pub overlay_visible : Bool
  pub capture_key : Hotkey
  pub overlay_key : Hotkey
  pub mods : ℕ
  pub repeat_rate : ℕ
  pub repeat_delay : ℕ
  pub vk_layer : Bool
  pub pointer : Pointer
  pub calls : List Call
  pub sent : List Event

-- send_event_to_webview before the transport
unfoldable pub send_event : Input → Event → Input
send_event s ev = if s.webview_dead then s else record s { sent = ev ∷ s.sent }

unfoldable pub send_overlay_state : Input → Bool → Input
unfolding send_event
send_overlay_state s visible =
    send_event s
      record { payload = overlay_event visible; press = false; capture = false; mods = 0; time = 0 }

unfoldable pub send_capture_state : Input → Bool → Input
unfolding send_event
send_capture_state s capture = send_event s record {
  payload = state_event;
  press = false;
  capture = capture;
  mods = s.mods % 65536;
  time = 0;
}

-- The casts to uint16_t are written out.
unfoldable pub send_repeat_info : Input → Input
unfolding send_event
send_repeat_info s = send_event s record {
  payload = repeat_event (s.repeat_rate % 65536) (s.repeat_delay % 65536);
  press = false;
  capture = true;
  mods = 0;
  time = 0;
}

unfoldable pub call : Input → Call → Input
call s c = record s { calls = c ∷ s.calls }

-- The serial that a cursor request carries.
unfoldable pub cursor_serial : Pointer → ℕ
cursor_serial p =
    if not (p.enter_serial == 0)
    then p.enter_serial
    else if not (p.sidecar_serial == 0)
    then p.sidecar_serial
    else p.pointer_serial

-- The cursor requests of idk_wayland_input_set_capture, outside the Vulkan layer.
unfoldable pub move_cursor : Input → Bool → Input
unfolding call cursor_serial
move_cursor s enable = elim s.pointer.has_proxy [
  | false ↦ s
  | true ↦
      let p = s.pointer in
      let serial = cursor_serial p in
      let s1 = call s ensure_shape_device in
      let can = p.shape_device && not (serial == 0) in
      elim enable [
        | true ↦
            let s2 = record s1 { pointer = record p { pre_hidden = p.cursor_hidden } } in
            if can then call s2 (set_shape serial) else s2
        | false ↦
            let s2 =
              if p.in_surface && p.motion_listener then call s1 (game_motion p.x p.y) else s1 in
            if can
            then (if p.pre_hidden
                then call s2 (hide_pointer serial)
                else call s2 (set_shape serial))
            else s2
      ]
]

-- idk_wayland_input_set_capture
unfoldable pub wayland_set_capture : Input → Bool → Input
unfolding move_cursor call send_capture_state send_repeat_info
wayland_set_capture s enable = elim ((enable && s.captured) || not (enable || s.captured)) [
  | true ↦ s
  | false ↦
      let s1 = record s { captured = enable } in
      let s2 : Input = elim s1.vk_layer [
        | true ↦ call s1 (capture_changed enable)
        | false ↦
            let moved = call (move_cursor s1 enable) (capture_changed enable) in
            if enable then call moved dispatch_cursor else moved
      ] in
      let s3 = send_capture_state s2 enable in if enable then send_repeat_info s3 else s3
]

-- idk_x11_input_set_capture
unfoldable pub x11_set_capture : Input → Bool → Input
unfolding call send_capture_state send_repeat_info
x11_set_capture s enable = elim ((enable && s.captured) || not (enable || s.captured)) [
  | true ↦ s
  | false ↦
      let s1 = record s { captured = enable } in
      let s2 : Input = elim enable [
        | true ↦ call (call s1 forget_generation) dispatch_cursor
        | false ↦ call (call s1 restore_cursor) forget_generation
      ] in
      let s3 = send_capture_state s2 enable in if enable then send_repeat_info s3 else s3
]
