-- ===== src/Hook/Buttons.antt =====
-- The pointer handlers: src/hook/input/wayland/ptr.c and x11/ptr.c.
use idk_overlay.Prelude.{
  ℕ, ◌+◌, length, arith, ◌-◌, ◌%◌, ◌/◌, ◌≡◌, Bool, true, false, ltb, ◌==◌, ◌&&◌, ◌||◌, not,
  if◌then◌else◌, suc,
}
use idk_overlay.Prelude.Int.{ℤ, pos, negsuc}
use idk_overlay.Hook.{
  Input, Payload, button_event, motion_event, axis_event, send_event, call, set_shape,
}
use idk_overlay.Hook.Keys.{mods_of}

-- WL_FIXED_TO_INT: division by 256 towards zero
unfoldable pub fixed_to_int : ℤ → ℤ
fixed_to_int (pos n) = pos (n / 256)
fixed_to_int (negsuc n) = if ltb n 255 then pos 0 else negsuc (suc n / 256 - 1)

-- The cursor shape that a captured pointer is given again at every event.
unfoldable pub renew_shape : Input → Input
unfolding call
renew_shape s =
    if s.pointer.shape_device && not (s.pointer.enter_serial == 0)
    then call s (set_shape s.pointer.enter_serial)
    else s

unfoldable pub send_pointer : Input → ℕ → Payload → Bool → Input
unfolding send_event
send_pointer s time payload press =
    send_event s record {
      payload = payload;
      press = press;
      capture = true;
      mods = s.mods % 65536;
      time = time;
    }

-- wptr_motion; the second result says whether the game's own handler is called.
unfoldable pub wptr_motion : Input → ℕ → ℤ → ℤ → Input × Bool
unfolding fixed_to_int renew_shape send_pointer
wptr_motion s time sx sy =
    let s1 = record s { pointer = record s.pointer { x = fixed_to_int sx; y = fixed_to_int sy } } in
    if s1.captured
    then (
      send_pointer (renew_shape s1) time (motion_event (fixed_to_int sx) (fixed_to_int sy)) false,
      false,
    )
    else (s1, true)

-- wptr_button
unfoldable pub wptr_button : Input → ℕ → ℕ → ℕ → ℕ → Input × Bool
unfolding renew_shape send_pointer
wptr_button s serial time button state =
    let s1 = record s {
      pointer = record s.pointer {
        pointer_serial = serial;
        in_surface = true;
        has_proxy = s.pointer.has_proxy || not s.pointer.in_surface;
      };
    } in
    if s1.captured
    then (
      send_pointer (renew_shape s1) time (button_event s1.pointer.x s1.pointer.y button)
          (not (state == 0)),
      false,
    )
    else (s1, true)

-- wptr_axis; axis 0 is the vertical one.
unfoldable pub wptr_axis : Input → ℕ → ℕ → ℤ → Input × Bool
unfolding fixed_to_int renew_shape send_pointer
wptr_axis s time axis value =
    if s.captured
    then (
      send_pointer (renew_shape s) time
          (if axis == 0
            then axis_event (pos 0) (fixed_to_int value)
            else axis_event (fixed_to_int value) (pos 0))
          false,
      false,
    )
    else (s, true)

-- wptr_leave
unfoldable pub wptr_leave : Input → Input × Bool
wptr_leave s = (record s { pointer = record s.pointer { in_surface = false } }, true)

-- x11_button_to_wayland
unfoldable pub x11_button_to_wayland : ℕ → ℕ
x11_button_to_wayland button =
    if button == 1
    then 272
    else if button == 2
    then 274
    else if button == 3
    then 273
    else if button == 8
    then 275
    else if button == 9
    then 276
    else 0

abbrev pub wheel : ℕ → Payload
wheel button =
    if button == 4
    then axis_event (pos 0) (negsuc 11)
    else if button == 5
    then axis_event (pos 0) (pos 12)
    else if button == 6
    then axis_event (negsuc 11) (pos 0)
    else axis_event (pos 12) (pos 0)

-- x11_handle_button_event; the second result says whether the event is kept from the game. The
-- game's window, which it also notes, is no part of this state.
unfoldable pub x11_handle_button_event : Input → ℕ → ℕ → ℕ → ℤ → ℤ → Bool → Input × Bool
unfolding mods_of x11_button_to_wayland send_pointer
x11_handle_button_event s time state button x y pressed =
    let s1 = record s { mods = mods_of state } in
    elim s1.captured [
      | false ↦ (s1, false)
      | true ↦ elim (not (ltb button 4) && ltb button 8) [
        | true ↦ if pressed then (send_pointer s1 time (wheel button) false, true) else (s1, true)
        | false ↦
            let b = x11_button_to_wayland button in
            if b == 0
            then (s1, false)
            else (send_pointer s1 time (button_event x y b) pressed, true)
      ]
    ]

-- x11_handle_motion_event
unfoldable pub x11_handle_motion_event : Input → ℕ → ℕ → ℤ → ℤ → Input × Bool
unfolding mods_of send_pointer
x11_handle_motion_event s time state x y =
    let s1 = record s { mods = mods_of state } in
    if s1.captured then (send_pointer s1 time (motion_event x y) false, true) else (s1, false)

-- While the capture is on, X11 buttons 1 to 9 are kept from the game, and a press of one hands the
-- webview one event; other buttons reach the game and the webview hears nothing.
x11_handle_button_event-captured :
    (s : Input) (time state button : ℕ) (x y : ℤ)
    → s.captured ≡ true
    → s.webview_dead ≡ false
    → ((x11_handle_button_event s time state button x y true).1 ≡ (ltb 0 button && ltb button 10))
      × (length (x11_handle_button_event s time state button x y true).0.sent
          ≡ (if ltb 0 button && ltb button 10 then 1 else 0) + length s.sent)
unfolding x11_handle_button_event x11_button_to_wayland send_pointer send_event
x11_handle_button_event-captured s time state button x y c d = ground (arith, c, d)
