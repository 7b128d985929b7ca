-- ===== src/Tests/Hooks.antt =====
-- Runs of the input hook, of the webview's monitor and of the broker.
use idk_overlay.Prelude.{
  ℕ, ◌≤◌, ◌≡◌, ◌⊎◌, refl, ◌++◌, inl, List, [], ◌∷◌, true, false, Option, none, some, replicate,
  arith,
}
use idk_overlay.Wire.{CursorUpdate}
use idk_overlay.Hook.Cursor.{
  Cursors, Wayland, cursor_dispatch, cursor_buffer_release, cleanup_loop, cursor_shutdown,
}
use idk_overlay.Hook.Cursor.Ledger.{
  IsBalanced, dispatches, releases, shuts_down, no_cursors, Reach, start, later, Reach-IsBalanced,
}
use idk_overlay.Prelude.Int.{pos}
use idk_overlay.Wire.Bytes.{le32, of_le32}
use idk_overlay.Chunks.{Read, got, read_all}
use idk_overlay.Hook.{Input, Hotkey, Pointer}
use idk_overlay.Hook.Configure.{
  configure_hotkey, mods_named, find_named, same_string, configure_hotkey-named,
}
use idk_overlay.Hook.Keys.{is_hotkey, wkb_key, sidecar_kb_key}
use idk_overlay.Hook.Toggle.{wkb_key-toggles_once, wkb_key-stays_held}
use idk_overlay.Preload.Monitor.{Status, exited, signaled, Preload}
use idk_overlay.Broker.{
  Handshake, handshake_fields, poll_timeout, idle, handle_session, session_thread, start_webview,
  validate_handshake, run_webview, session_loop,
}
use idk_overlay.Broker.Session.{acked, reaped, closed, session_thread-once}
use idk_overlay.Prelude.Errno.{eintr}
use idk_overlay.Prelude.Io.{ret, sys_fail}
use idk_overlay.Broker.Connect.{Connected, connect_via_broker, connect_via_broker-once}

abbrev still : Pointer
still = record {
  x = pos 0;
  y = pos 0;
  has_proxy = true;
  in_surface = true;
  motion_listener = true;
  shape_device = true;
  enter_serial = 5;
  sidecar_serial = 0;
  pointer_serial = 5;
  cursor_hidden = true;
  pre_hidden = false;
}

-- Shift+Tab takes the capture, F8 the overlay; Shift is down.
abbrev hook : Input
hook = record {
  webview_dead = false;
  captured = false;
  hotkey_pressed = false;
  overlay_visible = false;
  capture_key = record { keysym = 65289; scancode = 15; mods = 2 };
  overlay_key = record { keysym = 65477; scancode = 66; mods = 0 };
  mods = 2;
  repeat_rate = 25;
  repeat_delay = 500;
  vk_layer = false;
  pointer = still;
  calls = [];
  sent = [];
}

wkb_key-toggles_once_example :
    (s' : Input) × (wkb_key hook 100 15 65289 1 ≡ (s', false))
    × (s'.captured ≡ true)
    × (sidecar_kb_key s' 15 65289 1 ≡ s')
    × (wkb_key s' 101 15 65289 1 ≡ (s', false))
unfolding is_hotkey
wkb_key-toggles_once_example = wkb_key-toggles_once hook 100 101 15 65289 refl refl refl

abbrev held : Input
held = record hook { hotkey_pressed = true }

wkb_key-stays_held_example :
    (s' : Input) × (s' ≡ (wkb_key (record held { mods = 0 }) 100 15 65289 0).0)
    × (s'.hotkey_pressed ≡ true)
    × ((wkb_key (record s' { mods = 2 }) 101 15 65289 1).0.captured ≡ false)
unfolding is_hotkey
wkb_key-stays_held_example = wkb_key-stays_held held 0 100 101 15 65289 refl refl refl refl refl

abbrev captive : Input
captive = record hook { captured = true; mods = 0 }

abbrev started : Preload
started = record {
  webview_dead = false;
  overlay_visible = false;
  captured = false;
  webview_pid = some 40;
  crash_count = 0;
  last_fork_time = 1000;
  forks = 1;
}

abbrev crashes : List (Status × ℕ × Option ℕ)
crashes = (signaled 11, 1005, some 41) ∷ (exited 127, 1006, some 42) ∷ []

abbrev hello : Handshake
hello = record {
  identity = 1;
  tp_backend = 0;
  no_dmabuf = 1;
  webview = replicate 32 0;
  comm = replicate 64 103;
  tp_socket = replicate 64 116;
  input_socket = replicate 64 105;
}

-- Its bytes.
abbrev hello_bytes : List ℕ
hello_bytes =
    le32 hello.identity
    ++ (hello.comm
        ++ (hello.tp_socket
            ++ (hello.input_socket ++ (hello.tp_backend ∷ hello.no_dmabuf ∷ hello.webview))))

abbrev greeting : List Read
greeting = got hello_bytes ∷ []

abbrev answer : Option ℕ
answer = some 0

abbrev connection : Connected
connection = record { ok = true; broker_fd = some 6; closed = [] }

-- An interrupted write between two short ones, and the OK byte.
connect_via_broker-once_example :
    (c : Connected) × (connect_via_broker
        (ret 6)
        true
        (ret 100 ∷ sys_fail eintr ∷ ret 130 ∷ [])
        true
        (some 0)
      ≡ some c)
    × (((c.ok ≡ true) × (answer ≡ some 0) × (c.broker_fd ≡ some 6) × (c.closed ≡ []))
        ⊎ ((c.ok ≡ false) × (c.broker_fd ≡ none) × (c.closed ≡ 6 ∷ [])))
connect_via_broker-once_example =
    connect_via_broker-once 6 true (ret 100 ∷ sys_fail eintr ∷ ret 130 ∷ []) true (some 0)
      (omega arith)

session_thread-once_example :
    (closed 6 (session_thread 6 true greeting (some (50, 8)) poll_timeout (idle true ∷ [])).0 ≡ 1)
    × (acked (session_thread 6 true greeting (some (50, 8)) poll_timeout (idle true ∷ [])).0 ≤ 1)
    × (reaped (session_thread 6 true greeting (some (50, 8)) poll_timeout (idle true ∷ [])).0
        ≡ closed 8 (session_thread 6 true greeting (some (50, 8)) poll_timeout (idle true ∷ [])).0)
    × (closed 8 (session_thread 6 true greeting (some (50, 8)) poll_timeout (idle true ∷ [])).0 ≤ 1)
unfolding session_thread handle_session read_all le32 handshake_fields of_le32 start_webview
    validate_handshake run_webview session_loop
session_thread-once_example =
    session_thread-once 6 50 8 true greeting poll_timeout (idle true ∷ []) (omega arith) refl

abbrev child : Option (ℕ × ℕ)
child = some (50, 8)

-- A captured game without a Vulkan layer, and Wayland that grants every request.
abbrev display : Wayland
display = record {
  vk_layer = false;
  captured = true;
  game_pointer = some 1;
  enter_serial = 5;
  sidecar_serial = 0;
  pointer_serial = 0;
  manager = true;
  bound = true;
  memory = true;
  pool = true;
  buffer = some 7;
  surface = some 8;
  calloc = true;
  device = some 9;
  device_version = 2;
}

abbrev image : CursorUpdate
image = record {
  magic = 0;
  version = 1;
  visible = 1;
  shape = 255;
  width = 1;
  height = 1;
  hotspot_x = pos 0;
  hotspot_y = pos 0;
  scale = 120;
  data_size = 4;
}

abbrev arrow : CursorUpdate
arrow = record image { shape = 1 }

abbrev with_image : Cursors
with_image = cursor_dispatch no_cursors display (some (image, 1))

abbrev with_arrow : Cursors
with_arrow = cursor_dispatch with_image display (some (arrow, 2))

abbrev freed : Cursors
freed = cursor_dispatch (cursor_buffer_release with_arrow 7) display none

-- The image again, and the end while it is shown.
abbrev ended : Cursors
ended = cursor_shutdown (cursor_dispatch freed display (some (image, 3)))

cursor_history : Reach 1 ended
unfolding cursor_dispatch cursor_buffer_release cleanup_loop
cursor_history =
    later
      (later
        (later
          (later
            (later (later start (dispatches display (some (image, 1))))
              (dispatches display (some (arrow, 2))))
            (releases 7))
          (dispatches display none))
        (dispatches display (some (image, 3))))
      shuts_down

Reach-IsBalanced_example : IsBalanced 1 ended
Reach-IsBalanced_example = Reach-IsBalanced cursor_history

-- "Ctrl" and "F5"
abbrev ctrl : List ℕ
ctrl = 67 ∷ 116 ∷ 114 ∷ 108 ∷ []

abbrev f5 : List ℕ
f5 = 70 ∷ 53 ∷ []

abbrev unset : Hotkey
unset = record { keysym = 0; scancode = 0; mods = 0 }

configure_hotkey-named_example :
    configure_hotkey (λ name. 0) (ctrl ++ (43 ∷ f5)) unset
    ≡ record { keysym = 65474; scancode = 63; mods = mods_named ctrl }
unfolding find_named same_string
configure_hotkey-named_example =
    configure_hotkey-named (λ name. 0) ctrl f5 (record { name = f5; scancode = 63; keysym = 65474 })
      unset (refl, (refl, (refl, (refl, tt)))) refl refl refl (inl refl)
