-- ===== src/Hook/Cursor.antt =====
-- src/hook/input/wayland/sidecar/cursor.c: the cursor of the webview, shown on the game's pointer. A
-- proxy that could not be created is `none`. `destroyed` logs the resources and `scrapped` the buffers
-- that were destroyed, `made` the buffers that were created, and `shown` the requests to the pointer,
-- newest first; no C struct has them.
pub mod Ledger
use idk_overlay.Prelude.{
  ℕ, ◌+◌, ◌*◌, ◌/◌, List, [], ◌∷◌, ◌++◌, Bool, true, false, not, ◌&&◌, ◌||◌, Option, none, some,
  is_some, ltb, leb, ◌==◌, if◌then◌else◌,
}
use idk_overlay.Prelude.Int.{ℤ, pos_part}
use idk_overlay.Wire.{CursorUpdate}

-- `struct cursor_resource`
pub record Resource : Type 0 where
  pub surface : ℕ
  pub buffer : ℕ
  pub released : Bool

-- A request to the game's pointer: wl_pointer.set_cursor with no surface, with a surface and its
-- hotspot, or wp_cursor_shape_device.set_shape; each with the serial.
pub data Request : Type 0 where
  hide : (serial : ℕ) → Request
  set_cursor : (serial surface x y : ℕ) → Request
  set_shape : (serial shape : ℕ) → Request

-- g_custom_cursor, g_retired_cursors, g_applied_cursor_generation, g_cursor_shape_device and
-- g_shape_device_pointer_proxy
pub record Cursors : Type 0 where
  pub custom : Option Resource
  pub retired : List Resource
  pub applied : ℕ
  pub device : Option ℕ
  pub device_proxy : Option ℕ
  pub destroyed : List Resource
  pub scrapped : List ℕ
  pub made : List ℕ
  pub shown : List Request

-- The globals of the hook that the calls read, and what Wayland and libc answer in one call: whether
-- the interfaces are bound, whether the memory is set up, the pool, the buffer, the surface, whether
-- calloc(3) succeeds, the version of the surface, the shape device and its version.
pub record Wayland : Type 0 where
  pub vk_layer : Bool
  pub captured : Bool
  pub game_pointer : Option ℕ
  pub enter_serial : ℕ
  pub sidecar_serial : ℕ
  pub pointer_serial : ℕ
  pub manager : Bool
  pub bound : Bool
  pub memory : Bool
  pub pool : Bool
  pub buffer : Option ℕ
  pub surface : Option ℕ
  pub calloc : Bool
  pub device : Option ℕ
  pub device_version : ℕ

-- IDK_CURSOR_DEFAULT, IDK_CURSOR_ZOOM_OUT, IDK_CURSOR_CUSTOM
abbrev pub cursor_default : ℕ
cursor_default = 1

abbrev pub cursor_zoom_out : ℕ
cursor_zoom_out = 34

abbrev pub cursor_custom : ℕ
cursor_custom = 255

-- cursor_buffer_release for the resource whose buffer it is, wherever it stands
abbrev pub release_one : ℕ → Resource → Resource
release_one n r = if r.buffer == n then record r { released = true } else r

abbrev pub release_list : ℕ → List Resource → List Resource
release_list n [] = []
release_list n (r ∷ rs) = release_one n r ∷ release_list n rs

unfoldable pub cursor_buffer_release : Cursors → ℕ → Cursors
cursor_buffer_release s n = record s {
  custom = elim s.custom [ none ↦ none | some r ↦ some (release_one n r) ];
  retired = release_list n s.retired;
}

-- The loop of cleanup_retired_cursors: what stays, and what is destroyed.
unfoldable pub cleanup_loop : List Resource → List Resource × List Resource
cleanup_loop [] = ([], [])
cleanup_loop (r ∷ rs) =
    let (kept, dead) = cleanup_loop rs in if r.released then (kept, r ∷ dead) else (r ∷ kept, dead)

-- cleanup_retired_cursors
unfoldable pub cleanup_retired_cursors : Cursors → Cursors
cleanup_retired_cursors s = record s {
  retired = (cleanup_loop s.retired).0;
  destroyed = (cleanup_loop s.retired).1 ++ s.destroyed;
}

-- retire_custom_cursor
unfoldable pub retire_custom_cursor : Cursors → Cursors
retire_custom_cursor s = elim s.custom [
  | none ↦ s
  | some r ↦ record s { custom = none; retired = r ∷ s.retired }
]

-- create_custom_cursor: the resource, or `none` for NULL, where a buffer made before is destroyed.
unfoldable pub create_custom_cursor : Cursors → Wayland → Option Resource × Cursors
create_custom_cursor s w =
    if not w.bound || not w.memory || not w.pool then (none, s) else (elim w.buffer [
      | none ↦ (none, s)
      | some b ↦ elim w.surface [
        | none ↦ (none, record s { scrapped = b ∷ s.scrapped; made = b ∷ s.made })
        | some f ↦
            if w.calloc
            then (
              some (record { surface = f; buffer = b; released = false }),
              record s { made = b ∷ s.made },
            )
            else (none, record s { scrapped = b ∷ s.scrapped; made = b ∷ s.made })
      ]
    ])

abbrev same_proxy : Option ℕ → Option ℕ → Bool
same_proxy none none = true
same_proxy (some a) (some b) = a == b
same_proxy _ _ = false

-- sidecar_ensure_cursor_shape_device
unfoldable pub sidecar_ensure_cursor_shape_device : Cursors → Wayland → Option ℕ → Cursors
sidecar_ensure_cursor_shape_device s w p =
    if not w.manager
    then s
    else if is_some s.device && same_proxy s.device_proxy p
    then s
    else (elim w.device [
      | none ↦ record s {
        device = none;
        device_proxy = if is_some s.device then none else s.device_proxy;
      }
      | some d ↦ record s { device = some d; device_proxy = p }
    ])

-- `serial` in idk_wayland_cursor_dispatch
abbrev pub serial_of : Wayland → ℕ
serial_of w =
    if not (w.enter_serial == 0)
    then w.enter_serial
    else if not (w.sidecar_serial == 0)
    then w.sidecar_serial
    else w.pointer_serial

-- idk_wayland_cursor_dispatch with a custom cursor, after create_custom_cursor
unfoldable pub show_custom : Option Resource × Cursors → CursorUpdate → ℕ → ℕ → Cursors
unfolding retire_custom_cursor
show_custom (none, s) u serial generation = s
show_custom (some r, s) u serial generation = record (retire_custom_cursor s) {
  custom = some r;
  applied = generation;
  shown = set_cursor serial r.surface (pos_part u.hotspot_x) (pos_part u.hotspot_y) ∷ s.shown;
}

-- idk_wayland_cursor_dispatch with a named shape
unfoldable pub show_shape : Cursors → Wayland → CursorUpdate → ℕ → ℕ → Cursors
unfolding retire_custom_cursor sidecar_ensure_cursor_shape_device
show_shape s w u serial generation =
    let s1 = sidecar_ensure_cursor_shape_device s w w.game_pointer in
    let shape =
      if ltb cursor_zoom_out u.shape && ltb w.device_version 2 then cursor_default else u.shape in
    if is_some s1.device
    then record (retire_custom_cursor s1) {
      applied = generation;
      shown = set_shape serial shape ∷ s1.shown;
    }
    else s1

-- idk_wayland_cursor_dispatch once there is a new cursor
unfoldable pub show_cursor : Cursors → Wayland → CursorUpdate → ℕ → Cursors
unfolding show_custom show_shape create_custom_cursor retire_custom_cursor
show_cursor s w u generation =
    if serial_of w == 0
    then s
    else if u.visible == 0
    then record (retire_custom_cursor s) {
      applied = generation;
      shown = hide (serial_of w) ∷ s.shown;
    }
    else if u.shape == cursor_custom
    then show_custom (create_custom_cursor s w) u (serial_of w) generation
    else show_shape s w u (serial_of w) generation

-- idk_wayland_cursor_dispatch; `snapshot` is what idk_input_cursor_snapshot gives for the generation
-- that was applied last.
unfoldable pub cursor_dispatch : Cursors → Wayland → Option (CursorUpdate × ℕ) → Cursors
unfolding cleanup_retired_cursors show_cursor
cursor_dispatch s w snapshot =
    let s1 = cleanup_retired_cursors s in
    if w.vk_layer || not w.captured || not (is_some w.game_pointer)
    then s1
    else (elim snapshot [ none ↦ s1 | some (u, generation) ↦ show_cursor s1 w u generation ])

-- idk_wayland_cursor_capture_changed
unfoldable pub cursor_capture_changed : Cursors → Bool → Cursors
unfolding cleanup_retired_cursors retire_custom_cursor
cursor_capture_changed s captured =
    let s1 = record s { applied = 0 } in
    cleanup_retired_cursors (if captured then s1 else retire_custom_cursor s1)

-- idk_wayland_cursor_shutdown
unfoldable pub cursor_shutdown : Cursors → Cursors
cursor_shutdown s = record s {
  custom = none;
  retired = [];
  applied = 0;
  destroyed = s.retired ++ (elim s.custom [ none ↦ s.destroyed | some r ↦ r ∷ s.destroyed ]);
}
