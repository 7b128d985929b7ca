-- ===== src/Webview/Cursor.antt =====
-- src/cli/webview_cef/view.cc and input.cc: the cursor of the page, as the update that the game gets.
pub mod Valid
pub mod Newest
use idk_overlay.Prelude.{
  ℕ, ◌+◌, ◌*◌, ◌%◌, ◌^◌, ◌≤◌, ◌<◌, ◌≡◌, refl, List, [], ◌∷◌, Bool, true, false, not, ◌&&◌, ◌||◌,
  Option, none, some, inl, inr, ltb, leb, ◌==◌, if◌then◌else◌, length, take, Bool-cases, if_holds,
  arith,
}
use native.Mathlib.Nat.{mul-le-mul}
use idk_overlay.Prelude.Int.{ℤ, pos}
use idk_overlay.Wire.{CursorUpdate}
use idk_overlay.Wire.Cursor.{
  cursor_magic, cursor_version, cursor_max_dim, cursor_max_bytes, shape_default, shape_all_resize,
  shape_custom, image_bytes, cursor_valid, cursor_valid-IsCursor, image_bytes-exact, custom,
}

-- cef_cursor_type_t; every type that the switch does not name is `ct_other`.
pub data CursorType : Type 0 where
  ct_none : CursorType
  ct_custom : CursorType
  ct_other : CursorType
  ct_hand : CursorType
  ct_cross : CursorType
  ct_ibeam : CursorType
  ct_wait : CursorType
  ct_help : CursorType
  ct_eastresize : CursorType
  ct_northresize : CursorType
  ct_northeastresize : CursorType
  ct_northwestresize : CursorType
  ct_southresize : CursorType
  ct_southeastresize : CursorType
  ct_southwestresize : CursorType
  ct_westresize : CursorType
  ct_northsouthresize : CursorType
  ct_eastwestresize : CursorType
  ct_northeastsouthwestresize : CursorType
  ct_northwestsoutheastresize : CursorType
  ct_columnresize : CursorType
  ct_rowresize : CursorType
  ct_move : CursorType
  ct_dnd_move : CursorType
  ct_verticaltext : CursorType
  ct_cell : CursorType
  ct_contextmenu : CursorType
  ct_alias : CursorType
  ct_dnd_link : CursorType
  ct_progress : CursorType
  ct_nodrop : CursorType
  ct_dnd_none : CursorType
  ct_copy : CursorType
  ct_dnd_copy : CursorType
  ct_notallowed : CursorType
  ct_zoomin : CursorType
  ct_zoomout : CursorType
  ct_grab : CursorType
  ct_grabbing : CursorType
  ct_middlepanning : CursorType
  ct_eastpanning : CursorType
  ct_northpanning : CursorType
  ct_northeastpanning : CursorType
  ct_northwestpanning : CursorType
  ct_southpanning : CursorType
  ct_southeastpanning : CursorType
  ct_southwestpanning : CursorType
  ct_westpanning : CursorType
  ct_middle_panning_vertical : CursorType
  ct_middle_panning_horizontal : CursorType

-- cefCursorShape, with the values of the IDK_CURSOR enumerators.
unfoldable pub cef_cursor_shape : CursorType → ℕ
cef_cursor_shape ct_none = shape_default
cef_cursor_shape ct_custom = shape_default
cef_cursor_shape ct_other = shape_default
cef_cursor_shape ct_hand = 4
cef_cursor_shape ct_cross = 8
cef_cursor_shape ct_ibeam = 9
cef_cursor_shape ct_wait = 6
cef_cursor_shape ct_help = 3
cef_cursor_shape ct_eastresize = 18
cef_cursor_shape ct_northresize = 19
cef_cursor_shape ct_northeastresize = 20
cef_cursor_shape ct_northwestresize = 21
cef_cursor_shape ct_southresize = 22
cef_cursor_shape ct_southeastresize = 23
cef_cursor_shape ct_southwestresize = 24
cef_cursor_shape ct_westresize = 25
cef_cursor_shape ct_northsouthresize = 27
cef_cursor_shape ct_eastwestresize = 26
cef_cursor_shape ct_northeastsouthwestresize = 28
cef_cursor_shape ct_northwestsoutheastresize = 29
cef_cursor_shape ct_columnresize = 30
cef_cursor_shape ct_rowresize = 31
cef_cursor_shape ct_move = 13
cef_cursor_shape ct_dnd_move = 13
cef_cursor_shape ct_verticaltext = 10
cef_cursor_shape ct_cell = 7
cef_cursor_shape ct_contextmenu = 2
cef_cursor_shape ct_alias = 11
cef_cursor_shape ct_dnd_link = 11
cef_cursor_shape ct_progress = 5
cef_cursor_shape ct_nodrop = 14
cef_cursor_shape ct_dnd_none = 14
cef_cursor_shape ct_copy = 12
cef_cursor_shape ct_dnd_copy = 12
cef_cursor_shape ct_notallowed = 15
cef_cursor_shape ct_zoomin = 33
cef_cursor_shape ct_zoomout = 34
cef_cursor_shape ct_grab = 16
cef_cursor_shape ct_grabbing = 17
cef_cursor_shape ct_middlepanning = 32
cef_cursor_shape ct_eastpanning = 32
cef_cursor_shape ct_northpanning = 32
cef_cursor_shape ct_northeastpanning = 32
cef_cursor_shape ct_northwestpanning = 32
cef_cursor_shape ct_southpanning = 32
cef_cursor_shape ct_southeastpanning = 32
cef_cursor_shape ct_southwestpanning = 32
cef_cursor_shape ct_westpanning = 32
cef_cursor_shape ct_middle_panning_vertical = 32
cef_cursor_shape ct_middle_panning_horizontal = 32

-- CefCursorInfo: the image, with its size, its hotspot as int16_t, and the scale as uint16_t, which the
-- code computes in floating point. A width or height below 1 is 0.
pub record CursorInfo : Type 0 where
  pub buffer : Option (List ℕ)
  pub width : ℕ
  pub height : ℕ
  pub hotspot_x : ℤ
  pub hotspot_y : ℤ
  pub scale : ℕ

-- IDK_CURSOR_SCALE_BASE
abbrev scale_base : ℕ
scale_base = 100

abbrev pub is_none : CursorType → Bool
is_none ct_none = true
is_none t = false

-- A cursor without an image.
unfoldable pub plain_cursor : CursorType → CursorUpdate
unfolding cef_cursor_shape
plain_cursor t = record {
  magic = cursor_magic;
  version = cursor_version;
  visible = if is_none t then 0 else 1;
  shape = cef_cursor_shape t;
  width = 0;
  height = 0;
  hotspot_x = pos 0;
  hotspot_y = pos 0;
  scale = scale_base;
  data_size = 0;
}

-- OnCursorChange for CT_CUSTOM.
unfoldable pub custom_cursor : Option (List ℕ) → CursorInfo → CursorUpdate × List ℕ
unfolding plain_cursor
custom_cursor none info = (plain_cursor ct_custom, [])
custom_cursor (some bytes) info =
    if (info.width == 0)
      || (info.height == 0)
      || ltb cursor_max_dim info.width
      || ltb cursor_max_dim info.height
    then (plain_cursor ct_custom, [])
    else (
      record (plain_cursor ct_custom) {
        shape = shape_custom;
        width = info.width;
        height = info.height;
        hotspot_x = info.hotspot_x;
        hotspot_y = info.hotspot_y;
        scale = info.scale;
        data_size = image_bytes info.width info.height;
      },
      take (image_bytes info.width info.height) bytes,
    )

-- OnCursorChange: the update and its pixels, which it queues.
unfoldable pub on_cursor_change : CursorType → CursorInfo → CursorUpdate × List ℕ
unfolding custom_cursor plain_cursor
on_cursor_change ct_custom info = custom_cursor info.buffer info
on_cursor_change t info = (plain_cursor t, [])

-- The fields of InputThread for the cursor: cursor_ with cursor_pixels_, and cursor_pending_. `sent` logs the
-- updates that idk_tp_send_cursor took, the last first.
pub record CursorQueue : Type 0 where
  pub cursor : CursorUpdate × List ℕ
  pub pending : Bool
  pub sent : List (CursorUpdate × List ℕ)

-- QueueCursor, without the wake-up.
unfoldable pub queue_cursor : CursorUpdate × List ℕ → CursorQueue → CursorQueue
queue_cursor c q = record q { cursor = c; pending = true }

-- The UI thread may queue another cursor while the transport's call runs.
unfoldable pub meanwhile : Option (CursorUpdate × List ℕ) → CursorQueue → CursorQueue
unfolding queue_cursor
meanwhile none q = q
meanwhile (some c) q = queue_cursor c q

-- FlushCursor after its call of the transport, which answers `ok`.
unfoldable pub after_send : Bool → CursorUpdate × List ℕ → CursorQueue → CursorQueue
after_send ok c q =
    if ok
    then record q { sent = c ∷ q.sent }
    else if q.pending
    then q
    else record q { cursor = c; pending = true }

-- FlushCursor, with the cursor that is queued during the call; where none is pending the call is not made.
unfoldable pub flush_cursor : Bool → Option (CursorUpdate × List ℕ) → CursorQueue → CursorQueue
unfolding meanwhile after_send
flush_cursor ok other q =
    if not q.pending
    then meanwhile other q
    else after_send ok q.cursor (meanwhile other (record q { pending = false }))
