-- ===== src/Webview/Cursor/Valid.antt =====
-- src/cli/webview_cef/view.cc: the cursor updates pass the check of the game.
use idk_overlay.Prelude.{
  ℕ, ◌*◌, ◌≤◌, ◌<◌, ◌≡◌, refl, List, Bool, true, false, ◌||◌, Option, none, some, ltb, ◌==◌,
  if_holds, arith,
}
use native.Mathlib.Nat.{mul-le-mul}
use idk_overlay.Wire.{CursorUpdate}
use idk_overlay.Wire.Cursor.{
  cursor_max_dim, cursor_max_bytes, shape_default, shape_all_resize, shape_custom, image_bytes,
  cursor_valid, cursor_valid-IsCursor, image_bytes-exact, custom,
}
use idk_overlay.Webview.Cursor.{
  CursorType, ct_none, ct_custom, ct_other, ct_hand, ct_cross, ct_ibeam, ct_wait, ct_help,
  ct_eastresize, ct_northresize, ct_northeastresize, ct_northwestresize, ct_southresize,
  ct_southeastresize, ct_southwestresize, ct_westresize, ct_northsouthresize, ct_eastwestresize,
  ct_northeastsouthwestresize, ct_northwestsoutheastresize, ct_columnresize, ct_rowresize, ct_move,
  ct_dnd_move, ct_verticaltext, ct_cell, ct_contextmenu, ct_alias, ct_dnd_link, ct_progress,
  ct_nodrop, ct_dnd_none, ct_copy, ct_dnd_copy, ct_notallowed, ct_zoomin, ct_zoomout, ct_grab,
  ct_grabbing, ct_middlepanning, ct_eastpanning, ct_northpanning, ct_northeastpanning,
  ct_northwestpanning, ct_southpanning, ct_southeastpanning, ct_southwestpanning, ct_westpanning,
  ct_middle_panning_vertical, ct_middle_panning_horizontal, cef_cursor_shape, CursorInfo,
  plain_cursor, custom_cursor, on_cursor_change,
}

named_shape :
    (t : CursorType)
    → (shape_default ≤ cef_cursor_shape t) × (cef_cursor_shape t ≤ shape_all_resize)
unfolding cef_cursor_shape
named_shape ct_none = (omega arith, omega arith)
named_shape ct_custom = (omega arith, omega arith)
named_shape ct_other = (omega arith, omega arith)
named_shape ct_hand = (omega arith, omega arith)
named_shape ct_cross = (omega arith, omega arith)
named_shape ct_ibeam = (omega arith, omega arith)
named_shape ct_wait = (omega arith, omega arith)
named_shape ct_help = (omega arith, omega arith)
named_shape ct_eastresize = (omega arith, omega arith)
named_shape ct_northresize = (omega arith, omega arith)
named_shape ct_northeastresize = (omega arith, omega arith)
named_shape ct_northwestresize = (omega arith, omega arith)
named_shape ct_southresize = (omega arith, omega arith)
named_shape ct_southeastresize = (omega arith, omega arith)
named_shape ct_southwestresize = (omega arith, omega arith)
named_shape ct_westresize = (omega arith, omega arith)
named_shape ct_northsouthresize = (omega arith, omega arith)
named_shape ct_eastwestresize = (omega arith, omega arith)
named_shape ct_northeastsouthwestresize = (omega arith, omega arith)
named_shape ct_northwestsoutheastresize = (omega arith, omega arith)
named_shape ct_columnresize = (omega arith, omega arith)
named_shape ct_rowresize = (omega arith, omega arith)
named_shape ct_move = (omega arith, omega arith)
named_shape ct_dnd_move = (omega arith, omega arith)
named_shape ct_verticaltext = (omega arith, omega arith)
named_shape ct_cell = (omega arith, omega arith)
named_shape ct_contextmenu = (omega arith, omega arith)
named_shape ct_alias = (omega arith, omega arith)
named_shape ct_dnd_link = (omega arith, omega arith)
named_shape ct_progress = (omega arith, omega arith)
named_shape ct_nodrop = (omega arith, omega arith)
named_shape ct_dnd_none = (omega arith, omega arith)
named_shape ct_copy = (omega arith, omega arith)
named_shape ct_dnd_copy = (omega arith, omega arith)
named_shape ct_notallowed = (omega arith, omega arith)
named_shape ct_zoomin = (omega arith, omega arith)
named_shape ct_zoomout = (omega arith, omega arith)
named_shape ct_grab = (omega arith, omega arith)
named_shape ct_grabbing = (omega arith, omega arith)
named_shape ct_middlepanning = (omega arith, omega arith)
named_shape ct_eastpanning = (omega arith, omega arith)
named_shape ct_northpanning = (omega arith, omega arith)
named_shape ct_northeastpanning = (omega arith, omega arith)
named_shape ct_northwestpanning = (omega arith, omega arith)
named_shape ct_southpanning = (omega arith, omega arith)
named_shape ct_southeastpanning = (omega arith, omega arith)
named_shape ct_southwestpanning = (omega arith, omega arith)
named_shape ct_westpanning = (omega arith, omega arith)
named_shape ct_middle_panning_vertical = (omega arith, omega arith)
named_shape ct_middle_panning_horizontal = (omega arith, omega arith)

plain_cursor-valid : (t : CursorType) (capacity : ℕ) → cursor_valid (plain_cursor t) capacity ≡ true
unfolding cursor_valid plain_cursor
plain_cursor-valid t capacity = ground (arith, named_shape t)

image_cursor-valid :
    (info : CursorInfo)
    → 0 < info.width
    → info.width ≤ cursor_max_dim
    → 0 < info.height
    → info.height ≤ cursor_max_dim
    → cursor_valid
        (record (plain_cursor ct_custom) {
          shape = shape_custom;
          width = info.width;
          height = info.height;
          hotspot_x = info.hotspot_x;
          hotspot_y = info.hotspot_y;
          scale = info.scale;
          data_size = image_bytes info.width info.height;
        })
        cursor_max_bytes
      ≡ true
unfolding plain_cursor
image_cursor-valid info w0 w1 h0 h1 =
    let exact : image_bytes info.width info.height ≡ info.width * info.height * 4 =
      image_bytes-exact info.width info.height w1 h1 in
    let area : info.width * info.height ≤ 256 * 256 = mul-le-mul w1 h1 in
    let fits : image_bytes info.width info.height ≤ cursor_max_bytes = omega (arith, exact, area) in
    (cursor_valid-IsCursor _ cursor_max_bytes).1
      ((refl, refl, fits, fits), custom refl refl w0 w1 h0 h1 exact)

custom_cursor-valid :
    (o : Option (List ℕ)) (info : CursorInfo)
    → cursor_valid (custom_cursor o info).0 cursor_max_bytes ≡ true
unfolding custom_cursor
custom_cursor-valid none info = plain_cursor-valid ct_custom cursor_max_bytes
custom_cursor-valid (some bytes) info =
    if_holds (λ (p : CursorUpdate × List ℕ). cursor_valid p.0 cursor_max_bytes ≡ true) bad _ _
      (λ e. plain_cursor-valid ct_custom cursor_max_bytes) (λ e. image e)
  where
    bad : Bool
    bad =
        (info.width == 0)
        || (info.height == 0)
        || ltb cursor_max_dim info.width
        || ltb cursor_max_dim info.height

    image :
        bad ≡ false
        → cursor_valid
            (record (plain_cursor ct_custom) {
              shape = shape_custom;
              width = info.width;
              height = info.height;
              hotspot_x = info.hotspot_x;
              hotspot_y = info.hotspot_y;
              scale = info.scale;
              data_size = image_bytes info.width info.height;
            })
            cursor_max_bytes
          ≡ true
    image e =
        image_cursor-valid info (ground (arith, e)) (ground (arith, e)) (ground (arith, e))
          (ground (arith, e))

-- The update of every change of the page's cursor passes the check that the game makes, with a buffer of
-- the protocol's size; so does that of an image which is missing or too large.
pub on_cursor_change-valid :
    (t : CursorType) (info : CursorInfo)
    → cursor_valid (on_cursor_change t info).0 cursor_max_bytes ≡ true
unfolding on_cursor_change
on_cursor_change-valid ct_custom info = custom_cursor-valid info.buffer info
on_cursor_change-valid ct_none info = plain_cursor-valid ct_none cursor_max_bytes
on_cursor_change-valid ct_other info = plain_cursor-valid ct_other cursor_max_bytes
on_cursor_change-valid ct_hand info = plain_cursor-valid ct_hand cursor_max_bytes
on_cursor_change-valid ct_cross info = plain_cursor-valid ct_cross cursor_max_bytes
on_cursor_change-valid ct_ibeam info = plain_cursor-valid ct_ibeam cursor_max_bytes
on_cursor_change-valid ct_wait info = plain_cursor-valid ct_wait cursor_max_bytes
on_cursor_change-valid ct_help info = plain_cursor-valid ct_help cursor_max_bytes
on_cursor_change-valid ct_eastresize info = plain_cursor-valid ct_eastresize cursor_max_bytes
on_cursor_change-valid ct_northresize info = plain_cursor-valid ct_northresize cursor_max_bytes
on_cursor_change-valid ct_northeastresize info =
    plain_cursor-valid ct_northeastresize cursor_max_bytes
on_cursor_change-valid ct_northwestresize info =
    plain_cursor-valid ct_northwestresize cursor_max_bytes
on_cursor_change-valid ct_southresize info = plain_cursor-valid ct_southresize cursor_max_bytes
on_cursor_change-valid ct_southeastresize info =
    plain_cursor-valid ct_southeastresize cursor_max_bytes
on_cursor_change-valid ct_southwestresize info =
    plain_cursor-valid ct_southwestresize cursor_max_bytes
on_cursor_change-valid ct_westresize info = plain_cursor-valid ct_westresize cursor_max_bytes
on_cursor_change-valid ct_northsouthresize info =
    plain_cursor-valid ct_northsouthresize cursor_max_bytes
on_cursor_change-valid ct_eastwestresize info =
    plain_cursor-valid ct_eastwestresize cursor_max_bytes
on_cursor_change-valid ct_northeastsouthwestresize info =
    plain_cursor-valid ct_northeastsouthwestresize cursor_max_bytes
on_cursor_change-valid ct_northwestsoutheastresize info =
    plain_cursor-valid ct_northwestsoutheastresize cursor_max_bytes
on_cursor_change-valid ct_columnresize info = plain_cursor-valid ct_columnresize cursor_max_bytes
on_cursor_change-valid ct_rowresize info = plain_cursor-valid ct_rowresize cursor_max_bytes
on_cursor_change-valid ct_move info = plain_cursor-valid ct_move cursor_max_bytes
on_cursor_change-valid ct_dnd_move info = plain_cursor-valid ct_dnd_move cursor_max_bytes
on_cursor_change-valid ct_verticaltext info = plain_cursor-valid ct_verticaltext cursor_max_bytes
on_cursor_change-valid ct_cell info = plain_cursor-valid ct_cell cursor_max_bytes
on_cursor_change-valid ct_contextmenu info = plain_cursor-valid ct_contextmenu cursor_max_bytes
on_cursor_change-valid ct_alias info = plain_cursor-valid ct_alias cursor_max_bytes
on_cursor_change-valid ct_dnd_link info = plain_cursor-valid ct_dnd_link cursor_max_bytes
on_cursor_change-valid ct_progress info = plain_cursor-valid ct_progress cursor_max_bytes
on_cursor_change-valid ct_nodrop info = plain_cursor-valid ct_nodrop cursor_max_bytes
on_cursor_change-valid ct_dnd_none info = plain_cursor-valid ct_dnd_none cursor_max_bytes
on_cursor_change-valid ct_copy info = plain_cursor-valid ct_copy cursor_max_bytes
on_cursor_change-valid ct_dnd_copy info = plain_cursor-valid ct_dnd_copy cursor_max_bytes
on_cursor_change-valid ct_notallowed info = plain_cursor-valid ct_notallowed cursor_max_bytes
on_cursor_change-valid ct_zoomin info = plain_cursor-valid ct_zoomin cursor_max_bytes
on_cursor_change-valid ct_zoomout info = plain_cursor-valid ct_zoomout cursor_max_bytes
on_cursor_change-valid ct_grab info = plain_cursor-valid ct_grab cursor_max_bytes
on_cursor_change-valid ct_grabbing info = plain_cursor-valid ct_grabbing cursor_max_bytes
on_cursor_change-valid ct_middlepanning info = plain_cursor-valid ct_middlepanning cursor_max_bytes
on_cursor_change-valid ct_eastpanning info = plain_cursor-valid ct_eastpanning cursor_max_bytes
on_cursor_change-valid ct_northpanning info = plain_cursor-valid ct_northpanning cursor_max_bytes
on_cursor_change-valid ct_northeastpanning info =
    plain_cursor-valid ct_northeastpanning cursor_max_bytes
on_cursor_change-valid ct_northwestpanning info =
    plain_cursor-valid ct_northwestpanning cursor_max_bytes
on_cursor_change-valid ct_southpanning info = plain_cursor-valid ct_southpanning cursor_max_bytes
on_cursor_change-valid ct_southeastpanning info =
    plain_cursor-valid ct_southeastpanning cursor_max_bytes
on_cursor_change-valid ct_southwestpanning info =
    plain_cursor-valid ct_southwestpanning cursor_max_bytes
on_cursor_change-valid ct_westpanning info = plain_cursor-valid ct_westpanning cursor_max_bytes
on_cursor_change-valid ct_middle_panning_vertical info =
    plain_cursor-valid ct_middle_panning_vertical cursor_max_bytes
on_cursor_change-valid ct_middle_panning_horizontal info =
    plain_cursor-valid ct_middle_panning_horizontal cursor_max_bytes
