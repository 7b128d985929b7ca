-- ===== src/Tests/Cursors.antt =====
-- Runs of the Chromium webview's cursor.
use idk_overlay.Prelude.{◌≡◌, refl, List, [], ◌∷◌, true, false, inl, none, some}
use idk_overlay.Prelude.Int.{pos}
use idk_overlay.Wire.Cursor.{cursor_max_bytes, cursor_valid}
use idk_overlay.Webview.Cursor.{
  ct_hand, ct_custom, ct_ibeam, CursorInfo, plain_cursor, on_cursor_change, CursorQueue,
}
use idk_overlay.Webview.Cursor.Valid.{on_cursor_change-valid}
use idk_overlay.Webview.Cursor.Newest.{
  CursorEvent, flush, run_cursor, newest, IsSettled, run_cursor-newest,
}

abbrev dot : CursorInfo
dot = record {
  buffer = some (1 ∷ 2 ∷ 3 ∷ 4 ∷ []);
  width = 1;
  height = 1;
  hotspot_x = pos 0;
  hotspot_y = pos 0;
  scale = 100;
}

on_cursor_change-valid_example :
    cursor_valid (on_cursor_change ct_custom dot).0 cursor_max_bytes ≡ true
on_cursor_change-valid_example = on_cursor_change-valid ct_custom dot

abbrev waiting : CursorQueue
waiting = record { cursor = (plain_cursor ct_hand, []); pending = true; sent = [] }

-- The call fails, and another cursor is set while it runs.
abbrev changes : List CursorEvent
changes = flush false (some (plain_cursor ct_ibeam, [])) ∷ flush true none ∷ []

run_cursor-newest_example :
    IsSettled (newest changes (plain_cursor ct_hand, [])) (run_cursor changes waiting)
run_cursor-newest_example =
    run_cursor-newest changes (plain_cursor ct_hand, []) waiting (inl (refl, refl))
