-- ===== src/Webview/Format.antt =====
-- src/cli/webview_cef/shm_format.h: from Chromium's pixels, whose rows start at the top, to the RGBA
-- rows from the bottom that the transport carries. A width or height below 1 is 0 here, and an int's
-- area times 4 is below 2^64.
pub mod Rows
pub mod Pixels
use idk_overlay.Prelude.{
  ℕ, zero, suc, ◌+◌, ◌-◌, ◌*◌, List, [], ◌∷◌, Bool, true, false, ◌||◌, Option, none, some, ltb,
  ◌==◌, if◌then◌else◌, take, drop, replicate,
}
use idk_overlay.Webview.Patch.{splice}

-- Channels
pub data Channels : Type 0 where
  rgba : Channels
  bgra : Channels

-- The loop over the pixels of a BGRA row.
unfoldable pub swap_row : ℕ → List ℕ → List ℕ
swap_row (suc n) (b ∷ g ∷ r ∷ a ∷ rest) = r ∷ g ∷ b ∷ a ∷ swap_row n rest
swap_row n bytes = []

unfoldable pub convert : Channels → ℕ → List ℕ → List ℕ
unfolding swap_row
convert rgba width src = take (width * 4) src
convert bgra width src = swap_row width src

-- The loop over the rows: `n` rows of the source from row `y` on.
unfoldable pub flip_rows : ℕ → ℕ → ℕ → ℕ → ℕ → Channels → List ℕ → List ℕ → List ℕ
unfolding convert splice
flip_rows zero y stride width height channels source result = result
flip_rows (suc n) y stride width height channels source result =
    flip_rows n (suc y) stride width height channels source (
      splice ((height - 1 - y) * (width * 4)) (convert channels width (drop (y * stride) source))
        result)

-- ToGlRgba: `result`, or `none` where it returns false.
unfoldable pub to_gl_rgba : Option (List ℕ) → ℕ → ℕ → ℕ → Channels → Option (List ℕ)
unfolding flip_rows
to_gl_rgba none stride width height channels = none
to_gl_rgba (some source) stride width height channels =
    if (width == 0)
      || (height == 0)
      || ltb (256 * 1024 * 1024) (width * height * 4)
      || ltb stride (width * 4)
    then none
    else some
        (flip_rows height 0 stride width height channels source (replicate (width * 4 * height) 0))

-- ToGlY, of a rectangle clipped to the canvas
unfoldable pub to_gl_y : ℕ → ℕ → ℕ → ℕ
to_gl_y top rect_height canvas_height = canvas_height - top - rect_height
