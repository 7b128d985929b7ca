-- ===== src/Webview/Difference.antt =====
-- src/cli/webview_cef/shm_diff.h: the rectangle in which a new snapshot differs from the canvas that
-- the consumer last accepted. The pointers are those of two live vectors, hence never null, and a
-- uint64_t is never above SIZE_MAX.
pub mod Exact
pub mod Scan
pub mod Canvases
pub mod Replay
use idk_overlay.Prelude.{
  ℕ, zero, suc, ◌+◌, ◌-◌, ◌*◌, ◌%◌, List, [], ◌∷◌, Bool, true, false, ◌&&◌, ◌||◌, ltb, leb, ◌==◌,
  if◌then◌else◌, take, drop,
}
use idk_overlay.Wire.Delta.{Delta, delta_magic, wrap64}

-- DeltaResult; a partial one has set `roi`.
pub data DeltaResult : Type 0 where
  unchanged : DeltaResult
  full : DeltaResult
  partial : Delta → DeltaResult

-- The four corners that the loops keep.
pub record Box : Type 0 where
  pub x0 : ℕ
  pub y0 : ℕ
  pub x1 : ℕ
  pub y1 : ℕ

-- memcmp(a, b, n) == 0, on the bytes that there are
unfoldable pub same : List ℕ → List ℕ → Bool
same [] [] = true
same [] (y ∷ ys) = false
same (x ∷ xs) [] = false
same (x ∷ xs) (y ∷ ys) = (x == y) && same xs ys

unfoldable pub widen : ℕ → ℕ → Box → Box
widen x y box = record {
  x0 = if ltb x box.x0 then x else box.x0;
  y0 = if ltb y box.y0 then y else box.y0;
  x1 = if ltb box.x1 (x + 1) then x + 1 else box.x1;
  y1 = if ltb box.y1 (y + 1) then y + 1 else box.y1;
}

-- The inner loop: `n` pixels of the rows `a` and `b` from pixel `x` on.
unfoldable pub scan_row : ℕ → ℕ → ℕ → List ℕ → List ℕ → Box → Box
unfolding same widen
scan_row zero x y a b box = box
scan_row (suc n) x y a b box =
    scan_row n (suc x) y a b
      (if same (take 4 (drop (x * 4) a)) (take 4 (drop (x * 4) b)) then box else widen x y box)

-- The outer loop: `n` rows from row `y` on.
unfoldable pub scan_rows : ℕ → ℕ → ℕ → List ℕ → List ℕ → Box → Box
unfolding same scan_row
scan_rows zero y w current baseline box = box
scan_rows (suc n) y w current baseline box = scan_rows n (suc y) w current baseline (
    if same (take (w * 4) (drop (y * w * 4) current)) (take (w * 4) (drop (y * w * 4) baseline))
    then box
    else scan_row w 0 y (drop (y * w * 4) current) (drop (y * w * 4) baseline) box)

unfoldable pub choose : ℕ → ℕ → Box → DeltaResult
choose w h box =
    if box.x0 == w
    then unchanged
    else if leb ((w * h) % wrap64) ((((box.x1 - box.x0) * (box.y1 - box.y0)) % wrap64 * 2) % wrap64)
    then full
    else partial (record {
      magic = delta_magic;
      x = box.x0;
      y = box.y0;
      width = box.x1 - box.x0;
      height = box.y1 - box.y0;
    })

unfoldable pub find_delta : List ℕ → List ℕ → ℕ → ℕ → DeltaResult
unfolding scan_rows choose
find_delta current baseline w h =
    if (w == 0) || (h == 0)
    then full
    else choose w h (scan_rows h 0 w current baseline (record { x0 = w; y0 = h; x1 = 0; y1 = 0 }))
