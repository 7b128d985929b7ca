-- ===== src/Webview/Format/Pixels.antt =====
-- src/cli/webview_cef/shm_format.h: where ToGlRgba puts a pixel.
use idk_overlay.Prelude.{
  ℕ, zero, suc, ◌+◌, ◌-◌, ◌*◌, ◌≤◌, ◌<◌, ◌≡◌, sym, ap, ◌∙◌, subst, List, some, ltb, ◌⊎◌, inl, inr,
  length, drop, get_elem?, get_elem?-drop, length-drop, length-replicate, replicate, ltb→lt,
  Bool-cases, arith,
}
use native.Mathlib.Nat.{mul_comm, mul_assoc, mul-le-mul_right, suc-mul}
use idk_overlay.Webview.Patch.{splice, length-splice, splice-before, splice-inside, splice-after}
use idk_overlay.Webview.Patch.Rows.{byte, before_row, after_row}
use idk_overlay.Webview.Format.Rows.{channel, length-convert, convert-byte}
use idk_overlay.Webview.Format.{Channels, convert, flip_rows, to_gl_rgba}

-- A source of `h` rows of `stride` bytes, each with `w` pixels, and a canvas of that size.
record IsFlip (pitch w h : ℕ) (source canvas : List ℕ) : Type 0 where
  pub rows : h * pitch ≤ length source
  pub stride : w * 4 ≤ pitch
  pub size : length canvas ≡ w * h * 4

-- The row that the loop writes at its `y`.
abbrev row_into : Channels → ℕ → ℕ → ℕ → ℕ → List ℕ → List ℕ → List ℕ
row_into k y stride w h source canvas =
    splice ((h - 1 - y) * (w * 4)) (convert k w (drop (y * stride) source)) canvas

row_there :
    (y stride w h : ℕ) (source canvas : List ℕ)
    → IsFlip stride w h source canvas
    → y < h
    → w * 4 ≤ length (drop (y * stride) source)
row_there y stride w h source canvas i l = omega (
  arith,
  length-drop (y * stride) source,
  mul-le-mul_right {m = suc y} {n = h} stride l,
  suc-mul y stride,
  i.rows,
  i.stride,
)

row_into-fits :
    (k : Channels) (y stride w h : ℕ) (source canvas : List ℕ)
    → IsFlip stride w h source canvas
    → y < h
    → (h - 1 - y) * (w * 4) + length (convert k w (drop (y * stride) source)) ≤ length canvas
row_into-fits k y stride w h source canvas i l = omega (
  arith,
  length-convert k w (drop (y * stride) source) (row_there y stride w h source canvas i l),
  mul-le-mul_right {m = suc (h - 1 - y)} {n = h} (w * 4) (omega (arith, l)),
  suc-mul (h - 1 - y) (w * 4),
  mul_assoc h w 4,
  mul_comm w h,
  i.size,
)

row_into-IsFlip :
    (k : Channels) (y stride w h : ℕ) (source canvas : List ℕ)
    → IsFlip stride w h source canvas
    → y < h
    → IsFlip stride w h source (row_into k y stride w h source canvas)
row_into-IsFlip k y stride w h source canvas i l = record {
  rows = i.rows;
  stride = i.stride;
  size =
      length-splice ((h - 1 - y) * (w * 4)) (convert k w (drop (y * stride) source)) canvas
        (row_into-fits k y stride w h source canvas i l)
      ∙ i.size;
}

row_into-own :
    (k : Channels) (y b c stride w h : ℕ) (source canvas : List ℕ)
    → IsFlip stride w h source canvas
    → y < h
    → b < w
    → c < 4
    → get_elem? (row_into k y stride w h source canvas) (byte w (h - 1 - y) b c)
      ≡ get_elem? source (y * stride + (b * 4 + channel k c))
row_into-own k y b c stride w h source canvas i l hb hc =
    let row = convert k w (drop (y * stride) source) in
    let there = row_there y stride w h source canvas i l in
    ap (get_elem? (row_into k y stride w h source canvas)) (
      let e : byte w (h - 1 - y) b c ≡ (h - 1 - y) * (w * 4) + (b * 4 + c) =
        omega (arith, mul_assoc (h - 1 - y) w 4) in
      e)
    ∙ splice-inside ((h - 1 - y) * (w * 4)) (b * 4 + c) row canvas
        (row_into-fits k y stride w h source canvas i l)
        (omega (arith, length-convert k w (drop (y * stride) source) there, hb, hc))
    ∙ convert-byte k w b c (drop (y * stride) source) there hb hc
    ∙ get_elem?-drop (y * stride) source (b * 4 + channel k c)

row_into-other :
    (k : Channels) (y a b c stride w h : ℕ) (source canvas : List ℕ)
    → IsFlip stride w h source canvas
    → y < h
    → a < h
    → b < w
    → c < 4
    → (a < y) ⊎ (y < a)
    → get_elem? (row_into k y stride w h source canvas) (byte w (h - 1 - a) b c)
      ≡ get_elem? canvas (byte w (h - 1 - a) b c)
row_into-other k y a b c stride w h source canvas i l ha hb hc side = go side
  where
    row : List ℕ
    row = convert k w (drop (y * stride) source)

    fits : (h - 1 - y) * (w * 4) + length row ≤ length canvas
    fits = row_into-fits k y stride w h source canvas i l

    long : length row ≡ w * 4
    long = length-convert k w (drop (y * stride) source) (row_there y stride w h source canvas i l)

    go :
        (a < y) ⊎ (y < a)
        → get_elem? (row_into k y stride w h source canvas) (byte w (h - 1 - a) b c)
          ≡ get_elem? canvas (byte w (h - 1 - a) b c)
    go (inl p) = splice-after ((h - 1 - y) * (w * 4)) (byte w (h - 1 - a) b c) row canvas fits (
        omega (
          arith,
          long,
          mul_assoc (h - 1 - y) w 4,
          after_row w (h - 1 - y) (h - 1 - a) b c 0 w (omega (arith, p, ha, l)) (omega arith),
        ))
    go (inr p) = splice-before ((h - 1 - y) * (w * 4)) (byte w (h - 1 - a) b c) row canvas fits (
        omega (
          arith,
          mul_assoc (h - 1 - y) w 4,
          before_row w (h - 1 - y) (h - 1 - a) b c 0 (omega (arith, p, ha, l)) hb hc,
        ))

flip_rows-pixel :
    (n y a b c stride w h : ℕ) (k : Channels) (source canvas : List ℕ)
    → IsFlip stride w h source canvas
    → y + n ≤ h
    → a < h
    → b < w
    → c < 4
    → ((y ≤ a) × (a < y + n))
      ⊎ (get_elem? canvas (byte w (h - 1 - a) b c)
          ≡ get_elem? source (a * stride + (b * 4 + channel k c)))
    → get_elem? (flip_rows n y stride w h k source canvas) (byte w (h - 1 - a) b c)
      ≡ get_elem? source (a * stride + (b * 4 + channel k c))
unfolding flip_rows
flip_rows-pixel zero y a b c stride w h k source canvas i l ha hb hc (inl p) =
    absurd (omega (arith, p))
flip_rows-pixel zero y a b c stride w h k source canvas i l ha hb hc (inr e) = e
flip_rows-pixel (suc n) y a b c stride w h k source canvas i l ha hb hc p =
    flip_rows-pixel n (suc y) a b c stride w h k source (row_into k y stride w h source canvas)
      (row_into-IsFlip k y stride w h source canvas i (omega (arith, l))) (omega (arith, l)) ha hb
      hc
      (elim (Bool-cases (ltb a y)) [
        | inl e ↦ inr (kept p (ltb→lt a y e))
        | inr e ↦ elim (Bool-cases (ltb y a)) [
          | inl f ↦ later p (ltb→lt y a f)
          | inr f ↦ inr (own (ground (arith, e, f)))
        ]
      ])
  where
    Written : Type 0
    Written =
        get_elem? (row_into k y stride w h source canvas) (byte w (h - 1 - a) b c)
        ≡ get_elem? source (a * stride + (b * 4 + channel k c))

    Before : Type 0
    Before =
        ((y ≤ a) × (a < y + suc n))
        ⊎ (get_elem? canvas (byte w (h - 1 - a) b c)
            ≡ get_elem? source (a * stride + (b * 4 + channel k c)))

    other :
        (a < y) ⊎ (y < a)
        → get_elem? (row_into k y stride w h source canvas) (byte w (h - 1 - a) b c)
          ≡ get_elem? canvas (byte w (h - 1 - a) b c)
    other = row_into-other k y a b c stride w h source canvas i (omega (arith, l)) ha hb hc

    kept : Before → a < y → Written
    kept (inl q) f = absurd (omega (arith, q, f))
    kept (inr e) f = other (inl f) ∙ e

    later : Before → y < a → ((suc y ≤ a) × (a < suc y + n)) ⊎ Written
    later (inl q) f = inl (f, omega (arith, q))
    later (inr e) f = inr (other (inr f) ∙ e)

    own : a ≡ y → Written
    own e =
        subst
          (λ m.
            get_elem? (row_into k y stride w h source canvas) (byte w (h - 1 - m) b c)
            ≡ get_elem? source (m * stride + (b * 4 + channel k c)))
          (sym e) (row_into-own k y b c stride w h source canvas i (omega (arith, l)) hb hc)

-- What ToGlRgba checks where it returns true.
accepted :
    (stride w h : ℕ) (k : Channels) (source result : List ℕ)
    → to_gl_rgba (some source) stride w h k ≡ some result
    → (w * 4 ≤ stride) × (flip_rows h 0 stride w h k source (replicate (w * 4 * h) 0) ≡ result)
unfolding to_gl_rgba
accepted stride w h k source result e = ground (arith, e)

-- Of a source that has all its rows, where ToGlRgba returns true the pixel `b` of the source's row `a`
-- is the pixel `b` of the result's row `height - 1 - a`, with red and blue exchanged where the source
-- is BGRA.
pub to_gl_rgba-pixel :
    (k : Channels) (source result : List ℕ) (stride w h a b c : ℕ)
    → to_gl_rgba (some source) stride w h k ≡ some result
    → h * stride ≤ length source
    → a < h
    → b < w
    → c < 4
    → get_elem? result (byte w (h - 1 - a) b c)
      ≡ get_elem? source (a * stride + (b * 4 + channel k c))
to_gl_rgba-pixel k source result stride w h a b c e l ha hb hc =
    go (accepted stride w h k source result e)
  where
    zeros : List ℕ
    zeros = replicate (w * 4 * h) 0

    go :
        (w * 4 ≤ stride) × (flip_rows h 0 stride w h k source zeros ≡ result)
        → get_elem? result (byte w (h - 1 - a) b c)
          ≡ get_elem? source (a * stride + (b * 4 + channel k c))
    go (s, f) =
        subst
          (λ r.
            get_elem? r (byte w (h - 1 - a) b c)
            ≡ get_elem? source (a * stride + (b * 4 + channel k c)))
          f
          (flip_rows-pixel h 0 a b c stride w h k source zeros
            (record {
              rows = l;
              stride = s;
              size = length-replicate (w * 4 * h) 0 ∙ omega (arith, mul_comm w h);
            })
            (omega arith) ha hb hc (inl (omega arith, omega (arith, ha))))
