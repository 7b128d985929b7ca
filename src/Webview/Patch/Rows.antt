-- ===== src/Webview/Patch/Rows.antt =====
-- src/cli/webview_cef/view.cc: which pixels the rows of a rectangle change.
use idk_overlay.Prelude.{
  ℕ, zero, suc, ◌+◌, ◌-◌, ◌*◌, ◌≤◌, ◌<◌, ◌≡◌, sym, ap, ◌∙◌, List, ◌⊎◌, inl, inr, length, take, drop,
  ltb, leb, ◌&&◌, ltb→lt, Bool-cases, get_elem?, length-take, length-drop, get_elem?-take,
  get_elem?-drop, arith,
}
use native.Mathlib.Nat.{mul_comm, mul-le-mul_right, suc-mul}
use idk_overlay.Wire.Delta.{Delta}
use idk_overlay.Webview.Patch.{
  splice, patch_rows, length-splice, splice-before, splice-inside, splice-after,
}

-- The place of a byte: byte `c` of pixel `b` of row `a`.
abbrev pub byte : ℕ → ℕ → ℕ → ℕ → ℕ
byte w a b c = (a * w + b) * 4 + c

-- Whether pixel `b` of row `a` stands in the `n` rows of the rectangle from row `y` on.
abbrev pub InRows : ℕ → ℕ → Delta → ℕ → ℕ → Type 0
InRows n y r a b = (y ≤ a) × (a < y + n) × (r.x ≤ b) × (b < r.x + r.width)

pub row_bytes :
    (y w h x width : ℕ) (px : List ℕ)
    → length px ≡ w * h * 4
    → y < h
    → x + width ≤ w
    → (length (take (width * 4) (drop ((y * w + x) * 4) px)) ≡ width * 4)
      × ((y * w + x) * 4 + width * 4 ≤ w * h * 4)
row_bytes y w h x width px e l i =
    let fits : (y * w + x) * 4 + width * 4 ≤ w * h * 4 =
      omega (arith, mul-le-mul_right {m = suc y} {n = h} w l, suc-mul y w, mul_comm w h, i) in
    (
      length-take (width * 4) (drop ((y * w + x) * 4) px)
          (omega (arith, length-drop ((y * w + x) * 4) px, fits, e)),
      fits,
    )

pub before_row : (w y a b c x : ℕ) → a < y → b < w → c < 4 → byte w a b c < (y * w + x) * 4
before_row w y a b c x l i j =
    omega (arith, mul-le-mul_right {m = suc a} {n = y} w l, suc-mul a w, i, j)

pub after_row :
    (w y a b c x width : ℕ) → y < a → x + width ≤ w → (y * w + x) * 4 + width * 4 ≤ byte w a b c
after_row w y a b c x width l i =
    omega (arith, mul-le-mul_right {m = suc y} {n = a} w l, suc-mul y w, i)

-- One row of the rectangle written over the canvas.
abbrev pub row_over : ℕ → Delta → ℕ → List ℕ → List ℕ → List ℕ
row_over y r w px shadow =
    splice ((y * w + r.x) * 4) (take (r.width * 4) (drop ((y * w + r.x) * 4) px)) shadow

-- Canvases of `w` times `h` pixels, and a rectangle whose columns stand in them.
pub record IsOver (r : Delta) (w h : ℕ) (source canvas : List ℕ) : Type 0 where
  pub px : length source ≡ w * h * 4
  pub shadow : length canvas ≡ w * h * 4
  pub columns : r.x + r.width ≤ w

pub row_over-fits :
    (y w h : ℕ) (r : Delta) (px shadow : List ℕ)
    → IsOver r w h px shadow
    → y < h
    → (y * w + r.x) * 4 + length (take (r.width * 4) (drop ((y * w + r.x) * 4) px)) ≤ length shadow
row_over-fits y w h r px shadow o l =
    omega (arith, row_bytes y w h r.x r.width px o.px l o.columns, o.shadow)

-- The row's own pixels become those of `px`.
pub row_over-inside :
    (y w h b c : ℕ) (r : Delta) (px shadow : List ℕ)
    → IsOver r w h px shadow
    → y < h
    → r.x ≤ b
    → b < r.x + r.width
    → c < 4
    → get_elem? (row_over y r w px shadow) (byte w y b c) ≡ get_elem? px (byte w y b c)
row_over-inside y w h b c r px shadow o l lo hi hc =
    let place : byte w y b c ≡ (y * w + r.x) * 4 + ((b - r.x) * 4 + c) = omega (arith, lo) in
    let near : (b - r.x) * 4 + c < r.width * 4 = omega (arith, lo, hi, hc) in
    ap (get_elem? (row_over y r w px shadow)) place
    ∙ splice-inside ((y * w + r.x) * 4) ((b - r.x) * 4 + c)
        (take (r.width * 4) (drop ((y * w + r.x) * 4) px)) shadow
        (row_over-fits y w h r px shadow o l)
        (omega (arith, row_bytes y w h r.x r.width px o.px l o.columns, near))
    ∙ get_elem?-take (r.width * 4) (drop ((y * w + r.x) * 4) px) ((b - r.x) * 4 + c) near
    ∙ get_elem?-drop ((y * w + r.x) * 4) px ((b - r.x) * 4 + c)
    ∙ ap (get_elem? px) (sym place)

pub InRows-cases : (y a b : ℕ) (r : Delta) → InRows 1 y r a b ⊎ ¬ InRows 1 y r a b
InRows-cases y a b r =
    elim (Bool-cases (leb y a && (leb a y && (leb r.x b && ltb b (r.x + r.width))))) [
      | inl e ↦ inl (ground (arith, e))
      | inr e ↦ inr (λ k. ground (arith, e, k))
    ]

-- Where a pixel outside the rectangle's row `y` stands.
pub outside-cases :
    (y a b : ℕ) (r : Delta)
    → ¬ InRows 1 y r a b
    → (a < y) ⊎ ((y < a) ⊎ ((a ≡ y) × ((b < r.x) ⊎ (r.x + r.width ≤ b))))
outside-cases y a b r out = elim (Bool-cases (ltb a y)) [
  | inl e ↦ inl (ltb→lt a y e)
  | inr e ↦ elim (Bool-cases (ltb y a)) [
    | inl f ↦ inr (inl (ltb→lt y a f))
    | inr f ↦ elim (Bool-cases (ltb b r.x)) [
      | inl g ↦ inr (inr (ground (arith, e, f), inl (ltb→lt b r.x g)))
      | inr g ↦ elim (Bool-cases (ltb b (r.x + r.width))) [
        | inl k ↦ absurd (out (ground (arith, e, f, g, k)))
        | inr k ↦ inr (inr (ground (arith, e, f), inr (ground (arith, k))))
      ]
    ]
  ]
]

-- All other pixels are kept.
pub row_over-outside :
    (y w h a b c : ℕ) (r : Delta) (px shadow : List ℕ)
    → IsOver r w h px shadow
    → y < h
    → b < w
    → c < 4
    → ¬ InRows 1 y r a b
    → get_elem? (row_over y r w px shadow) (byte w a b c) ≡ get_elem? shadow (byte w a b c)
row_over-outside y w h a b c r px shadow o l hb hc out = go (outside-cases y a b r out)
  where
    row : List ℕ
    row = take (r.width * 4) (drop ((y * w + r.x) * 4) px)

    fits : (y * w + r.x) * 4 + length row ≤ length shadow
    fits = row_over-fits y w h r px shadow o l

    long : length row ≡ r.width * 4
    long = (row_bytes y w h r.x r.width px o.px l o.columns).0

    before :
        byte w a b c < (y * w + r.x) * 4
        → get_elem? (row_over y r w px shadow) (byte w a b c) ≡ get_elem? shadow (byte w a b c)
    before = splice-before ((y * w + r.x) * 4) (byte w a b c) row shadow fits

    after :
        (y * w + r.x) * 4 + length row ≤ byte w a b c
        → get_elem? (row_over y r w px shadow) (byte w a b c) ≡ get_elem? shadow (byte w a b c)
    after = splice-after ((y * w + r.x) * 4) (byte w a b c) row shadow fits

    go :
        (a < y) ⊎ ((y < a) ⊎ ((a ≡ y) × ((b < r.x) ⊎ (r.x + r.width ≤ b))))
        → get_elem? (row_over y r w px shadow) (byte w a b c) ≡ get_elem? shadow (byte w a b c)
    go (inl p) = before (before_row w y a b c r.x p hb hc)
    go (inr (inl p)) = after (omega (arith, long, after_row w y a b c r.x r.width p o.columns))
    go (inr (inr (e, inl p))) = before (omega (arith, ap (λ n. n * w) e, p, hc))
    go (inr (inr (e, inr p))) = after (omega (arith, ap (λ n. n * w) e, long, p))

pub patch_rows-IsOver :
    (y w h : ℕ) (r : Delta) (px shadow : List ℕ)
    → IsOver r w h px shadow
    → y < h
    → IsOver r w h px (row_over y r w px shadow)
patch_rows-IsOver y w h r px shadow o l = record {
  px = o.px;
  shadow =
      length-splice ((y * w + r.x) * 4) (take (r.width * 4) (drop ((y * w + r.x) * 4) px)) shadow
        (row_over-fits y w h r px shadow o l)
      ∙ o.shadow;
  columns = o.columns;
}

pub length-patch_rows :
    (n y w h : ℕ) (r : Delta) (px shadow : List ℕ)
    → IsOver r w h px shadow
    → y + n ≤ h
    → length (patch_rows n y r w px shadow) ≡ w * h * 4
unfolding patch_rows
length-patch_rows zero y w h r px shadow o l = o.shadow
length-patch_rows (suc n) y w h r px shadow o l =
    length-patch_rows n (suc y) w h r px (row_over y r w px shadow)
      (patch_rows-IsOver y w h r px shadow o (omega (arith, l))) (omega (arith, l))

-- A pixel where the canvas may differ only inside the remaining rows is that of `px` in the end.
pub patch_rows-pixel :
    (n y w h a b c : ℕ) (r : Delta) (px shadow : List ℕ)
    → IsOver r w h px shadow
    → y + n ≤ h
    → b < w
    → c < 4
    → InRows n y r a b ⊎ (get_elem? shadow (byte w a b c) ≡ get_elem? px (byte w a b c))
    → get_elem? (patch_rows n y r w px shadow) (byte w a b c) ≡ get_elem? px (byte w a b c)
unfolding patch_rows
patch_rows-pixel zero y w h a b c r px shadow o l hb hc (inl i) = absurd (omega (arith, i))
patch_rows-pixel zero y w h a b c r px shadow o l hb hc (inr e) = e
patch_rows-pixel (suc n) y w h a b c r px shadow o l hb hc e =
    patch_rows-pixel n (suc y) w h a b c r px (row_over y r w px shadow)
      (patch_rows-IsOver y w h r px shadow o (omega (arith, l))) (omega (arith, l)) hb hc (rest e)
  where
    rest :
        InRows (suc n) y r a b ⊎ (get_elem? shadow (byte w a b c) ≡ get_elem? px (byte w a b c))
        → InRows n (suc y) r a b
          ⊎ (get_elem? (row_over y r w px shadow) (byte w a b c) ≡ get_elem? px (byte w a b c))
    rest e = elim (InRows-cases y a b r) [
      | inl k ↦ inr (inside k)
      | inr k ↦ elim e [
        | inl i ↦ inl (later k i)
        | inr q ↦ inr (row_over-outside y w h a b c r px shadow o (omega (arith, l)) hb hc k ∙ q)
      ]
    ]
      where
        later : ¬ InRows 1 y r a b → InRows (suc n) y r a b → InRows n (suc y) r a b
        later k i = elim (outside-cases y a b r k) [
          | inl p ↦ absurd (omega (arith, p, i))
          | inr (inl p) ↦ (p, omega (arith, i), i.2, i.3)
          | inr (inr (p, inl q)) ↦ absurd (omega (arith, q, i))
          | inr (inr (p, inr q)) ↦ absurd (omega (arith, q, i))
        ]

        inside :
            InRows 1 y r a b
            → get_elem? (row_over y r w px shadow) (byte w a b c) ≡ get_elem? px (byte w a b c)
        inside k =
            let same : a ≡ y = omega (arith, k) in
            let place : byte w a b c ≡ byte w y b c = ap (λ m. byte w m b c) same in
            ap (get_elem? (row_over y r w px shadow)) place
            ∙ row_over-inside y w h b c r px shadow o (omega (arith, l)) (omega (arith, k))
                (omega (arith, k)) hc
            ∙ ap (get_elem? px) (sym place)
