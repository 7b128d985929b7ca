-- ===== src/Webview/Format/Rows.antt =====
-- src/cli/webview_cef/shm_format.h: what a converted row holds.
use idk_overlay.Prelude.{
  ℕ, zero, suc, ◌+◌, ◌*◌, ◌≤◌, ◌<◌, ◌≡◌, refl, ap, ◌∙◌, List, [], ◌∷◌, ◌==◌, if◌then◌else◌, length,
  get_elem?, get_elem?-take, length-take, arith,
}
use idk_overlay.Webview.Format.{Channels, rgba, bgra, swap_row, convert}

-- Which byte of the source's pixel becomes byte `c`.
abbrev pub channel : Channels → ℕ → ℕ
channel rgba c = c
channel bgra c = if c == 0 then 2 else if c == 2 then 0 else c

length-swap_row :
    (n : ℕ) (bytes : List ℕ) → n * 4 ≤ length bytes → length (swap_row n bytes) ≡ n * 4
unfolding swap_row
length-swap_row zero bytes l = omega arith
length-swap_row (suc n) (b ∷ g ∷ r ∷ a ∷ rest) l =
    omega (arith, length-swap_row n rest (omega (arith, l)))
length-swap_row (suc n) [] l = absurd (omega (arith, l))
length-swap_row (suc n) (b ∷ []) l = absurd (omega (arith, l))
length-swap_row (suc n) (b ∷ g ∷ []) l = absurd (omega (arith, l))
length-swap_row (suc n) (b ∷ g ∷ r ∷ []) l = absurd (omega (arith, l))

swap_row-byte :
    (n b c : ℕ) (bytes : List ℕ)
    → n * 4 ≤ length bytes
    → b < n
    → c < 4
    → get_elem? (swap_row n bytes) (b * 4 + c) ≡ get_elem? bytes (b * 4 + channel bgra c)
unfolding swap_row
swap_row-byte zero b c bytes l hb hc = absurd (omega (arith, hb))
swap_row-byte (suc n) zero zero (x ∷ y ∷ z ∷ t ∷ rest) l hb hc = refl
swap_row-byte (suc n) zero (suc zero) (x ∷ y ∷ z ∷ t ∷ rest) l hb hc = refl
swap_row-byte (suc n) zero (suc (suc zero)) (x ∷ y ∷ z ∷ t ∷ rest) l hb hc = refl
swap_row-byte (suc n) zero (suc (suc (suc zero))) (x ∷ y ∷ z ∷ t ∷ rest) l hb hc = refl
swap_row-byte (suc n) zero (suc (suc (suc (suc c)))) (x ∷ y ∷ z ∷ t ∷ rest) l hb hc =
    absurd (omega (arith, hc))
swap_row-byte (suc n) (suc b) c (x ∷ y ∷ z ∷ t ∷ rest) l hb hc =
    ap (get_elem? (z ∷ y ∷ x ∷ t ∷ swap_row n rest))
      (let e : suc b * 4 + c ≡ suc (suc (suc (suc (b * 4 + c)))) = omega arith in e)
    ∙ swap_row-byte n b c rest (omega (arith, l)) (omega (arith, hb)) hc
    ∙ ap (get_elem? (x ∷ y ∷ z ∷ t ∷ rest)) (
        let e : suc (suc (suc (suc (b * 4 + channel bgra c)))) ≡ suc b * 4 + channel bgra c =
          omega arith in
        e)
swap_row-byte (suc n) b c [] l hb hc = absurd (omega (arith, l))
swap_row-byte (suc n) b c (x ∷ []) l hb hc = absurd (omega (arith, l))
swap_row-byte (suc n) b c (x ∷ y ∷ []) l hb hc = absurd (omega (arith, l))
swap_row-byte (suc n) b c (x ∷ y ∷ z ∷ []) l hb hc = absurd (omega (arith, l))

pub length-convert :
    (k : Channels) (w : ℕ) (src : List ℕ) → w * 4 ≤ length src → length (convert k w src) ≡ w * 4
unfolding convert
length-convert rgba w src l = length-take (w * 4) src l
length-convert bgra w src l = length-swap_row w src l

pub convert-byte :
    (k : Channels) (w b c : ℕ) (src : List ℕ)
    → w * 4 ≤ length src
    → b < w
    → c < 4
    → get_elem? (convert k w src) (b * 4 + c) ≡ get_elem? src (b * 4 + channel k c)
unfolding convert
convert-byte rgba w b c src l hb hc = get_elem?-take (w * 4) src (b * 4 + c) (omega (arith, hb, hc))
convert-byte bgra w b c src l hb hc = swap_row-byte w b c src l hb hc
