-- ===== src/Shm/Seqlock.antt =====
-- The cursor's sequence lock of src/core/transport/shm/input.c under a concurrent writer.
use idk_overlay.Prelude.{
  ℕ, ◌+◌, ◌≡◌, ◌≢◌, zero, suc, refl, sym, ap, subst, ◌∙◌, [], ◌||◌, ◌&&◌, not, ◌==◌, Bool-cases,
  inl, inr, List, Bool, true, false, some, ltb, take, if◌then◌else◌, arith,
}
use idk_overlay.Prelude.Io.{fail, rc0, rc1}
use idk_overlay.Wire.{CursorUpdate}
use idk_overlay.Wire.Cursor.{cursor_valid}
use idk_overlay.Prelude.Errno.{ebadmsg}
use idk_overlay.Shm.{Shm, Page}
use idk_overlay.Shm.Input.{odd, Attempt, CursorRead, cursor_loop, recv_cursor, max_attempts}
use idk_overlay.Shm.Writer.{World, Later, IsLocked, Later-IsLocked, Later-Kept}

-- The four pages that an attempt of the reader meets, in the order of its loads, while the writer
-- goes on.
pub record IsObserved (a : Attempt) : Type 0 where
  pub w0 : World
  pub w1 : World
  pub w2 : World
  pub w3 : World
  pub start : IsLocked w0
  pub to_header : Later w0 w1
  pub to_pixels : Later w1 w2
  pub to_stable : Later w2 w3
  pub seq_page : a.at_seq ≡ w0.page
  pub header_page : a.at_header ≡ w1.page
  pub pixels_page : a.at_pixels ≡ w2.page
  pub stable_page : a.at_stable ≡ w3.page

-- Equal even counters at both ends: the header and the pixels are those of the first load.
attempt-Kept :
    (a : Attempt)
    → IsObserved a
    → a.at_stable.cursor_seq ≡ a.at_seq.cursor_seq
    → odd a.at_seq.cursor_seq ≡ false
    → (a.at_header.cursor_hdr ≡ a.at_seq.cursor_hdr)
      × (a.at_pixels.cursor_data ≡ a.at_seq.cursor_data)
attempt-Kept a v e o =
    let l1 = Later-IsLocked v.to_header v.start in
    let l2 = Later-IsLocked v.to_pixels l1 in
    let k1 = Later-Kept v.to_header v.start in
    let k2 = Later-Kept v.to_pixels l1 in
    let k3 = Later-Kept v.to_stable l2 in
    let e0 = ap (λ (p : Page). p.cursor_seq) v.seq_page in
    let e3 = ap (λ (p : Page). p.cursor_seq) v.stable_page in
    let d1 = ap (λ (p : Page). p.cursor_hdr) v.header_page in
    let d0 = ap (λ (p : Page). p.cursor_hdr) v.seq_page in
    let f2 = ap (λ (p : Page). p.cursor_data) v.pixels_page in
    let f0 = ap (λ (p : Page). p.cursor_data) v.seq_page in
    let o0 : odd v.w0.page.cursor_seq ≡ false = ground arith in
    let u1 : v.w1.page.cursor_seq ≡ v.w0.page.cursor_seq = omega arith in
    let u2 : v.w2.page.cursor_seq ≡ v.w1.page.cursor_seq = omega arith in
    let o1 : odd v.w1.page.cursor_seq ≡ false = ground arith in
    let h1 = k1.1 u1 o0 in let h2 = k2.1 u2 o1 in (d1 ∙ h1.0 ∙ sym d0, f2 ∙ h2.1 ∙ h1.1 ∙ sym f0)

abbrev pub cursor_pixels : CursorUpdate → List ℕ → List ℕ
cursor_pixels c bytes = if ltb 0 c.data_size then take c.data_size bytes else []

-- What a reader returns is one committed state of the page.
pub record IsUntorn (known : ℕ) (a : Attempt) (r : CursorRead) : Type 0 where
  pub header : r.header ≡ some a.at_seq.cursor_hdr
  pub pixels : r.pixels ≡ cursor_pixels a.at_seq.cursor_hdr a.at_seq.cursor_data
  pub seq : r.seen_seq ≡ a.at_seq.cursor_seq
  pub fresh : r.seen_seq ≢ known
  pub settled : odd r.seen_seq ≡ false

-- The three tests of an attempt.
abbrev is_idle : ℕ → Attempt → Bool
is_idle known a = let seq = a.at_seq.cursor_seq in (seq == 0) || (seq == known) || odd seq

abbrev is_refused : ℕ → Bool → Attempt → Bool
is_refused capacity px a =
    let c = a.at_header.cursor_hdr in not (cursor_valid c capacity) || ltb 0 c.data_size && not px

abbrev is_stable : Attempt → Bool
is_stable a = a.at_stable.cursor_seq == a.at_seq.cursor_seq

module _ (known capacity : ℕ) (px : Bool) (left i : ℕ) (at : ℕ → Attempt) where
  cursor_loop-retry :
      is_idle known (at i) ≡ false
      → is_refused capacity px (at i) ≡ false
      → is_stable (at i) ≡ false
      → cursor_loop known capacity px (suc left) i at
        ≡ cursor_loop known capacity px left (i + 1) at
  unfolding cursor_loop
  cursor_loop-retry e1 e2 e3 =
      rw (e1, cursor_loop) (rw (e2, cursor_loop) (rw (e3, cursor_loop) refl))

  cursor_loop-idle :
      is_idle known (at i) ≡ true → (cursor_loop known capacity px (suc left) i at).rc ≡ rc0
  unfolding cursor_loop
  cursor_loop-idle e1 = rw (e1, cursor_loop) refl

  cursor_loop-refused :
      is_idle known (at i) ≡ false
      → is_refused capacity px (at i) ≡ true
      → (cursor_loop known capacity px (suc left) i at).rc ≡ fail (some ebadmsg)
  unfolding cursor_loop
  cursor_loop-refused e1 e2 = rw (e1, cursor_loop) (rw (e2, cursor_loop) refl)

  cursor_loop-got :
      is_idle known (at i) ≡ false
      → is_refused capacity px (at i) ≡ false
      → is_stable (at i) ≡ true
      → cursor_loop known capacity px (suc left) i at ≡ record {
        rc = rc1;
        header = some (at i).at_header.cursor_hdr;
        pixels = cursor_pixels (at i).at_header.cursor_hdr (at i).at_pixels.cursor_data;
        seen_seq = (at i).at_seq.cursor_seq;
      }
  unfolding cursor_loop
  cursor_loop-got e1 e2 e3 = rw (e1, cursor_loop) (rw (e2, cursor_loop) (rw (e3, cursor_loop) refl))

  got-IsUntorn :
      IsObserved (at i)
      → is_idle known (at i) ≡ false
      → is_stable (at i) ≡ true
      → (r : CursorRead)
      → r ≡ record {
        rc = rc1;
        header = some (at i).at_header.cursor_hdr;
        pixels = cursor_pixels (at i).at_header.cursor_hdr (at i).at_pixels.cursor_data;
        seen_seq = (at i).at_seq.cursor_seq;
      }
      → IsUntorn known (at i) r
  got-IsUntorn v e1 e3 r e =
      let k = attempt-Kept (at i) v (ground arith) (ground arith) in
      record {
        header = ap (λ (x : CursorRead). x.header) e ∙ ap some k.0;
        pixels =
            ap (λ (x : CursorRead). x.pixels) e
            ∙ ap (λ c. cursor_pixels c (at i).at_pixels.cursor_data) k.0
            ∙ ap (cursor_pixels (at i).at_seq.cursor_hdr) k.1;
        seq = ap (λ (x : CursorRead). x.seen_seq) e;
        fresh = λ q. ground (arith, ap (λ (x : CursorRead). x.seen_seq) e);
        settled = ground (arith, ap (λ (x : CursorRead). x.seen_seq) e);
      }

cursor_loop-IsUntorn :
    (known capacity : ℕ) (px : Bool) (left i : ℕ) (at : ℕ → Attempt)
    → ((j : ℕ) → IsObserved (at j))
    → (cursor_loop known capacity px left i at).rc ≡ rc1
    → (j : ℕ) × IsUntorn known (at j) (cursor_loop known capacity px left i at)
cursor_loop-IsUntorn known capacity px zero i at v h = absurd (unfold cursor_loop in cc h)
cursor_loop-IsUntorn known capacity px (suc left) i at v h =
    elim (Bool-cases (is_idle known (at i))) [
      | inl e1 ↦ absurd (cc (cursor_loop-idle known capacity px left i at e1))
      | inr e1 ↦ elim (Bool-cases (is_refused capacity px (at i))) [
        | inl e2 ↦ absurd (cc (cursor_loop-refused known capacity px left i at e1 e2))
        | inr e2 ↦ elim (Bool-cases (is_stable (at i))) [
          | inl e3 ↦ (
            i,
            got-IsUntorn known capacity px left i at (v i) e1 e3 _
                (cursor_loop-got known capacity px left i at e1 e2 e3),
          )
          | inr e3 ↦
              let step = cursor_loop-retry known capacity px left i at e1 e2 e3 in
              let ih =
                cursor_loop-IsUntorn known capacity px left (i + 1) at v
                  (ap (λ (x : CursorRead). x.rc) (sym step) ∙ h) in
              (ih.0, subst (IsUntorn known (at ih.0)) (sym step) ih.1)
        ]
      ]
    ]

module _ (tp : Shm) (capacity : ℕ) (px : Bool) (at : ℕ → Attempt) where
  abbrev attempts : CursorRead
  attempts = cursor_loop tp.cursor_seq capacity px max_attempts 0 at

  recv_cursor-attempts :
      (recv_cursor tp capacity px at).0.rc ≡ rc1
      → ((recv_cursor tp capacity px at).0 ≡ attempts)
        × ((recv_cursor tp capacity px at).1.cursor_seq ≡ attempts.seen_seq)
  unfolding recv_cursor
  recv_cursor-attempts h = elim (Bool-cases tp.mapped) [
    | inl e ↦ ground (arith, e)
    | inr e ↦ absurd (ground (arith, e, h))
  ]

  -- A cursor that `tp_shm_recv_cursor` returns is whole, however its loads interleave with the
  -- stores of a writer whose counter does not come round: header and pixels are those that the page
  -- held together at one load of an even counter, the counter is one that the reader did not know,
  -- and the reader knows it from then on.
  pub recv_cursor-IsUntorn :
      ((j : ℕ) → IsObserved (at j))
      → (recv_cursor tp capacity px at).0.rc ≡ rc1
      → (j : ℕ) × IsUntorn tp.cursor_seq (at j) (recv_cursor tp capacity px at).0
        × ((recv_cursor tp capacity px at).1.cursor_seq ≡ (at j).at_seq.cursor_seq)
  recv_cursor-IsUntorn v h =
      let (same_read, same_seq) = recv_cursor-attempts h in
      let (j, u) =
        cursor_loop-IsUntorn tp.cursor_seq capacity px max_attempts 0 at v
          (ap (λ (x : CursorRead). x.rc) (sym same_read) ∙ h) in
      (j, subst (IsUntorn tp.cursor_seq (at j)) (sym same_read) u, same_seq ∙ u.seq)
