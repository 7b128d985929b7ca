-- ===== src/Shm/Writer.antt =====
-- The stores of tp_shm_send_cursor, one at a time: the writer beside the reader of Seqlock.
use idk_overlay.Prelude.{
  ℕ, ◌+◌, ◌^◌, ◌≤◌, ◌<◌, ◌≡◌, refl, ◌∙◌, List, false, Option, none, some, arith,
}
use idk_overlay.Wire.{CursorUpdate}
use idk_overlay.Shm.{Page}
use idk_overlay.Shm.Input.{begin_cursor, write_header, write_pixels, end_cursor, start_seq, odd}

-- The page and the one writer in the middle of its stores: `none` between two calls, or the even
-- number that its call started from.
pub record World : Type 0 where
  pub page : Page
  pub writer : Option ℕ

-- One store of the writer. The 32-bit counter does not come round: fewer than 2^31 updates.
pub data Store (w : World) : World → Type 0 where
  begins :
      w.writer ≡ none
      → w.page.cursor_seq + 3 < 2 ^ 32
      → Store w (record { page = begin_cursor w.page; writer = some (start_seq w.page.cursor_seq) })
  heads :
      (s : ℕ) (c : CursorUpdate)
      → w.writer ≡ some s
      → Store w (record w { page = write_header w.page c })
  fills :
      (s : ℕ) (bs : List ℕ)
      → w.writer ≡ some s
      → Store w (record w { page = write_pixels w.page bs })
  ends :
      (s : ℕ) → w.writer ≡ some s → Store w (record { page = end_cursor w.page s; writer = none })

pub data Later (w : World) : World → Type 0 where
  same : Later w w
  after : {u v : World} → Later w u → Store u v → Later w v

-- Between calls the counter is even; inside one it is the odd number after the start.
pub record IsLocked (w : World) : Type 0 where
  pub quiet : w.writer ≡ none → odd w.page.cursor_seq ≡ false
  pub busy :
      (s : ℕ) → w.writer ≡ some s → (w.page.cursor_seq ≡ s + 1) × (odd s ≡ false) × (s + 3 < 2 ^ 32)

pub Store-IsLocked : {w v : World} → Store w v → IsLocked w → IsLocked v
unfolding begin_cursor write_header write_pixels end_cursor
Store-IsLocked {w} (begins n h) l = record {
  quiet = λ e. cc;
  busy = λ s e. ground (arith, l.quiet n);
}
Store-IsLocked {w} (heads s c e) l = record { quiet = λ q. l.quiet q; busy = λ t q. l.busy t q }
Store-IsLocked {w} (fills s c e) l = record { quiet = λ q. l.quiet q; busy = λ t q. l.busy t q }
Store-IsLocked {w} (ends s e) l = record {
  quiet = λ q. ground (arith, l.busy s e);
  busy = λ t q. cc;
}

-- What one store may do: it never lowers the counter, and while it leaves an even counter alone it
-- leaves the cursor alone.
abbrev pub Kept : Page → Page → Type 0
Kept p q =
    (p.cursor_seq ≤ q.cursor_seq)
    × (q.cursor_seq ≡ p.cursor_seq
        → odd p.cursor_seq ≡ false
        → (q.cursor_hdr ≡ p.cursor_hdr) × (q.cursor_data ≡ p.cursor_data))

pub Store-Kept : {w v : World} → Store w v → IsLocked w → Kept w.page v.page
unfolding begin_cursor write_header write_pixels end_cursor
Store-Kept {w} (begins n h) l = (ground (arith, l.quiet n), λ e o. ground (arith, l.quiet n))
Store-Kept {w} (heads s c e) l = (omega arith, λ q o. ground (arith, l.busy s e))
Store-Kept {w} (fills s c e) l = (omega arith, λ q o. ground (arith, l.busy s e))
Store-Kept {w} (ends s e) l = (ground (arith, l.busy s e), λ q o. ground (arith, l.busy s e))

pub Later-IsLocked : {w v : World} → Later w v → IsLocked w → IsLocked v
Later-IsLocked same l = l
Later-IsLocked (after r s) l = Store-IsLocked s (Later-IsLocked r l)

pub Later-Kept : {w v : World} → Later w v → IsLocked w → Kept w.page v.page
Later-Kept same l = (omega arith, λ e o. (refl, refl))
Later-Kept (after r s) l =
    let (m, k) = Later-Kept r l in
    let (m', k') = Store-Kept s (Later-IsLocked r l) in
    (
      omega arith,
      λ e o.
          let h = k (omega arith) o in
          let h' = k' (omega arith) (ground arith) in (h'.0 ∙ h.0, h'.1 ∙ h.1),
    )
