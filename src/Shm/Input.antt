-- ===== src/Shm/Input.antt =====
-- src/core/transport/shm/input.c: events through the slot, cursors through a sequence lock.
use idk_overlay.Prelude.{
  ℕ, zero, suc, ◌+◌, ◌%◌, ◌^◌, List, [], Bool, true, false, not, ◌&&◌, ◌||◌, Option, none, some,
  ltb, ◌==◌, if◌then◌else◌, take,
}
use idk_overlay.Prelude.Errno.{einval, econnreset, eagain, ebadmsg}
use idk_overlay.Prelude.Io.{Rc, fail, rc0, rc1}
use idk_overlay.Wire.{CursorUpdate, input_state, input_overlay}
use idk_overlay.Wire.Cursor.{cursor_valid}
use idk_overlay.Shm.{Shm, Page, slot_empty, slot_frame, is_frame, is_empty, is_prod_dead}
use idk_overlay.Shm.Producer.{Seen}

-- IDK_INPUT_STATE and IDK_INPUT_OVERLAY are not dropped at once on a full slot.
abbrev pub is_critical : ℕ → Bool
is_critical type = (type == input_state) || (type == input_overlay)

-- The spin of tp_shm_send_input: `left` more sleeps; `true` once the slot is empty.
unfoldable pub spin : ℕ → ℕ → (ℕ → Seen) → Bool
spin zero i seen = is_empty (seen i).slot
spin (suc left) i seen = elim (is_empty (seen i).slot) [
  | true ↦ true
  | false ↦ spin left (i + 1) seen
]

abbrev pub max_spins : ℕ
max_spins = 50

-- tp_shm_send_input: `page` is the page when the event is stored, `first` the slot as the function
-- first reads it, `seen` what the spin reads and then whether the consumer is gone.
unfoldable pub send_input : Shm → Page → ℕ → List ℕ → Seen → (ℕ → Seen) → Bool → Rc × Page
send_input tp page type event first seen gone =
    if not tp.mapped || not tp.ready
    then (fail (some einval), page)
    else if first.gone
    then (fail (some econnreset), page)
    else (let stored = record page {
      event = event;
      frame_seq = (page.frame_seq + 1) % 2 ^ 32;
      slot = slot_frame;
    } in
        if is_empty first.slot
        then (rc0, stored)
        else if not (is_critical type)
        then (fail (some eagain), page)
        else if not (spin max_spins 0 seen)
        then (fail (some eagain), page)
        else if gone
        then (fail (some econnreset), page)
        else (rc0, stored))

-- tp_shm_recv_input
unfoldable pub recv_input : Shm → Page → Option (List ℕ) × Rc × Page
recv_input tp page =
    if not tp.mapped
    then (none, fail (some einval), page)
    else if is_prod_dead page.prod_state
    then (none, fail none, page)
    else if not (is_frame page.slot)
    then (none, rc0, page)
    else (some page.event, rc1, record page { slot = slot_empty })

-- SHM_CURSOR_CAPACITY
abbrev pub cursor_capacity : ℕ
cursor_capacity = 262144

-- The writer's stores of tp_shm_send_cursor in program order. The counter is a 32-bit atomic.
abbrev pub odd : ℕ → Bool
odd n = (n % 2) == 1

abbrev pub start_seq : ℕ → ℕ
start_seq seq = if odd seq then (seq + 1) % 2 ^ 32 else seq

unfoldable pub begin_cursor : Page → Page
begin_cursor page = record page { cursor_seq = (start_seq page.cursor_seq + 1) % 2 ^ 32 }

unfoldable pub write_header : Page → CursorUpdate → Page
write_header page c = record page { cursor_hdr = c }

unfoldable pub write_pixels : Page → List ℕ → Page
write_pixels page pixels = record page { cursor_data = pixels }

-- `seq` is the even number that the writer started from.
unfoldable pub end_cursor : Page → ℕ → Page
end_cursor page seq = record page { cursor_seq = (seq + 2) % 2 ^ 32 }

-- tp_shm_send_cursor, uninterrupted; `pixels` has `data_size` bytes, none if the pointer is null.
unfoldable pub send_cursor : Shm → Page → CursorUpdate → Option (List ℕ) → Rc × Page
unfolding begin_cursor write_header write_pixels end_cursor
send_cursor tp page c pixels =
    if not tp.mapped || not tp.ready || not (cursor_valid c cursor_capacity)
    then (fail (some einval), page)
    else (let headed = write_header (begin_cursor page) c in
        if ltb 0 c.data_size
        then elim pixels [
          | none ↦ (fail (some einval), page)
          | some bytes ↦ (rc0, end_cursor (write_pixels headed bytes) (start_seq page.cursor_seq))
        ]
        else (rc0, end_cursor headed (start_seq page.cursor_seq)))

-- What one attempt of the reader meets: the page at its first load of the counter, at its copy of
-- the header, at its copy of the pixels, and at its last load.
pub record Attempt : Type 0 where
  pub at_seq : Page
  pub at_header : Page
  pub at_pixels : Page
  pub at_stable : Page

pub record CursorRead : Type 0 where
  pub rc : Rc
  pub header : Option CursorUpdate
  pub pixels : List ℕ
  pub seen_seq : ℕ

-- The loop of tp_shm_recv_cursor, with `left` attempts left.
unfoldable pub cursor_loop : ℕ → ℕ → Bool → ℕ → ℕ → (ℕ → Attempt) → CursorRead
cursor_loop known capacity has_pixels zero i at = record {
  rc = rc0;
  header = none;
  pixels = [];
  seen_seq = known;
}
cursor_loop known capacity has_pixels (suc left) i at =
    let a = at i in
    let seq = a.at_seq.cursor_seq in
    let c = a.at_header.cursor_hdr in
    elim ((seq == 0) || (seq == known) || odd seq) [
      | true ↦ record { rc = rc0; header = none; pixels = []; seen_seq = known }
      | false ↦ elim (not (cursor_valid c capacity) || ltb 0 c.data_size && not has_pixels) [
        | true ↦ record { rc = fail (some ebadmsg); header = none; pixels = []; seen_seq = known }
        | false ↦ elim (a.at_stable.cursor_seq == seq) [
          | true ↦ record {
            rc = rc1;
            header = some c;
            pixels = if ltb 0 c.data_size then take c.data_size a.at_pixels.cursor_data else [];
            seen_seq = seq;
          }
          | false ↦ cursor_loop known capacity has_pixels left (i + 1) at
        ]
      ]
    ]

abbrev pub max_attempts : ℕ
max_attempts = 3

-- tp_shm_recv_cursor
unfoldable pub recv_cursor : Shm → ℕ → Bool → (ℕ → Attempt) → CursorRead × Shm
recv_cursor tp capacity has_pixels at =
    if not tp.mapped
    then (
      record { rc = fail (some einval); header = none; pixels = []; seen_seq = tp.cursor_seq },
      tp,
    )
    else (let r = cursor_loop tp.cursor_seq capacity has_pixels max_attempts 0 at in
        (r, record tp { cursor_seq = r.seen_seq }))
