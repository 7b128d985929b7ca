-- ===== src/Producer.antt =====
-- src/producer/api.c: the webview's library in front of a transport. The transport is a parameter:
-- whether it is connected, and idk_tp_send. `object` is what the shared memory object of the process
-- holds (its one name is used for every frame), `closed` logs the close(2) calls, which no C struct has.
use idk_overlay.Prelude.{
  ℕ, ◌+◌, ◌*◌, ◌/◌, ◌%◌, ◌≡◌, List, [], ◌∷◌, Bool, not, ◌&&◌, ◌||◌, Option, none, some, ltb, ◌==◌,
  if◌then◌else◌, length, take, arith, Bool-cases, Option-cases, ◌⊎◌, inl, inr,
}
use idk_overlay.Prelude.Errno.{einval}
use idk_overlay.Prelude.Io.{Rc, fail}
use idk_overlay.Prelude.Account.{count, held}
use idk_overlay.Wire.{FrameHeader}

-- What shm_open(3) gives, and whether ftruncate(2) and mmap(2) succeed.
pub record Memory : Type 0 where
  pub shm_open : Option ℕ
  pub truncated : Bool
  pub mapped : Bool

pub record Producer (State : Type 0) : Type 0 where
  pub tp : State
  pub object : List ℕ
  pub closed : List ℕ

-- The header that idk_producer_send_pixels sends: IDK_FRAME_FLAG_VISIBLE alone, and no stride.
abbrev pub pixels_header : FrameHeader → FrameHeader
pixels_header h = record h { flags = 1; stride = 0 }

-- `(flags & ~IDK_FRAME_FLAG_DMABUF) | IDK_FRAME_FLAG_DMABUF`, bit 1
abbrev pub with_dmabuf : FrameHeader → FrameHeader
with_dmabuf h = record h { flags = if ((h.flags / 2) % 2) == 1 then h.flags else h.flags + 2 }

-- A size that idk_producer_send_pixels refuses.
abbrev pub is_refused : FrameHeader → Bool
is_refused hdr =
    (hdr.width == 0) || (hdr.height == 0) || ltb 65536 hdr.width || ltb 65536 hdr.height

module _ {State : Type 0} (ready : State → Bool)
    (send : State → FrameHeader → List ℕ → Rc × State) where
  -- copy_to_shm: the descriptor, or `none` where it returns -1.
  unfoldable pub copy_to_shm : Producer State → Memory → List ℕ → Option ℕ × Producer State
  copy_to_shm p m src = elim m.shm_open [
    | none ↦ (none, p)
    | some fd ↦
        if m.truncated && m.mapped
        then (some fd, record p { object = src })
        else (none, record p { closed = fd ∷ p.closed })
  ]

  -- send_frame_msg
  unfoldable pub send_frame_msg : Producer State → FrameHeader → List ℕ → Rc × Producer State
  send_frame_msg p hdr fds =
      if not (ready p.tp) || ltb (length fds) 1 || ltb 4 (length fds)
      then (fail (some einval), p)
      else (let (rc, tp) = send p.tp hdr fds in (rc, record p { tp = tp }))

  -- idk_producer_send_frame
  unfoldable pub producer_send_frame : Producer State → FrameHeader → ℕ → Rc × Producer State
  unfolding send_frame_msg
  producer_send_frame p hdr fd = send_frame_msg p hdr (fd ∷ [])

  -- idk_producer_send_pixels after copy_to_shm
  unfoldable pub send_copied : Option ℕ × Producer State → FrameHeader → Rc × Producer State
  unfolding producer_send_frame
  send_copied (none, p) hdr = (fail none, p)
  send_copied (some fd, p) hdr =
      let (rc, p') = producer_send_frame p (pixels_header hdr) fd in
      (rc, record p' { closed = fd ∷ p'.closed })

  -- idk_producer_send_pixels
  unfoldable pub producer_send_pixels :
      Producer State → Memory → List ℕ → FrameHeader → Rc × Producer State
  unfolding copy_to_shm send_copied
  producer_send_pixels p m pixels hdr =
      if is_refused hdr
      then (fail (some einval), p)
      else send_copied (copy_to_shm p m (take (hdr.width * hdr.height * 4) pixels)) hdr

  -- idk_producer_send_dma_buf; `fds` has at least `nfd` entries.
  unfoldable pub producer_send_dma_buf : Producer State → FrameHeader → List ℕ → Rc × Producer State
  unfolding send_frame_msg
  producer_send_dma_buf p hdr fds =
      if (hdr.nfd == 0) || ltb 4 hdr.nfd
      then (fail (some einval), p)
      else send_frame_msg p (with_dmabuf hdr) (take hdr.nfd fds)

  -- The descriptor that a call opens: none for a size that is refused.
  abbrev pub opens : Memory → FrameHeader → Option ℕ
  opens m hdr = if is_refused hdr then none else m.shm_open

  -- On every path, whatever the kernel and the transport answer, sending pixels closes the descriptor
  -- that it opened exactly once and no other, and it leaves the transport alone or makes one send on
  -- it, of the visible header with that descriptor.
  pub producer_send_pixels-account :
      (n : ℕ) (p : Producer State) (m : Memory) (pixels : List ℕ) (hdr : FrameHeader)
      → (count n (producer_send_pixels p m pixels hdr).1.closed
          ≡ count n p.closed + held n (opens m hdr))
        × (((producer_send_pixels p m pixels hdr).1.tp ≡ p.tp)
            ⊎ ((fd : ℕ) × (opens m hdr ≡ some fd)
                × ((producer_send_pixels p m pixels hdr).1.tp
                    ≡ (send p.tp (pixels_header hdr) (fd ∷ [])).1)))
  unfolding producer_send_pixels copy_to_shm send_copied producer_send_frame send_frame_msg
  producer_send_pixels-account n p m pixels hdr = (
    ground arith,
    elim (Bool-cases (is_refused hdr)) [
      | inl x ↦ inl (ground (arith, x))
      | inr x ↦ elim (Option-cases m.shm_open) [
        | inl e ↦ inl (ground (arith, x, e))
        | inr (fd, e) ↦ elim (Bool-cases (m.truncated && m.mapped && ready p.tp)) [
          | inl r ↦ inr (fd, ground (arith, x, e), ground (arith, x, e, r))
          | inr r ↦ inl (ground (arith, x, e, r))
        ]
      ]
    ],
  )
