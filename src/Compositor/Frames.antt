-- ===== src/Compositor/Frames.antt =====
-- The frame loops of src/core/compositor/frame.c, over any transport.
use idk_overlay.Prelude.{
  ℕ, zero, suc, ◌+◌, ◌≤◌, ◌<◌, ◌≡◌, refl, List, [], ◌∷◌, ◌++◌, Bool, true, false, ◌||◌, Option,
  none, some, arith, Bool-cases, inl, inr, ap, ◌∙◌, length,
}
use idk_overlay.Wire.{FrameHeader}
use idk_overlay.Socket.Scm.{Received, nothing, broken, frame}
use idk_overlay.Prelude.Account.{count, count-append}
use idk_overlay.Transport.{Transport}
use idk_overlay.Compositor.{Compositor, is_bad, keep_frame, keep_loop, disconnect_client}
use idk_overlay.Compositor.Resize.{Timespec}

abbrev pub Frame : Type 0
Frame = FrameHeader × List ℕ

-- The compositor's account of descriptor `n`: what it holds and what it has closed.
abbrev pub account : ℕ → Compositor → ℕ
account n c = count n c.dmabuf_fd + count n c.closed

-- How often `n` stands among the descriptors of a batch.
abbrev pub received : ℕ → List Frame → ℕ
received n [] = 0
received n ((h, fds) ∷ fs) = count n fds + received n fs

-- The first frame of a batch that can be shown.
abbrev pub first_good : List Frame → Option Frame
first_good [] = none
first_good ((h, fds) ∷ fs) = elim (is_bad h fds) [ true ↦ first_good fs | false ↦ some (h, fds) ]

module _ (T : Transport) where
  open T use {
    State, recv, drop, send_ack, disconnect, pending, recv_pending, drop_pending, ack_pending,
  }

  -- What the transport hands over until it has nothing or breaks, by itself: `Batch t fs cut t'`.
  pub data Batch : State → List Frame → Bool → State → Type 0 where
    empty : {t : State} → (recv t).0 ≡ nothing → Batch t [] false (recv t).1
    cuts :
        {t : State} (e : Option _) (fds : List ℕ)
        → (recv t).0 ≡ broken e fds
        → Batch t [] true (recv t).1
    next :
        {t t' : State} {fs : List Frame} {cut : Bool} (h : FrameHeader) (fds : List ℕ)
        → (recv t).0 ≡ frame h fds
        → Batch (recv t).1 fs cut t'
        → Batch t ((h, fds) ∷ fs) cut t'

  Batch-pending :
      {t t' : State} {fs : List Frame} {cut : Bool} → Batch t fs cut t' → length fs ≤ pending t
  Batch-pending (empty e) = omega arith
  Batch-pending (cuts e fds r) = omega arith
  Batch-pending (next {t = t} h fds r b) = omega (arith, recv_pending t h fds r, Batch-pending b)

  -- A batch ends: each frame handed over leaves fewer behind.
  Batch-exists :
      (k : ℕ) (t : State)
      → pending t < k
      → (fs : List Frame) × (cut : Bool) × (t' : State) × Batch t fs cut t'
  Batch-exists zero t h = absurd (omega arith)
  Batch-exists (suc k) t h =
      go (recv t).0 refl
        (λ hdr fds e. Batch-exists k (recv t).1 (omega (arith, recv_pending t hdr fds e, h)))
    where
      go :
          (r : Received)
          → (recv t).0 ≡ r
          → ((hdr : FrameHeader) (fds : List ℕ)
              → (recv t).0 ≡ frame hdr fds
              → (fs : List Frame) × (cut : Bool) × (t' : State) × Batch (recv t).1 fs cut t')
          → (fs : List Frame) × (cut : Bool) × (t' : State) × Batch t fs cut t'
      go nothing e ih = ([], false, (recv t).1, empty e)
      go (broken x fds) e ih = ([], true, (recv t).1, cuts x fds e)
      go (frame hdr fds) e ih =
          let (fs, cut, t', b) = ih hdr fds e in ((hdr, fds) ∷ fs, cut, t', next hdr fds e b)

  -- What a batch makes of the compositor.
  abbrev pub kept : Timespec → Bool → Compositor → List Frame → Bool × Compositor
  kept now p c [] = (p, c)
  kept now p c ((h, fds) ∷ fs) = elim (is_bad h fds || p) [
    | true ↦ kept now p (record c { closed = fds ++ c.closed }) fs
    | false ↦ kept now true (keep_frame c h fds now) fs
  ]

  -- What the end of a batch makes of it.
  abbrev pub finished : Bool → Bool × Compositor → State → Bool × Compositor × State
  finished false (p, c) t = (p, c, t)
  finished true (p, c) t = let (c', t') = disconnect_client T c t in (p, c', t')

  keep_loop-kept :
      (fuel : ℕ) {t t' : State} {fs : List Frame} {cut : Bool} (now : Timespec) (p : Bool)
      (c : Compositor)
      → Batch t fs cut t'
      → length fs < fuel
      → keep_loop T fuel now p c t ≡ some (finished cut (kept now p c fs) t')
  unfolding keep_loop
  keep_loop-kept zero now p c b h = absurd (omega arith)
  keep_loop-kept (suc fuel) now p c (empty e) h = rw (e, keep_loop) refl
  keep_loop-kept (suc fuel) now p c (cuts x fds e) h = rw (e, keep_loop) refl
  keep_loop-kept (suc fuel) now p c (next {fs = fs} hdr fds e b) h =
      elim (Bool-cases (is_bad hdr fds || p)) [
        | inl bad ↦ rw (e, bad, keep_loop, kept) (keep_loop-kept fuel now p _ b (omega (arith, h)))
        | inr good ↦
            rw (e, good, keep_loop, kept) (keep_loop-kept fuel now true _ b (omega (arith, h)))
      ]

  kept-account :
      (n : ℕ) (now : Timespec) (p : Bool) (c : Compositor) (fs : List Frame)
      → account n (kept now p c fs).1 ≡ account n c + received n fs
  unfolding keep_frame
  kept-account n now p c [] = omega arith
  kept-account n now p c ((h, fds) ∷ fs) = elim (Bool-cases (is_bad h fds || p)) [
    | inl bad ↦
        rw (bad, kept)
          (omega (
            arith,
            kept-account n now p (record c { closed = fds ++ c.closed }) fs,
            count-append n fds c.closed,
          ))
    | inr good ↦
        rw (good, kept)
          (omega (
            arith,
            kept-account n now true (keep_frame c h fds now) fs,
            count-append n c.dmabuf_fd c.closed,
          ))
  ]

  finished-account :
      (n : ℕ) (cut : Bool) (pc : Bool × Compositor) (t : State)
      → account n (finished cut pc t).1 ≡ account n pc.1
  unfolding disconnect_client
  finished-account n false pc t = refl
  finished-account n true (p, c) t = omega (arith, count-append n c.dmabuf_fd c.closed)

  -- With more fuel than the frames that the transport can still hand over, the receiving loop
  -- returns, after a batch of frames that the transport alone determines; and every descriptor of
  -- that batch and of the compositor before it is afterwards held by the compositor or was closed
  -- once for each time it was obtained, whether the batch ended or the connection broke.
  pub keep_loop-account :
      (n fuel : ℕ) (now : Timespec) (c : Compositor) (t : State)
      → pending t < fuel
      → (fs : List Frame) × (cut : Bool) × (t' : State) × (p : Bool) × (c' : Compositor)
        × (t'' : State) × Batch t fs cut t'
        × (keep_loop T fuel now false c t ≡ some (p, c', t''))
        × (account n c' ≡ account n c + received n fs)
  keep_loop-account n fuel now c t h =
      let (fs, cut, t', b) = Batch-exists fuel t h in
      let out : Bool × Compositor × State = finished cut (kept now false c fs) t' in
      (
        fs,
        cut,
        t',
        out.0,
        out.1,
        out.2,
        b,
        keep_loop-kept fuel now false c b (omega (arith, Batch-pending b, h)),
        finished-account n cut (kept now false c fs) t' ∙ kept-account n now false c fs,
      )

  -- What the compositor shows, once a batch has had `o` as its first good frame.
  abbrev pub Shows : Option Frame → Compositor → Compositor → Type 0
  Shows none c c' = (c'.dmabuf_fd ≡ c.dmabuf_fd) × (c'.hdr ≡ c.hdr) × (c'.has_frame ≡ c.has_frame)
  Shows (some (h, fds)) c c' = (c'.dmabuf_fd ≡ fds) × (c'.hdr ≡ h) × (c'.has_frame ≡ true)

  abbrev pub is_some : Option Frame → Bool
  is_some none = false
  is_some (some _) = true

  kept-processed :
      (now : Timespec) (c : Compositor) (fs : List Frame)
      → ((kept now true c fs).0 ≡ true) × Shows none c (kept now true c fs).1
  kept-processed now c [] = (refl, (refl, refl, refl))
  kept-processed now c ((h, fds) ∷ fs) = elim (Bool-cases (is_bad h fds || true)) [
    | inl bad ↦ rw (bad, kept) (kept-processed now (record c { closed = fds ++ c.closed }) fs)
    | inr good ↦ absurd (ground arith)
  ]

  Shows-closed :
      (o : Option Frame) (c c' : Compositor) (fds : List ℕ)
      → Shows o (record c { closed = fds }) c'
      → Shows o c c'
  Shows-closed none c c' fds s = s
  Shows-closed (some f) c c' fds s = s

  kept-first :
      (now : Timespec) (c : Compositor) (fs : List Frame)
      → ((kept now false c fs).0 ≡ is_some (first_good fs))
        × Shows (first_good fs) c (kept now false c fs).1
  unfolding keep_frame
  kept-first now c [] = (refl, (refl, refl, refl))
  kept-first now c ((h, fds) ∷ fs) = elim (Bool-cases (is_bad h fds)) [
    | inl bad ↦
        rw (bad, kept, first_good)
          (let ih = kept-first now (record c { closed = fds ++ c.closed }) fs in
            (
              ih.0,
              Shows-closed (first_good fs) c
                  (kept now false (record c { closed = fds ++ c.closed }) fs).1 (fds ++ c.closed)
                  ih.1,
            ))
    | inr good ↦ rw (good, kept, first_good) (kept-processed now (keep_frame c h fds now) fs)
  ]

  -- While the connection lasts, with fuel for the batch, the receiving loop keeps the first frame
  -- of the batch that has one to four descriptors and a canvas that is not empty, says that it
  -- kept one, and leaves on display what it was where the batch has none.
  pub keep_loop-first :
      (fuel : ℕ) {t t' : State} {fs : List Frame} (now : Timespec) (c : Compositor)
      → Batch t fs false t'
      → length fs < fuel
      → (c' : Compositor) × (keep_loop T fuel now false c t
          ≡ some (is_some (first_good fs), c', t'))
        × Shows (first_good fs) c c'
  keep_loop-first fuel {t' = t'} {fs = fs} now c b h = (
    (kept now false c fs).1,
    keep_loop-kept fuel now false c b h
        ∙ ap (λ x. some (x, (kept now false c fs).1, t')) (kept-first now c fs).0,
    (kept-first now c fs).1,
  )
