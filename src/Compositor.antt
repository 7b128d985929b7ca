-- ===== src/Compositor.antt =====
-- src/core/compositor and include/core/compositor.h: the state `idk_compositor_t` and the frame
-- functions of frame.c and state.c, over any transport. `closed` logs the close(2) calls, newest
-- first. Times are CLOCK_MONOTONIC readings, given to the function that takes them.
pub mod Resize
pub mod Frames
pub mod Drain
pub mod Cache
use idk_overlay.Prelude.{
  ℕ, zero, suc, ◌+◌, ◌≤◌, List, [], ◌∷◌, ◌++◌, Bool, true, false, not, ◌||◌, Option, none, some,
  ltb, ◌==◌, if◌then◌else◌, length,
}
use idk_overlay.Prelude.Int.{ℤ}
use idk_overlay.Prelude.Io.{Rc, fail, rc0, rc1}
use idk_overlay.Wire.{FrameHeader, Ack, request_next_frame, ack_discarded}
use idk_overlay.Socket.Scm.{Received, nothing, broken, frame}
use idk_overlay.Transport.{Transport}
use Resize.{Timespec, Size, build_ack, debounce_ms, notify_resize}

-- `idk_compositor_t`. The first `nfd` entries of `dmabuf_fd` are the list; `frame_w` and `frame_h`
-- are the header's.
pub record Compositor : Type 0 where
  pub inited : Bool
  pub has_frame : Bool
  pub hdr : FrameHeader
  pub dmabuf_fd : List ℕ
  pub dmabuf_cache_id : ℕ
  pub size : Size
  pub last_frame_ts : Timespec
  pub was_hidden : Bool
  pub closed : List ℕ

-- idk_compositor_close_frame_fds on the compositor's own array
unfoldable pub close_frame_fds : Compositor → Compositor
close_frame_fds c = record c { dmabuf_fd = []; closed = c.dmabuf_fd ++ c.closed }

-- A frame that keep_last_frame throws away: no or too many descriptors, or an empty canvas.
abbrev pub is_bad : FrameHeader → List ℕ → Bool
is_bad hdr fds = ltb (length fds) 1 || ltb 4 (length fds) || (hdr.width == 0) || (hdr.height == 0)

-- What keep_last_frame stores of the frame that it keeps.
unfoldable pub keep_frame : Compositor → FrameHeader → List ℕ → Timespec → Compositor
keep_frame c hdr fds now = record c {
  dmabuf_fd = fds;
  closed = c.dmabuf_fd ++ c.closed;
  hdr = hdr;
  has_frame = true;
  last_frame_ts = now;
}

abbrev pub discarded : Ack
discarded = record { code = ack_discarded; w = 0; h = 0 }

module _ (T : Transport) where
  open T use {State, ready, accept, disconnect, recv, drop, send_ack, send_request}

  -- disconnect_client
  unfoldable pub disconnect_client : Compositor → State → Compositor × State
  disconnect_client c t = (
    record c {
      dmabuf_fd = [];
      closed = c.dmabuf_fd ++ c.closed;
      has_frame = false;
      dmabuf_cache_id = 0;
    },
    disconnect t,
  )

  -- The loop of drain_hidden; `none`: the fuel ran out.
  unfoldable pub drain_loop : ℕ → Compositor → State → Option (Compositor × State)
  drain_loop zero c t = none
  drain_loop (suc fuel) c t =
      let (rc, t') = drop t in
      elim rc [
        | fail e ↦ some (disconnect_client c t')
        | rc0 ↦ some (c, t')
        | rc1 ↦ drain_loop fuel c (send_ack t' discarded)
      ]

  -- The loop of keep_last_frame; `processed` once a frame of this batch was kept.
  unfoldable pub keep_loop :
      ℕ → Timespec → Bool → Compositor → State → Option (Bool × Compositor × State)
  keep_loop zero now processed c t = none
  keep_loop (suc fuel) now processed c t =
      let (r, t') = recv t in
      elim r [
        | nothing ↦ some (processed, c, t')
        | broken e fds ↦ let (c', t'') = disconnect_client c t' in some (processed, c', t'')
        | frame hdr fds ↦ elim (is_bad hdr fds || processed) [
          | true ↦ keep_loop fuel now processed (record c { closed = fds ++ c.closed }) t'
          | false ↦ keep_loop fuel now true (keep_frame c hdr fds now) t'
        ]
      ]

  -- recv_accept before the accept: idk_compositor_init runs where it has to.
  unfoldable pub ensure_inited : Compositor → State → Option State → Option (Compositor × State)
  ensure_inited c t init = elim c.inited [
    | true ↦ some (c, t)
    | false ↦ elim init [ none ↦ none | some t0 ↦ some (record c { inited = true }, t0) ]
  ]

  -- idk_compositor_recv_frame. `init` is what idk_compositor_init leaves where it is needed, or
  -- `none` if it fails. The result is -1, 0 or 1.
  unfoldable pub recv_frame :
      ℕ → Timespec → Bool → Option State → Compositor → State → Option (Rc × Compositor × State)
  recv_frame fuel now visible init c t = elim (ensure_inited c t init) [
    | none ↦ some (fail none, c, t)
    | some (c1, t1) ↦
        let t2 = accept t1 in
        elim (ready t2) [
          | false ↦ some (rc0, c1, t2)
          | true ↦ elim visible [
            | false ↦ elim (drain_loop fuel c1 t2) [
              | none ↦ none
              | some (c3, t3) ↦ some (rc0, record c3 { was_hidden = true }, t3)
            ]
            | true ↦
                let t3 = if c1.was_hidden then send_request t2 request_next_frame else t2 in
                elim (keep_loop fuel now false (record c1 { was_hidden = false }) t3) [
                  | none ↦ none
                  | some (processed, c4, t4) ↦
                      some
                        ((if processed then rc1 else rc0), c4, send_request t4 request_next_frame)
                ]
          ]
        ]
  ]

  -- idk_compositor_send_ack in ack.c
  unfoldable pub compositor_ack : Compositor → State → ℕ → Timespec → Compositor × State
  compositor_ack c t code now = elim (ready t) [
    | false ↦ (c, t)
    | true ↦
        let (msg, size) = build_ack c.size code now debounce_ms in
        (record c { size = size }, send_ack t msg)
  ]

  -- idk_compositor_send_request in ack.c
  unfoldable pub compositor_request : State → State
  compositor_request t = elim (ready t) [ false ↦ t | true ↦ send_request t request_next_frame ]

-- idk_compositor_notify_resize in ack.c
unfoldable pub compositor_resize : Compositor → ℤ → ℤ → Timespec → Compositor
compositor_resize c w h now = record c { size = (notify_resize c.size w h now).1 }
