-- ===== src/Webview/View/Stuck.antt =====
-- src/cli/webview_cef/view.cc: a deferred frame that cannot be sent.
use idk_overlay.Prelude.{
  ℕ, ◌≡◌, refl, ap, ◌∙◌, List, Bool, true, false, not, ◌&&◌, ◌||◌, Option, none, some, if_holds,
  arith,
}
use idk_overlay.Wire.{Ack}
use idk_overlay.Webview.View.{View, Answers, GpuBuf, owned_gpu}
use idk_overlay.Webview.View.Paint.{
  is_empty, maybe_send_deferred, send_deferred, send_deferred_gpu, after_readback,
}
use idk_overlay.Webview.View.Pacing.{
  nudge_frame, recv_requests, serve_request, take_requests, take_ack, poll_socket,
}
use idk_overlay.Webview.View.Acks.{process_ack}

-- DMA-BUFs are off.
abbrev pub is_off : View → Bool
is_off v = not v.use_dmabuf || v.dmabuf_failed

pub unreadable : (a : Answers) (v : View) → a.readback ≡ none → after_readback a.readback a v ≡ v
unfolding after_readback
unreadable a v r = ap (λ o. after_readback o a v) r

pub send_deferred_gpu-stuck :
    (o : Option GpuBuf) (a : Answers) (v : View)
    → is_off v ≡ true
    → a.readback ≡ none
    → send_deferred_gpu o a v ≡ v
unfolding send_deferred_gpu
send_deferred_gpu-stuck none a v f r = refl
send_deferred_gpu-stuck (some b) a v f r =
    if_holds (λ (u : View). u ≡ v) (is_off v) (after_readback a.readback a v) _
      (λ e. unreadable a v r) (λ e. absurd (ground (arith, e, f)))

pub maybe_send_deferred-stuck :
    (a : Answers) (v : View)
    → v.deferred_kind ≡ owned_gpu
    → is_off v ≡ true
    → a.readback ≡ none
    → maybe_send_deferred a v ≡ v
unfolding maybe_send_deferred send_deferred
maybe_send_deferred-stuck a v k f r =
    if_holds (λ (u : View). u ≡ v)
      (not v.request_credit || v.pending || not v.connected || not v.visible) v
      (send_deferred v.deferred_kind a v) (λ e. refl)
      (λ e. ap (λ d. send_deferred d a v) k ∙ send_deferred_gpu-stuck v.deferred_gpu_ptr a v f r)

-- Nothing is sent, no frame is begun, and the deferred frame stays.
abbrev pub Same : View → View → Type 0
Same v u = (u.sent ≡ v.sent) × (u.begin_frames ≡ v.begin_frames) × (u.deferred_kind ≡ owned_gpu)

pub serve_request-stuck :
    (still requested : Bool) (a : Answers) (v : View)
    → v.deferred_kind ≡ owned_gpu
    → is_off v ≡ true
    → a.readback ≡ none
    → Same v (serve_request still requested a v)
unfolding serve_request
serve_request-stuck still requested a v k f r =
    if_holds (Same v) (not still || not v.visible) v _ (λ e. (refl, refl, k))
      (λ e.
        if_holds (Same v) (not granted.pending && granted.request_credit && granted.page_ready) _
          granted
          (λ t.
            if_holds (Same v)
              (not (maybe_send_deferred a granted).pending
                && is_empty (maybe_send_deferred a granted).deferred_kind)
              (nudge_frame (maybe_send_deferred a granted)) (maybe_send_deferred a granted)
              (λ z.
                absurd
                  (ground (arith, z, ap is_empty (ap (λ (u : View). u.deferred_kind) stays ∙ k))))
              (λ z. (
                ap (λ (u : View). u.sent) stays,
                ap (λ (u : View). u.begin_frames) stays,
                ap (λ (u : View). u.deferred_kind) stays ∙ k,
              )))
          (λ t. (refl, refl, k)))
  where
    granted : View
    granted = record v { request_credit = v.request_credit || requested }

    stays : maybe_send_deferred a granted ≡ granted
    stays = maybe_send_deferred-stuck a granted k f r

pub take_requests-stuck :
    (q : Bool × Bool) (still : Bool) (a : Answers) (v : View)
    → v.deferred_kind ≡ owned_gpu
    → is_off v ≡ true
    → a.readback ≡ none
    → Same v (take_requests q still a v)
unfolding take_requests
take_requests-stuck (true, requested) still a v k f r = (refl, refl, k)
take_requests-stuck (false, requested) still a v k f r =
    serve_request-stuck still requested a v k f r

-- A deferred frame in a staging buffer, where DMA-BUFs are off and the buffer cannot be read back, is
-- never sent, and while it is there no poll asks Chromium for a new frame.
pub poll_socket-stuck :
    (ack : Option Ack) (types : List ℕ) (still : Bool) (back a : Answers) (v : View)
    → v.pending ≡ false
    → v.deferred_kind ≡ owned_gpu
    → is_off v ≡ true
    → a.readback ≡ none
    → ((poll_socket ack types still back a v).sent ≡ v.sent)
      × ((poll_socket ack types still back a v).begin_frames ≡ v.begin_frames)
      × ((poll_socket ack types still back a v).deferred_kind ≡ owned_gpu)
unfolding poll_socket take_ack
poll_socket-stuck ack types still back a v p k f r =
    if_holds (Same v) (not v.connected) v _ (λ e. (refl, refl, k)) (λ e. go ack)
  where
    served : (q : Bool × Bool) → Same v (take_requests q still a v)
    served q = take_requests-stuck q still a v k f r

    go :
        (o : Option Ack)
        → Same v (take_requests (recv_requests 256 types false) still a (take_ack o back v))
    go none = served (recv_requests 256 types false)
    go (some x) =
        if_holds (λ (u : View). Same v (take_requests (recv_requests 256 types false) still a u))
          v.pending (process_ack x back v) v (λ e. absurd (ground (arith, e, p)))
          (λ e. served (recv_requests 256 types false))
