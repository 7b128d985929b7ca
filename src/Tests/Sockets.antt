-- ===== src/Tests/Sockets.antt =====
-- Runs of the socket backend, of the wire formats and of the loops.
use idk_overlay.Prelude.{
  ℕ, ◌+◌, ◌≡◌, refl, List, [], ◌∷◌, ◌++◌, true, false, none, some, arith, inl, inr,
}
use idk_overlay.Socket.Scm.{send_frame}
use idk_overlay.Producer.{Memory, Producer}
use idk_overlay.Prelude.Io.{Rc, ret, poll_in, poll_none}
use idk_overlay.Wire.{FrameHeader, Ack, request_shutdown}
use idk_overlay.Wire.Bytes.{ack_size}
use idk_overlay.Socket.{Socket, consumer, producer, state_ready, disconnect_client, accept}
use idk_overlay.Socket.Ack.{send_ack, wait_ack}
use idk_overlay.Socket.Request.{recv_request}
use idk_overlay.Socket.Demux.{queue_after}
use idk_overlay.Socket.Duplex.{sent_requests, wait_ack-send_ack, recv_request-shutdown}
use idk_overlay.Prelude.Account.{count}
use idk_overlay.Socket.Accounts.{IsValid, account}
use idk_overlay.Socket.Ledger.{accepts, receives_frame, disconnects, here, next, Reach-account}
use idk_overlay.Socket.Scm.{Cmsg, Message, msg, recv_frame, scm_recv_fds, collect}

abbrev host : Socket
host = record {
  role = consumer;
  ready = true;
  server_fd = some 3;
  client_fd = some 4;
  state = state_ready;
  connect_retries = 0;
  queued_req = 0;
  abstract_name = false;
  path = [];
  closed = [];
}

abbrev peer : Socket
peer = record host { role = producer; server_fd = none; client_fd = some 5 }

abbrev sized : Ack
sized = record { code = 0; w = 1920; h = 1080 }

abbrev wire : List ℕ
wire = (send_ack host sized (ret ack_size)).1 ++ []

wait_ack-send_ack_example :
    wait_ack peer poll_in (sent_requests host (1 ∷ 0 ∷ []) wire)
    ≡ (some sized, record peer { queued_req = queue_after 0 (1 ∷ 0 ∷ []) }, [])
wait_ack-send_ack_example =
    wait_ack-send_ack host peer 4 5 refl refl (1 ∷ 0 ∷ []) sized [] (omega arith)
      (omega arith, (omega arith, tt))
      record { code_range = omega arith; w_range = omega arith; h_range = omega arith }

recv_request-shutdown_example :
    (let (_, p', s') = wait_ack peer poll_in (sent_requests host (0 ∷ 1 ∷ []) wire) in
      recv_request false p' poll_none s')
    ≡ (some request_shutdown, record peer { queued_req = 0 }, [])
recv_request-shutdown_example =
    recv_request-shutdown host peer 4 5 refl refl (0 ∷ 1 ∷ []) sized [] false poll_none
      (omega arith) (omega arith, (omega arith, tt)) (inr (inl refl))
      record { code_range = omega arith; w_range = omega arith; h_range = omega arith }
      (omega arith)

abbrev two_rights : Cmsg
two_rights = record { len = 24; remaining = 40; is_rights = true; fds = 7 ∷ 8 ∷ [] }

abbrev canvas : FrameHeader
canvas = record {
  modifier = 0;
  width = 640;
  height = 480;
  stride = 0;
  fourcc = 0;
  flags = 1;
  nfd = 2;
  buf_id = 0;
}

abbrev short_message : Message
short_message = record { bytes = 27; header = canvas; ctrunc = false; cmsgs = two_rights ∷ [] }

-- A client leaves, the next one gets the same number and sends a frame of two descriptors.
abbrev host_again : Socket
host_again = (accept (disconnect_client host) (ret 4)).1

abbrev long_message : Message
long_message = record short_message { bytes = 28 }

abbrev host_served : Socket
host_served = (recv_frame host_again (msg long_message)).1

Reach-account_example :
    (account 4 host_served + count 4 (7 ∷ 8 ∷ []) ≡ account 4 host + count 4 (7 ∷ 8 ∷ 4 ∷ []))
    × IsValid host_served
unfolding disconnect_client accept recv_frame scm_recv_fds collect
Reach-account_example =
    Reach-account 4 {tp = host} {tp' = host_served} {fds = 7 ∷ 8 ∷ 4 ∷ []} {gds = 7 ∷ 8 ∷ []}
      (next (next (next here disconnects) (accepts (ret 4))) (
        receives_frame (msg long_message)
          ((record { size = refl; inside = omega arith }, tt), omega arith)))
      record { connected = refl; queue_range = omega arith }

abbrev memory : Memory
memory = record { shm_open = some 12; truncated = true; mapped = true }

abbrev webview : Producer Socket
webview = record { tp = peer; object = []; closed = [] }

abbrev one_pixel : FrameHeader
one_pixel = record {
  modifier = 0;
  width = 1;
  height = 1;
  stride = 7;
  fourcc = 0;
  flags = 3;
  nfd = 1;
  buf_id = 0;
}

abbrev sends_whole : Socket → FrameHeader → List ℕ → Rc × Socket
sends_whole tp hdr fds = send_frame tp hdr fds (ret 40)
