-- ===== src/Socket/Request.antt =====
-- src/core/transport/socket/request.c
use idk_overlay.Prelude.{
  ℕ, zero, suc, ◌-◌, List, [], Bool, true, false, Option, none, some, ltb, ◌==◌, if◌then◌else◌,
  take,
}
use idk_overlay.Prelude.Errno.{is_dead, einval}
use idk_overlay.Prelude.Io.{
  Rc, fail, rc0, SysRet, ret, sys_fail, Poll, poll_none, poll_hangup, poll_in,
}
use idk_overlay.Wire.{Request, request_shutdown, ack_discarded}
use idk_overlay.Wire.Bytes.{ack_size, request_size, encode_request, has_tag, clear_tag}
use idk_overlay.Socket.{Socket, disconnect_client}
use idk_overlay.Socket.Bytes.{peek, recv, peek_first}
use idk_overlay.Socket.Ack.{head_byte, max_records}

-- tp_socket_send_request, with what send(2) returns: the result, the state, the bytes that go out.
unfoldable pub send_request : Socket → Request → SysRet → Rc × Socket × List ℕ
unfolding disconnect_client
send_request tp req r = elim tp.client_fd [
  | none ↦ (fail (some einval), tp, [])
  | some _ ↦ if ltb request_shutdown req then (fail (some einval), tp, []) else elim r [
    | sys_fail e ↦ (fail (some e), (if is_dead e then disconnect_client tp else tp), [])
    | ret n ↦
        if n == request_size
        then (rc0, tp, take n (encode_request req))
        else (fail none, disconnect_client tp, take n (encode_request req))
  ]
]

-- take_queued: the request that `wait_ack` queued, if any.
unfoldable pub take_queued : Socket → Option (Request × Socket)
take_queued tp =
    if tp.queued_req == 0 then none else some (tp.queued_req - 1, record tp { queued_req = 0 })

-- The loop of recv_request.
unfoldable pub recv_request_loop : Bool → ℕ → Socket → List ℕ → Option Request × Socket × List ℕ
recv_request_loop preserve_ack zero tp s = (none, tp, s)
recv_request_loop preserve_ack (suc rounds) tp s = elim (peek_first s) [
  | none ↦ (none, tp, s)
  | some first ↦ elim (has_tag first) [
    | true ↦ elim (peek request_size s) [
      | none ↦ (none, tp, s)
      | some _ ↦ elim (recv request_size s) [
        | none ↦ (none, disconnect_client tp, s)
        | some (wire, rest) ↦
            let type = clear_tag (head_byte wire) in
            if ltb request_shutdown type
            then (none, disconnect_client tp, rest)
            else (some type, tp, rest)
      ]
    ]
    | false ↦ elim (ltb ack_discarded first) [
      | true ↦ (none, disconnect_client tp, s)
      | false ↦ elim preserve_ack [
        | true ↦ (none, tp, s)
        | false ↦ elim (peek ack_size s) [
          | none ↦ (none, tp, s)
          | some _ ↦ elim (recv ack_size s) [
            | none ↦ (none, disconnect_client tp, s)
            | some (stale, rest) ↦ recv_request_loop preserve_ack rounds tp rest
          ]
        ]
      ]
    ]
  ]
]

-- recv_request; `none` is -1. `tp_socket_recv_request` passes `false`,
-- `tp_socket_recv_request_preserving_ack` passes `true`.
unfoldable pub recv_request : Bool → Socket → Poll → List ℕ → Option Request × Socket × List ℕ
unfolding take_queued disconnect_client
recv_request preserve_ack tp p s = elim tp.client_fd [
  | none ↦ (none, tp, s)
  | some _ ↦ elim (take_queued tp) [
    | some (req, tp') ↦ (some req, tp', s)
    | none ↦ elim p [
      | poll_none ↦ (none, tp, s)
      | poll_hangup ↦ (none, disconnect_client tp, s)
      | poll_in ↦ recv_request_loop preserve_ack max_records tp s
    ]
  ]
]
