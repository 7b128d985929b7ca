-- ===== src/Socket/Ack.antt =====
-- src/core/transport/socket/ack.c
use idk_overlay.Prelude.{
  ℕ, zero, suc, ◌+◌, List, [], true, false, Option, none, some, ltb, ◌==◌, ◌||◌, if◌then◌else◌,
  take,
}
use idk_overlay.Prelude.Errno.{is_dead}
use idk_overlay.Prelude.Io.{SysRet, ret, sys_fail, Poll, poll_none, poll_hangup, poll_in}
use idk_overlay.Wire.{Ack, request_shutdown, ack_discarded}
use idk_overlay.Wire.Bytes.{ack_size, request_size, encode_ack, decode_ack, has_tag, clear_tag}
use idk_overlay.Socket.{Socket, disconnect_client}
use idk_overlay.Socket.Bytes.{peek, recv, peek_first}

-- tp_socket_send_ack, with what send(2) returns: the new state, and the bytes that go out.
unfoldable pub send_ack : Socket → Ack → SysRet → Socket × List ℕ
unfolding disconnect_client
send_ack tp ack r = elim tp.client_fd [
  | none ↦ (tp, [])
  | some _ ↦ elim r [
    | sys_fail e ↦ ((if is_dead e then disconnect_client tp else tp), [])
    | ret n ↦ ((if n == ack_size then tp else disconnect_client tp), take n (encode_ack ack))
  ]
]

-- 1 NEXT_FRAME, 2 SHUTDOWN: a request met on the way is queued; SHUTDOWN is never overwritten.
abbrev pub coalesce : ℕ → ℕ → ℕ
coalesce queued type = if (type == request_shutdown) || (queued == 0) then type + 1 else queued

-- The first byte of a record that was read.
abbrev pub head_byte : List ℕ → ℕ
head_byte bytes = elim (peek_first bytes) [ none ↦ 0 | some b ↦ b ]

-- The loop of tp_socket_wait_ack, at most `rounds` times: the ACK, the state, the bytes left.
unfoldable pub wait_ack_loop : ℕ → Socket → List ℕ → Option Ack × Socket × List ℕ
wait_ack_loop zero tp s = (none, tp, s)
wait_ack_loop (suc rounds) tp s = elim (peek_first s) [
  | none ↦ (none, tp, s)
  | some first ↦ elim (has_tag first) [
    | true ↦ elim (peek request_size s) [
      | none ↦ (none, tp, s)
      | some _ ↦ elim (recv request_size s) [
        | none ↦ (none, disconnect_client tp, s)
        | some (wire, rest) ↦
            let type = clear_tag (head_byte wire) in
            elim (ltb request_shutdown type) [
              | true ↦ (none, disconnect_client tp, rest)
              | false ↦
                  wait_ack_loop rounds (record tp { queued_req = coalesce tp.queued_req type }) rest
            ]
      ]
    ]
    | false ↦ elim (ltb ack_discarded first) [
      | true ↦ (none, disconnect_client tp, s)
      | false ↦ elim (peek ack_size s) [
        | none ↦ (none, tp, s)
        | some _ ↦ elim (recv ack_size s) [
          | none ↦ (none, disconnect_client tp, s)
          | some (wire, rest) ↦ (some (decode_ack wire), tp, rest)
        ]
      ]
    ]
  ]
]

abbrev pub max_records : ℕ
max_records = 256

-- tp_socket_wait_ack, with what poll(2) says and what the kernel holds. `none` is -1.
unfoldable pub wait_ack : Socket → Poll → List ℕ → Option Ack × Socket × List ℕ
unfolding disconnect_client
wait_ack tp p s = elim tp.client_fd [
  | none ↦ (none, tp, s)
  | some _ ↦ elim p [
    | poll_none ↦ (none, tp, s)
    | poll_hangup ↦ (none, disconnect_client tp, s)
    | poll_in ↦ wait_ack_loop max_records tp s
  ]
]
