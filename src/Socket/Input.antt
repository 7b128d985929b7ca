-- ===== src/Socket/Input.antt =====
-- src/core/transport/socket/input.c: input events and cursor updates on their own socket.
use idk_overlay.Prelude.{
  ℕ, ◌+◌, List, [], ◌∷◌, Bool, true, false, not, ◌&&◌, ◌||◌, Option, none, some, ltb, ◌==◌,
  if◌then◌else◌, length,
}
use idk_overlay.Prelude.Errno.{
  Errno, is_dead, is_eagain, is_eintr, einval, enotconn, ebadmsg, econnreset,
}
use idk_overlay.Prelude.Io.{Rc, fail, rc0, rc1, SysRet, ret, sys_fail}
use idk_overlay.Wire.{CursorUpdate}
use idk_overlay.Wire.Cursor.{cursor_valid, cursor_max_bytes}
use idk_overlay.Chunks.{Read, got, read_fail, Outcome, whole, read_all, send_all}
use idk_overlay.Socket.{Socket, disconnect_client}

-- sizeof(idk_input_event_t), sizeof(idk_cursor_update_t)
abbrev pub event_size : ℕ
event_size = 20

abbrev pub cursor_size : ℕ
cursor_size = 24

-- tp_socket_send_input, with what send(2) returns
unfoldable pub send_input : Socket → SysRet → Rc × Socket
unfolding disconnect_client
send_input tp r = if not tp.ready then (fail (some einval), tp) else elim tp.client_fd [
  | none ↦ (fail (some enotconn), tp)
  | some _ ↦ elim r [
    | sys_fail e ↦
        if is_eagain e
        then (fail (some e), tp)
        else (fail (some e), (if is_dead e then disconnect_client tp else tp))
    | ret n ↦ if n == event_size then (rc0, tp) else (fail none, disconnect_client tp)
  ]
]

-- `do n = recv(…) while (n < 0 && errno == EINTR)`: the first result that is no interruption.
unfoldable pub settled : List Read → Option Read
settled [] = none
settled (got bytes ∷ rs) = some (got bytes)
settled (read_fail e ∷ rs) = elim (is_eintr e) [ true ↦ settled rs | false ↦ some (read_fail e) ]

-- tp_socket_recv_input, with the settled result of recv(2); the event is the bytes of `got`.
unfoldable pub recv_input : Socket → Read → Rc × Socket
unfolding disconnect_client
recv_input tp r = elim tp.client_fd [
  | none ↦ (fail (some enotconn), tp)
  | some _ ↦ elim r [
    | read_fail e ↦ if is_eagain e then (rc0, tp) else (fail (some e), disconnect_client tp)
    | got bytes ↦
        if length bytes == event_size then (rc1, tp) else (fail none, disconnect_client tp)
  ]
]

-- The libc results that one call of tp_socket_send_cursor meets.
abbrev pub sent_whole : Outcome → Bool
sent_whole (whole _) = true
sent_whole _ = false

-- tp_socket_send_cursor: `header` and `body` are the results of the sends of its two `send_all`.
-- The pixels are there if `has_pixels`.
unfoldable pub send_cursor : Socket → CursorUpdate → Bool → List SysRet → List SysRet → Rc × Socket
unfolding disconnect_client
send_cursor tp c has_pixels header body =
    if not tp.ready then (fail (some einval), tp) else elim tp.client_fd [
      | none ↦ (fail (some einval), tp)
      | some _ ↦
          if ltb 0 c.data_size && not has_pixels || not (cursor_valid c cursor_max_bytes)
          then (fail (some einval), tp)
          else if sent_whole (send_all cursor_size header)
              && (not (ltb 0 c.data_size) || sent_whole (send_all c.data_size body))
          then (rc0, tp)
          else (fail none, disconnect_client tp)
    ]

-- What tp_socket_recv_cursor peeks: an error, the end, a part of the header, or a whole header.
pub data Peeked : Type 0 where
  peek_fail : Errno → Peeked
  peek_eof : Peeked
  peek_short : Peeked
  peek_whole : CursorUpdate → Peeked

-- tp_socket_recv_cursor, with what FIONREAD says (`none`: it fails) and the reads that follow. The
-- header is read again after the peek: it is the same bytes. Success carries the pixels.
unfoldable pub recv_cursor :
    Socket → ℕ → Bool → Peeked → Option ℕ → List Read → List Read → Rc × List ℕ × Socket
unfolding disconnect_client
recv_cursor tp capacity has_pixels p available header body = elim tp.client_fd [
  | none ↦ (fail (some einval), [], tp)
  | some _ ↦ if ltb 4294967295 capacity then (fail (some einval), [], tp) else elim p [
    | peek_fail e ↦ if is_eagain e then (rc0, [], tp) else (fail (some e), [], disconnect_client tp)
    | peek_eof ↦ (fail (some econnreset), [], disconnect_client tp)
    | peek_short ↦ (rc0, [], tp)
    | peek_whole c ↦
        if not (cursor_valid c capacity) || ltb 0 c.data_size && not has_pixels
        then (fail (some ebadmsg), [], disconnect_client tp)
        else elim available [
          | none ↦ (fail none, [], disconnect_client tp)
          | some n ↦
              if ltb n (cursor_size + c.data_size)
              then (rc0, [], tp)
              else elim (read_all cursor_size [] header) [
                | whole _ ↦
                    if not (ltb 0 c.data_size)
                    then (rc1, [], tp)
                    else elim (read_all c.data_size [] body) [
                      | whole pixels ↦ (rc1, pixels, tp)
                      | _ ↦ (fail none, [], disconnect_client tp)
                    ]
                | _ ↦ (fail none, [], disconnect_client tp)
              ]
        ]
  ]
]
