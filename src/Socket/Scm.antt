-- ===== src/Socket/Scm.antt =====
-- src/core/transport/socket/scm.c and the frame functions of socket/io.c.
use idk_overlay.Prelude.{
  ℕ, ◌-◌, ◌/◌, ◌%◌, List, [], ◌∷◌, ◌++◌, Bool, true, false, not, ◌||◌, Option, none, some, ltb,
  ◌==◌, if◌then◌else◌, length,
}
use idk_overlay.Prelude.Errno.{Errno, is_dead, is_eagain, einval, eproto, emsgsize}
use idk_overlay.Prelude.Io.{Rc, fail, rc0, rc1, SysRet, ret, sys_fail}
use idk_overlay.Wire.{FrameHeader}
use idk_overlay.Socket.{Socket, disconnect_client}

-- sizeof(idk_frame_header_t), CMSG_LEN(0), sizeof(int), the length of `fds`
abbrev pub header_size : ℕ
header_size = 28

abbrev pub cmsg_len0 : ℕ
cmsg_len0 = 16

abbrev pub max_fds : ℕ
max_fds = 4

-- A control message as the kernel leaves it: `cmsg_len`, the bytes from it to the end of the
-- control buffer, whether it is SOL_SOCKET with SCM_RIGHTS, and the descriptors in its data.
pub record Cmsg : Type 0 where
  pub len : ℕ
  pub remaining : ℕ
  pub is_rights : Bool
  pub fds : List ℕ

-- What recvmsg(2) hands over.
pub record Message : Type 0 where
  pub bytes : ℕ
  pub header : FrameHeader
  pub ctrunc : Bool
  pub cmsgs : List Cmsg

pub data RecvMsg : Type 0 where
  msg_fail : Errno → RecvMsg
  msg_eof : RecvMsg
  msg : Message → RecvMsg

pub record Collected : Type 0 where
  pub fds : List ℕ
  pub malformed : Bool
  pub has_rights : Bool

-- The loop over the control messages; `fds` are the descriptors copied so far.
unfoldable pub collect : List Cmsg → List ℕ → Bool → Collected
collect [] fds has = record { fds = fds; malformed = false; has_rights = has }
collect (c ∷ cs) fds has = elim (ltb c.len cmsg_len0 || ltb c.remaining c.len) [
  | true ↦ record { fds = fds; malformed = true; has_rights = has }
  | false ↦ elim c.is_rights [
    | false ↦ collect cs fds has
    | true ↦
        let data_len = c.len - cmsg_len0 in
        elim (not ((data_len % 4) == 0) || ltb (max_fds - length fds) (data_len / 4)) [
          | true ↦ record { fds = fds; malformed = true; has_rights = has }
          | false ↦ collect cs (fds ++ c.fds) true
        ]
  ]
]

-- What tp_socket_recv gives its caller: 0; -1; or 1 with a header and descriptors. The last two
-- carry what close_received_fds closed, and what is handed over.
pub data Received : Type 0 where
  nothing : Received
  broken : Option Errno → List ℕ → Received
  frame : FrameHeader → List ℕ → Received

-- scm_recv_fds, on what recvmsg(2) returns.
unfoldable pub scm_recv_fds : RecvMsg → Received
unfolding collect
scm_recv_fds (msg_fail e) = if is_eagain e then nothing else broken (some e) []
scm_recv_fds msg_eof = broken none []
scm_recv_fds (msg m) =
    let c = collect m.cmsgs [] false in
    if m.ctrunc || c.malformed || not c.has_rights || not (m.bytes == header_size)
    then broken (some (if m.ctrunc || c.malformed then emsgsize else eproto)) c.fds
    else frame m.header c.fds

-- tp_socket_recv; the transport's log takes what was closed.
unfoldable pub recv_frame : Socket → RecvMsg → Received × Socket
unfolding scm_recv_fds
recv_frame tp m = elim tp.client_fd [
  | none ↦ (broken (some einval) [], tp)
  | some _ ↦ elim (scm_recv_fds m) [
    | nothing ↦ (nothing, tp)
    | broken e fds ↦ (broken e fds, record tp { closed = fds ++ tp.closed })
    | frame h fds ↦ (frame h fds, tp)
  ]
]

-- tp_socket_drop_frame
unfoldable pub drop_frame : Socket → RecvMsg → Rc × Socket
unfolding recv_frame
drop_frame tp m =
    let (r, tp') = recv_frame tp m in
    elim r [
      | nothing ↦ (rc0, tp')
      | broken e _ ↦ (fail e, tp')
      | frame _ fds ↦ (rc1, record tp' { closed = fds ++ tp'.closed })
    ]

-- tp_socket_send, with what sendmsg(2) returns. The descriptors are borrowed: none is closed.
unfoldable pub send_frame : Socket → FrameHeader → List ℕ → SysRet → Rc × Socket
unfolding disconnect_client
send_frame tp hdr fds r = elim tp.client_fd [
  | none ↦ (fail (some einval), tp)
  | some _ ↦
      if ltb (length fds) 1 || ltb max_fds (length fds) then (fail (some einval), tp) else elim r [
        | sys_fail e ↦
            if is_eagain e
            then (fail (some e), tp)
            else (fail (some e), (if is_dead e then disconnect_client tp else tp))
        | ret n ↦ if n == header_size then (rc0, tp) else (fail none, disconnect_client tp)
      ]
]
