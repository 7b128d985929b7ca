-- ===== src/Chunks.antt =====
-- Whole reads and writes out of short ones: the loops `send_all` and `recv_all_nonblock` of
-- src/core/transport/socket/input.c, `recv_full` of src/cli/broker/handshake.c and the loop of
-- `idk_ipc_recv_input` of src/ipc/ipc.c. The results of the successive libc calls are a list; a loop
-- that outlives the list is still waiting.
pub mod Laws
use idk_overlay.Prelude.{ℕ, ◌-◌, List, [], ◌∷◌, ◌++◌, Bool, true, false, ◌==◌, length}
use idk_overlay.Prelude.Errno.{Errno, is_eintr}
use idk_overlay.Prelude.Io.{SysRet, ret, sys_fail}

-- recv(2) or read(2): the bytes that came (none at the end of the stream), or an error.
pub data Read : Type 0 where
  got : List ℕ → Read
  read_fail : Errno → Read

-- What a loop comes to: all the bytes, the end of the stream, an error, or no answer yet.
pub data Outcome : Type 0 where
  whole : List ℕ → Outcome
  eof : Outcome
  failed : Errno → Outcome
  waiting : Outcome

-- The reading loops: `size` bytes are still wanted, `acc` has come.
unfoldable pub read_all : ℕ → List ℕ → List Read → Outcome
read_all size acc [] = elim (size == 0) [ true ↦ whole acc | false ↦ waiting ]
read_all size acc (r ∷ rs) = elim (size == 0) [
  | true ↦ whole acc
  | false ↦ elim r [
    | read_fail e ↦ elim (is_eintr e) [ true ↦ read_all size acc rs | false ↦ failed e ]
    | got bytes ↦ elim (length bytes == 0) [
      | true ↦ eof
      | false ↦ read_all (size - length bytes) (acc ++ bytes) rs
    ]
  ]
]

-- The writing loop, with what each send(2) returns.
unfoldable pub send_all : ℕ → List SysRet → Outcome
send_all size [] = elim (size == 0) [ true ↦ whole [] | false ↦ waiting ]
send_all size (r ∷ rs) = elim (size == 0) [
  | true ↦ whole []
  | false ↦ elim r [
    | sys_fail e ↦ elim (is_eintr e) [ true ↦ send_all size rs | false ↦ failed e ]
    | ret n ↦ elim (n == 0) [ true ↦ eof | false ↦ send_all (size - n) rs ]
  ]
]
