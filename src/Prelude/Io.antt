-- ===== src/Prelude/Io.antt =====
-- Outcomes of the C functions and of the libc calls that they make.
use Prim.Native.Nat.{ℕ}
use mathlib.Core.Option.{Option}
use idk_overlay.Prelude.Errno.{Errno}

-- The int that a transport function returns: -1 with the errno that it leaves (`none` where the
-- function leaves errno as it was), 0, or 1.
pub data Rc : Type 0 where
  fail : Option Errno → Rc
  rc0 rc1 : Rc

-- A call that returns a count of bytes, or a descriptor, or -1 with errno.
pub data SysRet : Type 0 where
  ret : ℕ → SysRet
  sys_fail : Errno → SysRet

-- poll(2) of one descriptor: a timeout or an error; POLLERR, POLLHUP or POLLNVAL in `revents`,
-- whatever else is set; POLLIN alone.
pub data Poll : Type 0 where
  poll_none poll_hangup poll_in : Poll
