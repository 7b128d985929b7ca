-- ===== src/Prelude/Errno.antt =====
-- The error numbers that the program sets or tests. EWOULDBLOCK is EAGAIN on Linux.
use mathlib.Core.Bool.{Bool, true, false}

pub data Errno : Type 0 where
  eagain eintr epipe econnreset eshutdown econnaborted ebadf einval enotconn erange eproto : Errno
  emsgsize ebadmsg etimedout econnrefused enoent eacces eother : Errno

-- errno == EPIPE || ECONNRESET || ESHUTDOWN || ECONNABORTED || EBADF
abbrev pub is_dead : Errno → Bool
is_dead epipe = true
is_dead econnreset = true
is_dead eshutdown = true
is_dead econnaborted = true
is_dead ebadf = true
is_dead _ = false

abbrev pub is_eagain : Errno → Bool
is_eagain eagain = true
is_eagain _ = false

abbrev pub is_eintr : Errno → Bool
is_eintr eintr = true
is_eintr _ = false
