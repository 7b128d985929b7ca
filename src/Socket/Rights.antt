-- ===== src/Socket/Rights.antt =====
-- What becomes of the descriptors that arrive with a frame (src/core/transport/socket/scm.c).
use idk_overlay.Prelude.{
  ℕ, ◌+◌, ◌*◌, ◌≤◌, ◌≡◌, List, [], ◌∷◌, ◌++◌, Bool, true, false, some, length, arith, length-append,
  append-nil, append_assoc, if◌then◌else◌,
}
use idk_overlay.Socket.{Socket}
use idk_overlay.Socket.Scm.{
  Cmsg, Message, msg, collect, cmsg_len0, max_fds, scm_recv_fds, Received, nothing, broken, frame,
  drop_frame,
}

-- A control message as the kernel writes it: whole, inside the buffer, and of as many descriptors
-- as its length says.
pub record IsCmsg (c : Cmsg) : Type 0 where
  pub size : c.len ≡ cmsg_len0 + 4 * length c.fds
  pub inside : c.len ≤ c.remaining

abbrev pub IsCmsgs : List Cmsg → Type 0
IsCmsgs [] = Unit
IsCmsgs (c ∷ cs) = IsCmsg c × IsCmsgs cs

-- The descriptors that the kernel opened for the message.
abbrev pub rights : List Cmsg → List ℕ
rights [] = []
rights (c ∷ cs) = (if c.is_rights then c.fds else []) ++ rights cs

-- The copy loop never holds more than the four descriptors of `fds[4]`, whatever the control
-- messages say, as long as each has as many as its length says.
collect-bound :
    (cs : List Cmsg) (fds : List ℕ) (has : Bool)
    → IsCmsgs cs
    → length fds ≤ max_fds
    → length (collect cs fds has).fds ≤ max_fds
unfolding collect
collect-bound [] fds has v h = h
collect-bound (c ∷ cs) fds has v h = ground (
  arith,
  v.0,
  h,
  collect-bound cs fds has v.1,
  collect-bound cs (fds ++ c.fds) true v.1,
  length-append fds c.fds,
)

-- It collects all of them if they are four at most.
pub collect-rights :
    (cs : List Cmsg) (fds : List ℕ) (has : Bool)
    → IsCmsgs cs
    → length fds + length (rights cs) ≤ max_fds
    → ((collect cs fds has).fds ≡ fds ++ rights cs) × ((collect cs fds has).malformed ≡ false)
unfolding collect
collect-rights [] fds has v h = ground (arith, append-nil fds)
collect-rights (c ∷ cs) fds has v h = ground (
  arith,
  v.0,
  h,
  collect-rights cs fds has v.1,
  collect-rights cs (fds ++ c.fds) true v.1,
  length-append fds c.fds,
  length-append c.fds (rights cs),
  append_assoc fds c.fds (rights cs),
)

-- What a receive hands over, and what it closes.
abbrev pub given : Received → List ℕ
given nothing = []
given (broken e fds) = []
given (frame h fds) = fds

abbrev pub closed_by : Received → List ℕ
closed_by nothing = []
closed_by (broken e fds) = fds
closed_by (frame h fds) = []

-- Every descriptor that came with a message of at most four is either handed to the caller or
-- closed, all of them the same way and in order: a broken message leaks none.
pub scm_recv_fds-rights :
    (m : Message)
    → IsCmsgs m.cmsgs
    → length (rights m.cmsgs) ≤ max_fds
    → let r = scm_recv_fds (msg m) in given r ++ closed_by r ≡ rights m.cmsgs
unfolding scm_recv_fds
scm_recv_fds-rights m v h = ground (
  arith,
  collect-rights m.cmsgs [] false v (omega arith),
  append-nil (collect m.cmsgs [] false).fds,
)

-- Dropping a frame while there is a client closes every descriptor of its message, once and in order,
-- on every path, when the message has four at most.
drop_frame-rights :
    (tp : Socket) (fd : ℕ) (m : Message)
    → tp.client_fd ≡ some fd
    → IsCmsgs m.cmsgs
    → length (rights m.cmsgs) ≤ max_fds
    → (drop_frame tp (msg m)).1 ≡ record tp { closed = rights m.cmsgs ++ tp.closed }
unfolding drop_frame
drop_frame-rights tp fd m e v h = ground (arith, collect-rights m.cmsgs [] false v (omega arith))
