-- ===== src/Socket.antt =====
-- src/core/transport/socket: the state of the socket backend and its life cycle. `idk_transport_t`
-- is taken with the fields that this backend keeps in `_rsv` (socket/internal.h). A descriptor is
-- `none` where the C field is negative. `closed` is the log of close(2) calls, newest first: it is
-- no field of the C struct, and shows which descriptors an operation closes.
pub mod Bytes
pub mod Ack
pub mod Request
pub mod Demux
pub mod Duplex
pub mod Scm
pub mod Init
pub mod Keeps
pub mod Accounts
pub mod Ledger
pub mod Rights
pub mod Input
use idk_overlay.Prelude.{
  ℕ, ◌-◌, ◌+◌, ◌<◌, List, [], ◌∷◌, ◌++◌, Bool, true, false, not, ◌&&◌, Option, none, some, ltb,
  ◌==◌, if◌then◌else◌, length, take,
}
use idk_overlay.Prelude.Errno.{Errno, is_dead, is_eagain, econnrefused, enoent}
use idk_overlay.Prelude.Io.{
  Rc, fail, rc0, rc1, SysRet, ret, sys_fail, Poll, poll_none, poll_hangup, poll_in,
}

-- `idk_tp_role_t`
pub data Role : Type 0 where
  consumer producer : Role

-- TP_STATE_INIT, TP_STATE_LISTEN, TP_STATE_BOUND, TP_STATE_READY
pub data ConnState : Type 0 where
  state_init state_listen state_bound state_ready : ConnState

pub record Socket : Type 0 where
  pub role : Role
  pub ready : Bool
  pub server_fd : Option ℕ
  pub client_fd : Option ℕ
  pub state : ConnState
  pub connect_retries : ℕ
  pub queued_req : ℕ
  pub abstract_name : Bool
  pub path : List ℕ
  pub closed : List ℕ

-- `if (fd >= 0) close(fd)`
abbrev pub close_fd : Option ℕ → List ℕ → List ℕ
close_fd none log = log
close_fd (some fd) log = fd ∷ log

abbrev pub idle_state : Role → ConnState
idle_state consumer = state_listen
idle_state producer = state_init

-- tp_socket_disconnect_client
unfoldable pub disconnect_client : Socket → Socket
disconnect_client tp = record tp {
  client_fd = none;
  closed = close_fd tp.client_fd tp.closed;
  ready = false;
  queued_req = 0;
  state = idle_state tp.role;
}

-- tp_socket_destroy
unfoldable pub destroy : Socket → Socket
unfolding disconnect_client
destroy tp =
    let tp' = disconnect_client tp in
    record tp' { server_fd = none; closed = close_fd tp'.server_fd tp'.closed; ready = false }

-- tp_socket_accept, with what accept(2) returns. The first two returns leave errno alone.
unfoldable pub accept : Socket → SysRet → Rc × Socket
accept tp r = elim tp.server_fd [
  | none ↦ (fail none, tp)
  | some _ ↦ elim tp.client_fd [
    | some _ ↦ (rc1, tp)
    | none ↦ elim r [
      | sys_fail e ↦ ((if is_eagain e then rc0 else fail (some e)), tp)
      | ret c ↦ (rc1, record tp { client_fd = some c; ready = true; queued_req = 0 })
    ]
  ]
]

-- TP_S_PATH_CAP; sizeof(addr.sun_path)
abbrev pub path_cap : ℕ
path_cap = 40

abbrev pub sun_path_size : ℕ
sun_path_size = 108

abbrev pub retry_budget : ℕ
retry_budget = 30

-- The bytes that `producer_init` keeps of the name for a later connect: an abstract name starts
-- with its NUL and takes the whole buffer, a path leaves room for the terminator.
unfoldable pub stored_path : Bool → List ℕ → List ℕ
stored_path abstr name =
    let cap = path_cap - (if abstr then 0 else 1) in
    let cplen = if ltb (length name) cap then length name else cap in take cplen name

-- is_abstract: the name starts with a NUL byte (a path never holds one).
abbrev pub is_abstract : List ℕ → Bool
is_abstract [] = false
is_abstract (c ∷ _) = c == 0

abbrev pub is_deferred : Errno → Bool
is_deferred econnrefused = true
is_deferred enoent = true
is_deferred _ = false

-- producer_init on what `tp_socket_init` has cleared, with what socket(2) and connect(2) return.
-- `name` holds the leading NUL of an abstract name, and not the terminator.
unfoldable pub producer_init : Socket → List ℕ → SysRet → SysRet → Rc × Socket
unfolding stored_path
producer_init tp name sock conn = elim sock [
  | sys_fail e ↦ (fail (some e), tp)
  | ret fd ↦
      if not (ltb (length name) sun_path_size)
      then (fail none, record tp { closed = fd ∷ tp.closed })
      else elim conn [
        | ret _ ↦ (
          rc0,
          record tp {
            server_fd = none;
            client_fd = some fd;
            state = state_ready;
            queued_req = 0;
            connect_retries = retry_budget;
            abstract_name = is_abstract name;
            path = stored_path (is_abstract name) name;
            ready = true;
          },
        )
        | sys_fail e ↦
            if is_deferred e
            then (
              rc0,
              record tp {
                closed = fd ∷ tp.closed;
                server_fd = none;
                client_fd = none;
                state = state_init;
                connect_retries = retry_budget;
                abstract_name = is_abstract name;
                path = stored_path (is_abstract name) name;
                ready = false;
              },
            )
            else (fail (some e), record tp { closed = fd ∷ tp.closed })
      ]
]

-- What poll(2) says of a connected descriptor, with its error return.
unfoldable pub poll_client : Socket → Poll → Rc × Socket
unfolding disconnect_client
poll_client tp poll_none = (rc0, tp)
poll_client tp poll_hangup = (fail none, disconnect_client tp)
poll_client tp poll_in = (rc1, tp)

-- The deferred connect of `tp_socket_poll`: one attempt of the budget, which a success renews.
unfoldable pub retry_connect : Socket → SysRet → SysRet → Socket
retry_connect tp sock conn =
    if tp.connect_retries == 0
    then tp
    else (let tp' = record tp { connect_retries = tp.connect_retries - 1 } in
        if not tp.abstract_name && (length tp.path == 0) then tp' else elim sock [
          | sys_fail e ↦ tp'
          | ret fd ↦ elim conn [
            | ret _ ↦ record tp' {
              client_fd = some fd;
              ready = true;
              state = state_ready;
              queued_req = 0;
              connect_retries = retry_budget;
            }
            | sys_fail e ↦ record tp' { closed = fd ∷ tp'.closed }
          ]
        ])

abbrev pub is_producer : Role → Bool
is_producer producer = true
is_producer consumer = false

-- tp_socket_poll; poll(2) does not fail on one valid descriptor with timeout 0.
unfoldable pub poll : Socket → SysRet → SysRet → Poll → Rc × Socket
unfolding poll_client retry_connect
poll tp sock conn p = elim tp.client_fd [
  | some _ ↦ poll_client tp p
  | none ↦
      if is_producer tp.role && not tp.ready
      then (rc0, retry_connect tp sock conn)
      else (fail none, tp)
]
