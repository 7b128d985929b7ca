-- ===== src/Socket/Init.antt =====
-- tp_socket_init and consumer_init of src/core/transport/socket: a transport is set up anew. Its fields
-- are cleared, and descriptors in them are forgotten, not closed.
use idk_overlay.Prelude.{ℕ, List, [], ◌∷◌, Bool, false, Option, none, some, if◌then◌else◌}
use idk_overlay.Prelude.Io.{Rc, fail, rc0, SysRet, ret, sys_fail}
use idk_overlay.Socket.{
  Socket, consumer, producer, state_init, state_listen, is_abstract, producer_init,
}

-- What consumer_init meets: for a path at which there is a socket, the descriptor to try it with and
-- whether connect(2) reaches an owner; then socket(2), and whether bind(2) succeeds.
pub record Listen : Type 0 where
  pub stale : Option (SysRet × Bool)
  pub sock : SysRet
  pub bound : Bool

-- consumer_init from the second socket(2) on
unfoldable pub listen_on : Socket → Listen → Rc × Socket
listen_on tp l = elim l.sock [
  | sys_fail e ↦ (fail (some e), tp)
  | ret fd ↦
      if l.bound
      then (
        rc0,
        record tp { server_fd = some fd; client_fd = none; state = state_listen; ready = false },
      )
      else (fail none, record tp { closed = fd ∷ tp.closed })
]

-- consumer_init; the descriptor of the try is closed whatever it says.
unfoldable pub consumer_init : Socket → List ℕ → Listen → Rc × Socket
unfolding listen_on
consumer_init tp name l = if is_abstract name then listen_on tp l else (elim l.stale [
  | none ↦ listen_on tp l
  | some (r, owned) ↦ elim r [
    | sys_fail e ↦ listen_on tp l
    | ret fd ↦
        let tp' = record tp { closed = fd ∷ tp.closed } in
        if owned then (fail none, tp') else listen_on tp' l
  ]
])

-- The fields as tp_socket_init clears them
unfoldable pub cleared : Socket → Socket
cleared tp = record tp {
  ready = false;
  server_fd = none;
  client_fd = none;
  state = state_init;
  connect_retries = 0;
  queued_req = 0;
  abstract_name = false;
  path = [];
}

-- tp_socket_init; `sock` and `conn` are what producer_init meets.
unfoldable pub init : Socket → List ℕ → Listen → SysRet → SysRet → Rc × Socket
unfolding cleared consumer_init producer_init
init tp name l sock conn = elim tp.role [
  | consumer ↦ consumer_init (cleared tp) name l
  | producer ↦ producer_init (cleared tp) name sock conn
]

abbrev pub opened : SysRet → List ℕ
opened (ret fd) = fd ∷ []
opened (sys_fail e) = []

-- The descriptors that the kernel opens for consumer_init
abbrev pub consumer_opened : List ℕ → Listen → List ℕ
consumer_opened name l = if is_abstract name then opened l.sock else (elim l.stale [
  | none ↦ opened l.sock
  | some (r, owned) ↦ elim r [
    | sys_fail e ↦ opened l.sock
    | ret fd ↦ if owned then fd ∷ [] else fd ∷ opened l.sock
  ]
])

-- and for tp_socket_init
abbrev pub init_opened : Socket → List ℕ → Listen → SysRet → List ℕ
init_opened tp name l sock = elim tp.role [
  | consumer ↦ consumer_opened name l
  | producer ↦ opened sock
]
