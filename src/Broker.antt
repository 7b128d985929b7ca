-- ===== src/Broker.antt =====
-- src/cli/broker: one session of the broker, between a game behind a Wine container and the webview
-- that the broker starts for it. What the kernel answers is an argument; what the session does to the
-- outside is a log, newest first.
pub mod Session
pub mod Connect
use idk_overlay.Prelude.{
  ℕ, zero, suc, List, [], ◌∷◌, take, drop, get_elem?, Bool, true, false, Option, none, some, ◌==◌,
  ◌||◌, not, if◌then◌else◌,
}
use idk_overlay.Wire.Bytes.{of_le32}
use idk_overlay.Chunks.{Read, Outcome, whole, eof, failed, waiting, read_all}

-- `idk_cp_handshake_t`, its texts as the bytes of their arrays
pub record Handshake : Type 0 where
  pub identity : ℕ
  pub tp_backend : ℕ
  pub no_dmabuf : ℕ
  pub webview : List ℕ
  pub comm : List ℕ
  pub tp_socket : List ℕ
  pub input_socket : List ℕ

abbrev pub or_zero : Option ℕ → ℕ
or_zero none = 0
or_zero (some b) = b

abbrev pub byte : List ℕ → ℕ → ℕ
byte bs i = or_zero (get_elem? bs i)

-- sizeof(idk_cp_handshake_t), and the packed layout
abbrev pub handshake_size : ℕ
handshake_size = 230

-- The fields that the bytes of the packed struct are, where they were read into it.
unfoldable pub handshake_fields : List ℕ → Handshake
unfolding of_le32
handshake_fields bs = record {
  identity = of_le32 (byte bs 0) (byte bs 1) (byte bs 2) (byte bs 3);
  comm = take 64 (drop 4 bs);
  tp_socket = take 64 (drop 68 bs);
  input_socket = take 64 (drop 132 bs);
  tp_backend = byte bs 196;
  no_dmabuf = byte bs 197;
  webview = take 32 (drop 198 bs);
}

abbrev pub starts_empty : List ℕ → Bool
starts_empty [] = true
starts_empty (b ∷ bs) = b == 0

abbrev pub identity_overlay : ℕ
identity_overlay = 1

-- validate_handshake
unfoldable pub validate_handshake : Handshake → Bool
validate_handshake hs =
    if not (hs.identity == identity_overlay)
    then false
    else not (starts_empty hs.tp_socket || starts_empty hs.input_socket)

-- webview_bin: the handshake's name, else the environment's, else the default.
unfoldable pub webview_bin : Handshake → List ℕ → List ℕ → List ℕ → List ℕ
webview_bin hs env_bin env_webview default =
    if not (starts_empty hs.webview)
    then hs.webview
    else if not (starts_empty env_bin)
    then env_bin
    else if not (starts_empty env_webview)
    then env_webview
    else default

-- What a session does: the ACK byte sent, a process reaped, a descriptor closed.
pub data Act : Type 0 where
  acks : (code : ℕ) → Act
  reaps : (pid : ℕ) → Act
  closes : (fd : ℕ) → Act

abbrev pub ack_ok : ℕ
ack_ok = 0

abbrev pub ack_error : ℕ
ack_error = 1

-- The first poll(2), on the pipe of the child's exec.
pub data ExecPoll : Type 0 where
  poll_failed : ExecPoll
  poll_timeout : ExecPoll
  poll_ready : (readable : Bool) → ExecPoll

-- One round of the last loop: poll(2) timed out or failed, with or without a hangup in revents, or
-- it returned and read(2) brought `n` bytes, or none.
pub data Round : Type 0 where
  idle : (hangup : Bool) → Round
  came : (bytes : ℕ) → Round

-- The last loop: `true` once it ends.
unfoldable pub session_loop : List Round → Bool
session_loop [] = false
session_loop (idle hangup ∷ rs) = elim hangup [ true ↦ true | false ↦ session_loop rs ]
session_loop (came n ∷ rs) = elim (n == 0) [ true ↦ true | false ↦ session_loop rs ]

-- handle_session from the poll(2) on the exec pipe on. The actions, and whether the session has
-- ended.
unfoldable pub run_webview : ℕ → ℕ → ExecPoll → List Round → List Act × Bool
unfolding session_loop
run_webview pid fd poll_failed rounds = (closes fd ∷ reaps pid ∷ acks ack_error ∷ [], true)
run_webview pid fd (poll_ready true) rounds = (closes fd ∷ reaps pid ∷ acks ack_error ∷ [], true)
run_webview pid fd (poll_ready false) rounds =
    if session_loop rounds
    then (reaps pid ∷ acks ack_ok ∷ closes fd ∷ [], true)
    else (acks ack_ok ∷ closes fd ∷ [], false)
run_webview pid fd poll_timeout rounds =
    if session_loop rounds
    then (reaps pid ∷ acks ack_ok ∷ closes fd ∷ [], true)
    else (acks ack_ok ∷ closes fd ∷ [], false)

-- handle_session from the whole handshake on, with `spawned` the pid and the pipe's end that
-- spawn_webview leaves.
unfoldable pub start_webview : Handshake → Option (ℕ × ℕ) → ExecPoll → List Round → List Act × Bool
unfolding validate_handshake
start_webview hs spawned poll rounds = elim (validate_handshake hs) [
  | false ↦ (acks ack_error ∷ [], true)
  | true ↦ elim spawned [
    | none ↦ (acks ack_error ∷ [], true)
    | some (pid, fd) ↦ run_webview pid fd poll rounds
  ]
]

-- handle_session
unfoldable pub handle_session :
    Bool → List Read → Option (ℕ × ℕ) → ExecPoll → List Round → List Act × Bool
unfolding handshake_fields
handle_session peer_ok reads spawned poll rounds = elim peer_ok [
  | false ↦ ([], true)
  | true ↦ elim (read_all handshake_size [] reads) [
    | waiting ↦ ([], false)
    | eof ↦ ([], true)
    | failed e ↦ ([], true)
    | whole bytes ↦ start_webview (handshake_fields bytes) spawned poll rounds
  ]
]

-- session_thread closes the client's descriptor after it.
unfoldable pub session_thread :
    ℕ → Bool → List Read → Option (ℕ × ℕ) → ExecPoll → List Round → List Act × Bool
unfolding handle_session
session_thread cfd peer_ok reads spawned poll rounds =
    let (acts, ended) = handle_session peer_ok reads spawned poll rounds in
    if ended then (closes cfd ∷ acts, true) else (acts, false)

-- The waits of reap_webview: each entry says whether waitpid(2) found the process ended. The result
-- is the signals sent, SIGTERM 15 and SIGKILL 9; `none`: it still waits.
unfoldable pub reap_loop : ℕ → List Bool → Option (List ℕ)
reap_loop zero bs = some (9 ∷ [])
reap_loop (suc k) [] = none
reap_loop (suc k) (b ∷ bs) = elim b [ true ↦ some [] | false ↦ reap_loop k bs ]

-- reap_webview, with its 20 waits of 50 ms
unfoldable pub reap_webview : ℕ → List Bool → Option (List ℕ)
unfolding reap_loop
reap_webview pid bs = elim (pid == 0) [
  | true ↦ some []
  | false ↦ elim (reap_loop 20 bs) [ none ↦ none | some sigs ↦ some (15 ∷ sigs) ]
]
