-- ===== src/Broker/Session.antt =====
-- The actions of a broker's session (src/cli/broker/session.c), counted.
use idk_overlay.Prelude.{
  ℕ, suc, ◌+◌, ◌≤◌, ◌≡◌, ◌≢◌, refl, List, [], ◌∷◌, Bool, true, false, Option, none, some, ◌==◌,
  ◌||◌, if◌then◌else◌, arith, Bool-cases, inl, inr,
}
use idk_overlay.Chunks.{Read, Outcome, whole, eof, failed, waiting, read_all}
use idk_overlay.Broker.{
  Handshake, Act, acks, reaps, closes, ExecPoll, poll_failed, poll_timeout, poll_ready, Round,
  handle_session, run_webview, start_webview, session_thread, validate_handshake, handshake_fields,
  handshake_size, ack_ok,
}

-- How often the session sent an ACK, reaped a process, closed descriptor `n`.
abbrev pub acked : List Act → ℕ
acked [] = 0
acked (acks c ∷ acts) = suc (acked acts)
acked (reaps p ∷ acts) = acked acts
acked (closes fd ∷ acts) = acked acts

abbrev pub reaped : List Act → ℕ
reaped [] = 0
reaped (acks c ∷ acts) = reaped acts
reaped (reaps p ∷ acts) = suc (reaped acts)
reaped (closes fd ∷ acts) = reaped acts

abbrev pub closed : ℕ → List Act → ℕ
closed n [] = 0
closed n (acks c ∷ acts) = closed n acts
closed n (reaps p ∷ acts) = closed n acts
closed n (closes fd ∷ acts) = (if n == fd then 1 else 0) + closed n acts

abbrev pub says_ok : List Act → Bool
says_ok [] = false
says_ok (acks c ∷ acts) = (c == ack_ok) || says_ok acts
says_ok (reaps p ∷ acts) = says_ok acts
says_ok (closes fd ∷ acts) = says_ok acts

abbrev pub acceptable : Outcome → Bool
acceptable (whole bytes) = validate_handshake (handshake_fields bytes)
acceptable eof = false
acceptable (failed e) = false
acceptable waiting = false

-- What a session has done, once it has ended: at most one ACK, and the webview reaped as often as its
-- pipe `fd` is closed, at most once, and nothing else closed.
abbrev pub IsSettled : ℕ → List Act × Bool → Type 0
IsSettled fd (acts, ended) =
    (acked acts ≤ 1) × (closed fd acts ≤ 1) × (ended ≡ true → reaped acts ≡ closed fd acts)

run_webview-IsSettled :
    (pid fd : ℕ) (poll : ExecPoll) (rounds : List Round)
    → IsSettled fd (run_webview pid fd poll rounds)
unfolding run_webview
run_webview-IsSettled pid fd poll_failed rounds = ground arith
run_webview-IsSettled pid fd (poll_ready true) rounds = ground arith
run_webview-IsSettled pid fd (poll_ready false) rounds = ground arith
run_webview-IsSettled pid fd poll_timeout rounds = ground arith

run_webview-others :
    (n pid fd : ℕ) (poll : ExecPoll) (rounds : List Round)
    → fd ≢ n
    → closed n (run_webview pid fd poll rounds).0 ≡ 0
unfolding run_webview
run_webview-others n pid fd poll_failed rounds h = ground (arith, h)
run_webview-others n pid fd (poll_ready true) rounds h = ground (arith, h)
run_webview-others n pid fd (poll_ready false) rounds h = ground (arith, h)
run_webview-others n pid fd poll_timeout rounds h = ground (arith, h)

start_webview-IsSettled :
    (n pid fd : ℕ) (hs : Handshake) (poll : ExecPoll) (rounds : List Round)
    → fd ≢ n
    → IsSettled fd (start_webview hs (some (pid, fd)) poll rounds)
      × (closed n (start_webview hs (some (pid, fd)) poll rounds).0 ≡ 0)
unfolding start_webview
start_webview-IsSettled n pid fd hs poll rounds h = elim (Bool-cases (validate_handshake hs)) [
  | inl v ↦
      rw (v, start_webview)
        (run_webview-IsSettled pid fd poll rounds, run_webview-others n pid fd poll rounds h)
  | inr v ↦ rw (v, start_webview) ((omega arith, omega arith, λ e. refl), refl)
]

handle_session-IsSettled :
    (n pid fd : ℕ) (peer_ok : Bool) (reads : List Read) (poll : ExecPoll) (rounds : List Round)
    → fd ≢ n
    → IsSettled fd (handle_session peer_ok reads (some (pid, fd)) poll rounds)
      × (closed n (handle_session peer_ok reads (some (pid, fd)) poll rounds).0 ≡ 0)
unfolding handle_session
handle_session-IsSettled n pid fd false reads poll rounds h =
    ((omega arith, omega arith, λ e. refl), refl)
handle_session-IsSettled n pid fd true reads poll rounds h =
    go (read_all handshake_size [] reads) refl
  where
    go :
        (o : Outcome)
        → read_all handshake_size [] reads ≡ o
        → IsSettled fd (handle_session true reads (some (pid, fd)) poll rounds)
          × (closed n (handle_session true reads (some (pid, fd)) poll rounds).0 ≡ 0)
    go waiting e = rw (e, handle_session) ((omega arith, omega arith, λ x. refl), refl)
    go eof e = rw (e, handle_session) ((omega arith, omega arith, λ x. refl), refl)
    go (failed x) e = rw (e, handle_session) ((omega arith, omega arith, λ x. refl), refl)
    go (whole bytes) e =
        rw (e, handle_session)
          (start_webview-IsSettled n pid fd (handshake_fields bytes) poll rounds h)

-- When a session for which the webview could be started has ended, it has closed the client's
-- descriptor once, has sent at most one ACK, and has reaped the webview as often as it has closed the
-- webview's pipe, at most once, whatever the client, the kernel and the webview do.
pub session_thread-once :
    (cfd pid fd : ℕ) (peer_ok : Bool) (reads : List Read) (poll : ExecPoll) (rounds : List Round)
    → fd ≢ cfd
    → (session_thread cfd peer_ok reads (some (pid, fd)) poll rounds).1 ≡ true
    → (closed cfd (session_thread cfd peer_ok reads (some (pid, fd)) poll rounds).0 ≡ 1)
      × (acked (session_thread cfd peer_ok reads (some (pid, fd)) poll rounds).0 ≤ 1)
      × (reaped (session_thread cfd peer_ok reads (some (pid, fd)) poll rounds).0
          ≡ closed fd (session_thread cfd peer_ok reads (some (pid, fd)) poll rounds).0)
      × (closed fd (session_thread cfd peer_ok reads (some (pid, fd)) poll rounds).0 ≤ 1)
unfolding session_thread
session_thread-once cfd pid fd peer_ok reads poll rounds n e =
    ground (arith, n, e, handle_session-IsSettled cfd pid fd peer_ok reads poll rounds n)

start_webview-ok :
    (hs : Handshake) (spawned : Option (ℕ × ℕ)) (poll : ExecPoll) (rounds : List Round)
    → says_ok (start_webview hs spawned poll rounds).0 ≡ true
    → (validate_handshake hs ≡ true)
      × (spawned ≢ none)
      × (poll ≢ poll_failed)
      × (poll ≢ poll_ready true)
unfolding start_webview run_webview
start_webview-ok hs spawned poll rounds e = ground (arith, e)

-- The game is told that its webview runs only if the peer's credentials matched, the whole handshake
-- came and is acceptable, the webview was started, and its exec was not seen to fail.
handle_session-ok :
    (peer_ok : Bool) (reads : List Read) (spawned : Option (ℕ × ℕ)) (poll : ExecPoll)
    (rounds : List Round)
    → says_ok (handle_session peer_ok reads spawned poll rounds).0 ≡ true
    → (peer_ok ≡ true)
      × (acceptable (read_all handshake_size [] reads) ≡ true)
      × (spawned ≢ none)
      × (poll ≢ poll_failed)
      × (poll ≢ poll_ready true)
unfolding handle_session
handle_session-ok false reads spawned poll rounds e = absurd (ground (arith, e))
handle_session-ok true reads spawned poll rounds e = go (read_all handshake_size [] reads) refl
  where
    go :
        (o : Outcome)
        → read_all handshake_size [] reads ≡ o
        → (true ≡ true)
          × (acceptable (read_all handshake_size [] reads) ≡ true)
          × (spawned ≢ none)
          × (poll ≢ poll_failed)
          × (poll ≢ poll_ready true)
    go (whole bytes) q =
        let (v, s, p, r) =
          start_webview-ok (handshake_fields bytes) spawned poll rounds (ground (arith, e, q)) in
        rw (q) (refl, v, s, p, r)
    go eof q = absurd (ground (arith, e, q))
    go (failed x) q = absurd (ground (arith, e, q))
    go waiting q = absurd (ground (arith, e, q))
