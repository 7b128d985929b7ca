-- ===== src/Broker/Connect.antt =====
-- src/core/broker.c: the game's side of the broker.
use idk_overlay.Prelude.{
  ℕ, zero, suc, ◌+◌, ◌-◌, ◌≤◌, ◌≡◌, refl, List, [], ◌∷◌, Bool, true, false, Option, none, some,
  ◌==◌, if◌then◌else◌, arith, ◌⊎◌, inl, inr, Bool-cases,
}
use idk_overlay.Prelude.Errno.{is_eintr}
use idk_overlay.Prelude.Io.{SysRet, ret, sys_fail}
use idk_overlay.Broker.{handshake_size, ack_ok}

-- The writing loop, with what each write(2) returns: `some true` when all is written.
unfoldable pub write_loop : ℕ → List SysRet → Option Bool
write_loop size [] = elim (size == 0) [ true ↦ some true | false ↦ none ]
write_loop size (r ∷ rs) = elim (size == 0) [
  | true ↦ some true
  | false ↦ elim r [
    | sys_fail e ↦ elim (is_eintr e) [ true ↦ write_loop size rs | false ↦ some false ]
    | ret n ↦ write_loop (size - n) rs
  ]
]

-- What is left of the connection: whether it succeeded, the descriptor kept in g_broker_fd, and what
-- was closed.
pub record Connected : Type 0 where
  pub ok : Bool
  pub broker_fd : Option ℕ
  pub closed : List ℕ

abbrev give_up : ℕ → Connected
give_up fd = record { ok = false; broker_fd = none; closed = fd ∷ [] }

-- connect_via_broker, with what socket(2), connect(2), the write(2) calls, poll(2) and the read(2)
-- of one byte return. `none`: the writing loop still waits.
unfoldable pub connect_via_broker : SysRet → Bool → List SysRet → Bool → Option ℕ → Option Connected
unfolding write_loop
connect_via_broker (sys_fail e) connects writes polled ack =
    some record { ok = false; broker_fd = none; closed = [] }
connect_via_broker (ret cfd) connects writes polled ack = elim connects [
  | false ↦ some (give_up cfd)
  | true ↦ elim (write_loop handshake_size writes) [
    | none ↦ none
    | some written ↦ elim written [
      | false ↦ some (give_up cfd)
      | true ↦ elim polled [
        | false ↦ some (give_up cfd)
        | true ↦ elim ack [
          | none ↦ some (give_up cfd)
          | some a ↦
              if a == ack_ok
              then some record { ok = true; broker_fd = some cfd; closed = [] }
              else some (give_up cfd)
        ]
      ]
    ]
  ]
]

-- A descriptor that is opened is kept, when the broker has answered with the OK byte, or closed once
-- and not kept, whatever the kernel and the broker do.
connect_via_broker-ledger :
    (cfd : ℕ) (connects : Bool) (writes : List SysRet) (polled : Bool) (ack : Option ℕ)
    (c : Connected)
    → connect_via_broker (ret cfd) connects writes polled ack ≡ some c
    → ((c.ok ≡ true) × (ack ≡ some ack_ok) × (c.broker_fd ≡ some cfd) × (c.closed ≡ []))
      ⊎ ((c.ok ≡ false) × (c.broker_fd ≡ none) × (c.closed ≡ cfd ∷ []))
unfolding connect_via_broker
connect_via_broker-ledger cfd connects writes polled ack c e = ground (arith, e)

-- It returns where the writing loop does.
connect_via_broker-returns :
    (cfd : ℕ) (connects : Bool) (writes : List SysRet) (polled : Bool) (ack : Option ℕ) (b : Bool)
    → write_loop handshake_size writes ≡ some b
    → (c : Connected) × (connect_via_broker (ret cfd) connects writes polled ack ≡ some c)
unfolding connect_via_broker
connect_via_broker-returns cfd false writes polled ack b p = (give_up cfd, refl)
connect_via_broker-returns cfd true writes polled ack false p = (give_up cfd, ground (arith, p))
connect_via_broker-returns cfd true writes false ack true p = (give_up cfd, ground (arith, p))
connect_via_broker-returns cfd true writes true none true p = (give_up cfd, ground (arith, p))
connect_via_broker-returns cfd true writes true (some a) true p = elim (Bool-cases (a == ack_ok)) [
  | inl e ↦ (record { ok = true; broker_fd = some cfd; closed = [] }, ground (arith, p, e))
  | inr e ↦ (give_up cfd, ground (arith, p, e))
]

-- What the write(2) calls take over, all together.
abbrev pub written : List SysRet → ℕ
written [] = 0
written (sys_fail e ∷ rs) = written rs
written (ret n ∷ rs) = n + written rs

-- The writing loop ends, whole or with an error, where the calls take over enough.
write_loop-returns :
    (size : ℕ) (rs : List SysRet) → size ≤ written rs → (b : Bool) × (write_loop size rs ≡ some b)
unfolding write_loop
write_loop-returns zero [] h = (true, refl)
write_loop-returns (suc n) [] h = absurd (omega arith)
write_loop-returns zero (r ∷ rs) h = (true, refl)
write_loop-returns (suc n) (ret m ∷ rs) h =
    let (b, p) = write_loop-returns (suc n - m) rs (omega arith) in (b, ground (arith, p))
write_loop-returns (suc n) (sys_fail e ∷ rs) h = elim (Bool-cases (is_eintr e)) [
  | inl t ↦ let (b, p) = write_loop-returns (suc n) rs h in (b, ground (arith, t, p))
  | inr t ↦ (false, ground (arith, t))
]

-- A game that gets a descriptor to reach the broker with, where the write(2) calls take over at least the
-- handshake's bytes if none of them ends the loop before: connecting returns, and either it succeeded,
-- after the broker's OK byte, and the descriptor is kept and not closed, or it failed, and the descriptor
-- was closed once and is not kept.
pub connect_via_broker-once :
    (cfd : ℕ) (connects : Bool) (writes : List SysRet) (polled : Bool) (ack : Option ℕ)
    → handshake_size ≤ written writes
    → (c : Connected) × (connect_via_broker (ret cfd) connects writes polled ack ≡ some c)
      × (((c.ok ≡ true) × (ack ≡ some ack_ok) × (c.broker_fd ≡ some cfd) × (c.closed ≡ []))
          ⊎ ((c.ok ≡ false) × (c.broker_fd ≡ none) × (c.closed ≡ cfd ∷ [])))
connect_via_broker-once cfd connects writes polled ack h =
    let (b, p) = write_loop-returns handshake_size writes h in
    let (c, q) = connect_via_broker-returns cfd connects writes polled ack b p in
    (c, q, connect_via_broker-ledger cfd connects writes polled ack c q)
