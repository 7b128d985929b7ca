-- ===== src/Shm/Init.antt =====
-- shm/init.c, shm_init_consumer of shm/consumer.c and shm_init_producer of shm/producer.c.
use idk_overlay.Prelude.{
  ℕ, zero, suc, ◌+◌, List, [], ◌∷◌, ◌++◌, Bool, true, false, not, Option, none, some, ltb, ◌==◌,
  if◌then◌else◌, length, take,
}
use idk_overlay.Prelude.Errno.{Errno, enoent, eacces}
use idk_overlay.Prelude.Io.{SysRet, ret, sys_fail}
use idk_overlay.Socket.{Role}
use idk_overlay.Shm.{
  Shm, Page, ConsState, cons_waiting, cons_ready, cons_dead, prod_idle, prod_ready, slot_empty,
}

-- The part of a name behind its last '/'. `acc` is the part since the last one seen.
unfoldable pub base_name : List ℕ → List ℕ → List ℕ
base_name acc [] = acc
base_name acc (c ∷ cs) = base_name (if c == b'/' then [] else (acc ++ (c ∷ []))) cs

-- make_shm_name into 64 bytes: at most 63, behind a '/'.
unfoldable pub make_shm_name : List ℕ → List ℕ
unfolding base_name
make_shm_name name = take 63 (b'/' ∷ base_name [] name)

-- TP_SH_SHM_NAME_SIZE - 1
abbrev pub stored_max : ℕ
stored_max = 31

-- The prefix of the name that `_rsv` keeps.
abbrev pub stored_name : List ℕ → List ℕ
stored_name name = take (if ltb stored_max (length name) then stored_max else length name) name

-- `idk_tp_init` clears the backend's fields: every descriptor among them becomes 0.
unfoldable pub cleared : Role → Shm
cleared role = record {
  role = role;
  ready = false;
  server_fd = none;
  client_fd = none;
  cursor_seq = 0;
  mapped = false;
  shm_name = [];
  eventfd = 0;
  last_req_seq = 0;
  cached_fd = some 0;
  cached_wv_fd = 0;
  closed = [];
}

-- shm_init_consumer: what shm_setup returns (a descriptor, with the fresh page mapped), this
-- process's pid, and the eventfd of the environment. `none` is -1.
unfoldable pub init_consumer : Shm → Page → List ℕ → SysRet → ℕ → ℕ → Option (Shm × Page)
unfolding make_shm_name
init_consumer tp page name setup pid efd = elim setup [
  | sys_fail e ↦ none
  | ret fd ↦ some (
    record tp {
      shm_name = stored_name (make_shm_name name);
      eventfd = efd;
      server_fd = some fd;
      client_fd = none;
      mapped = true;
      ready = false;
    },
    record page {
      magic_ok = true;
      prod_state = prod_idle;
      cons_state = cons_waiting;
      cons_pid = pid;
      prod_pid = 0;
      slot = slot_empty;
      frame_seq = 0;
      cursor_seq = 0;
      eventfd = efd;
    },
  )
]

abbrev pub is_retried : Errno → Bool
is_retried enoent = true
is_retried eacces = true
is_retried _ = false

abbrev pub open_attempts : ℕ
open_attempts = 300

-- The loop of shm_init_producer over shm_setup: `left` attempts, the next being number `i`.
unfoldable pub open_loop : ℕ → ℕ → (ℕ → SysRet) → Option ℕ
open_loop zero i setup = none
open_loop (suc left) i setup = elim (setup i) [
  | ret fd ↦ some fd
  | sys_fail e ↦ elim (is_retried e) [ true ↦ open_loop left (i + 1) setup | false ↦ none ]
]

-- What the wait for the consumer comes to.
pub data Waited : Type 0 where
  now_ready died timed_out : Waited

abbrev pub wait_rounds : ℕ
wait_rounds = 30

-- The wait loop: each round reads CONS_STATE and sleeps one second, 30 at most; `left` rounds are
-- left, and the next is number `i`.
unfoldable pub wait_ready : ℕ → ℕ → (ℕ → ConsState) → Waited
wait_ready zero i seen = elim (seen i) [ cons_ready ↦ now_ready | _ ↦ timed_out ]
wait_ready (suc left) i seen = elim (seen i) [
  | cons_ready ↦ now_ready
  | cons_dead ↦ died
  | cons_waiting ↦ elim left [ zero ↦ timed_out | suc _ ↦ wait_ready left (i + 1) seen ]
]

-- shm_init_producer: the page is the one found, `seen` what each round reads of CONS_STATE. The
-- result is -1 or 0 with the state, which also holds what was closed. A failed setup leaves the
-- transport alone; a page of another magic is unmapped by no one.
unfoldable pub init_producer :
    Shm → Page → List ℕ → (ℕ → SysRet) → (ℕ → ConsState) → ℕ → Bool × Shm × Page
unfolding make_shm_name open_loop wait_ready
init_producer tp page name setup seen pid =
    let named = record tp { shm_name = stored_name (make_shm_name name) } in
    elim (open_loop open_attempts 0 setup) [
      | none ↦ (false, named, page)
      | some fd ↦
          if not page.magic_ok
          then (false, record named { closed = fd ∷ tp.closed }, page)
          else (let joined = record named {
            eventfd = page.eventfd;
            server_fd = none;
            client_fd = some fd;
            mapped = true;
          } in
              let page' = record page { prod_pid = pid; prod_state = prod_ready } in
              elim (wait_ready wait_rounds 0 seen) [
                | now_ready ↦ (true, record joined { ready = true }, page')
                | _ ↦ (false, record joined { client_fd = none; closed = fd ∷ tp.closed }, page')
              ])
    ]
