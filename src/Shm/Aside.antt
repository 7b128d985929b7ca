-- ===== src/Shm/Aside.antt =====
-- The calls of src/core/transport/shm that leave what stands in the slot alone.
use idk_overlay.Prelude.{
  ℕ, ◌≡◌, refl, List, ◌∷◌, Bool, true, false, Option, none, some, arith, not, ◌⊎◌, if◌then◌else◌,
}
use idk_overlay.Shm.{Shm, Page, is_frame}
use idk_overlay.Prelude.Io.{SysRet}
use idk_overlay.Wire.{CursorUpdate}
use idk_overlay.Shm.{ConsState, prod_ready, destroy, disconnect_client}
use idk_overlay.Shm.Init.{
  Waited, now_ready, died, timed_out, make_shm_name, stored_name, open_loop, open_attempts,
  wait_ready, wait_rounds, init_producer,
}
use idk_overlay.Shm.Consumer.{accept, send_request}
use idk_overlay.Shm.Input.{send_cursor}

-- The slot and what stands in it are as they were.
abbrev pub SameSlot : Page → Page → Type 0
SameSlot page page' = (page'.slot ≡ page.slot) × (page'.hdr ≡ page.hdr) × (page'.nfd ≡ page.nfd)

pub destroy-SameSlot : (tp : Shm) (page : Page) → SameSlot page (destroy tp page).1
unfolding destroy
destroy-SameSlot tp page = ground arith

pub disconnect-slot :
    (tp : Shm) (page : Page)
    → SameSlot page (disconnect_client tp page).1
      ⊎ (is_frame (disconnect_client tp page).1.slot ≡ false)
unfolding disconnect_client
disconnect-slot tp page = ground (arith, destroy-SameSlot tp page)

pub send_request-SameSlot : (tp : Shm) (page : Page) → SameSlot page (send_request tp page).1
unfolding send_request
send_request-SameSlot tp page = ground arith

pub send_cursor-SameSlot :
    (tp : Shm) (page : Page) (u : CursorUpdate) (pixels : Option (List ℕ))
    → SameSlot page (send_cursor tp page u pixels).1
unfolding send_cursor
send_cursor-SameSlot tp page u pixels = ground arith

pub accept-SameSlot : (tp : Shm) (page : Page) → SameSlot page (accept tp page).2
unfolding accept
accept-SameSlot tp page = ground arith

pub init_producer-SameSlot :
    (tp : Shm) (page : Page) (name : List ℕ) (setup : ℕ → SysRet) (seen : ℕ → ConsState) (pid : ℕ)
    → SameSlot page (init_producer tp page name setup seen pid).2
unfolding init_producer
init_producer-SameSlot tp page name setup seen pid =
    go (open_loop open_attempts 0 setup) (not page.magic_ok) (wait_ready wait_rounds 0 seen)
  where
    named : Shm
    named = record tp { shm_name = stored_name (make_shm_name name) }

    page' : Page
    page' = record page { prod_pid = pid; prod_state = prod_ready }

    -- Only the process and its state are written.
    joined : ℕ → Waited → Bool × Shm × Page
    joined fd q =
        let t = record named {
          eventfd = page.eventfd;
          server_fd = none;
          client_fd = some fd;
          mapped = true;
        } in
        elim q [
          | now_ready ↦ (true, record t { ready = true }, page')
          | _ ↦ (false, record t { client_fd = none; closed = fd ∷ tp.closed }, page')
        ]

    ended : Option ℕ → Bool → Waited → Bool × Shm × Page
    ended o b q = elim o [
      | none ↦ (false, named, page)
      | some fd ↦ if b then (false, record named { closed = fd ∷ tp.closed }, page) else joined fd q
    ]

    go : (o : Option ℕ) (b : Bool) (q : Waited) → SameSlot page (ended o b q).2
    go none b q = (refl, refl, refl)
    go (some fd) true q = (refl, refl, refl)
    go (some fd) false now_ready = (refl, refl, refl)
    go (some fd) false died = (refl, refl, refl)
    go (some fd) false timed_out = (refl, refl, refl)
