-- ===== src/Shm/Channel.antt =====
-- The slot of src/core/transport/shm as a channel of one place.
use idk_overlay.Prelude.{ℕ, ◌≤◌, ◌≡◌, List, [], ◌∷◌, ◌++◌, Bool, true, false, Option, none, some}
use idk_overlay.Prelude.Io.{Rc, rc0, rc1}
use idk_overlay.Wire.{FrameHeader, Ack}
use idk_overlay.Shm.{Shm, Page, is_frame}
use idk_overlay.Shm.Steal.{Kernel}
use idk_overlay.Shm.Consumer.{recv_frame, drop_frame, send_ack}
use idk_overlay.Shm.Producer.{Seen, send_frame, wait_ack}
use idk_overlay.Prelude.Io.{SysRet}
use idk_overlay.Wire.{CursorUpdate}
use idk_overlay.Shm.{ConsState, destroy, disconnect_client, health_check}
use idk_overlay.Shm.Init.{init_consumer, init_producer}
use idk_overlay.Shm.Consumer.{accept, send_request}
use idk_overlay.Shm.Producer.{recv_request}
use idk_overlay.Shm.Input.{send_cursor}
use idk_overlay.Shm.Transfer.{Exit, taken, lost, steady, if_received}

-- The page with the two transports on it, and what has gone through: the headers that `send_frame`
-- reported as sent, and those that left the slot, oldest first.
pub record World : Type 0 where
  pub page : Page
  pub prod : Shm
  pub cons : Shm
  pub sent : List FrameHeader
  pub gone : List Exit

abbrev pub if_sent : Rc → FrameHeader → List FrameHeader
if_sent rc0 hdr = hdr ∷ []
if_sent _ hdr = []

abbrev pub if_dropped : Rc → FrameHeader → List Exit
if_dropped rc1 hdr = taken hdr ∷ []
if_dropped _ hdr = []

-- What is lost where the page becomes another with no frame in its slot.
abbrev pub lost_by : Page → Page → List Exit
lost_by page page' = elim (is_frame page'.slot) [
  | true ↦ []
  | false ↦ elim (is_frame page.slot) [ true ↦ lost page.hdr ∷ [] | false ↦ [] ]
]

-- A fresh page for a fresh consumer, where it could be made.
abbrev pub restarted : World → Option (Shm × Page) → World
restarted w none = w
restarted w (some (tp, page)) = record w {
  page = page;
  cons = tp;
  gone = w.gone ++ lost_by w.page page;
}

-- One call of either end, whole, on the page of a frame transport: input events and their slot are on a
-- page of their own. The consumer answers a frame only once it took it, and makes a new page where no
-- producer has the old one mapped.
pub data Step (w : World) : World → Type 0 where
  sends :
      (hdr : FrameHeader) (fds : List ℕ) (gone : Bool)
      → Step w (
          let (rc, page) = send_frame w.prod w.page hdr fds gone (steady w.page) in
          record w { page = page; sent = w.sent ++ if_sent rc hdr })
  receives :
      (gone : Bool) (ks : List Kernel)
      → Step w (
          let (r, cons, page) = recv_frame w.cons w.page gone ks in
          record w { page = page; cons = cons; gone = w.gone ++ if_received r })
  drops : Step w (
      let (rc, page) = drop_frame w.cons w.page in
      record w { page = page; gone = w.gone ++ if_dropped rc w.page.hdr })
  answers :
      (ack : Ack)
      → is_frame w.page.slot ≡ false
      → Step w (record w { page = send_ack w.cons w.page ack })
  awaits :
      (rounds : List (Seen × Bool))
      → is_frame w.page.slot ≡ false
      → Step w (record w { page = (wait_ack w.prod w.page rounds).2 })
  requests : Step w (record w { page = (send_request w.cons w.page).1 })
  receives_request :
      (rounds : List (ℕ × Bool)) → Step w (record w { prod = (recv_request w.prod rounds).1 })
  sends_cursor :
      (tp : Shm) (c : CursorUpdate) (pixels : Option (List ℕ))
      → Step w (record w { page = (send_cursor tp w.page c pixels).1 })
  accepts :
      Step w (let (_, cons, page) = accept w.cons w.page in record w { page = page; cons = cons })
  checks_health : (p c : Bool) → Step w (record w { page = health_check w.page p c })
  starts_producer :
      (name : List ℕ) (setup : ℕ → SysRet) (seen : ℕ → ConsState) (pid : ℕ)
      → Step w (
          let (_, prod, page) = init_producer w.prod w.page name setup seen pid in
          record w { page = page; prod = prod })
  starts_consumer :
      (fresh : Page) (name : List ℕ) (setup : SysRet) (pid efd : ℕ)
      → w.prod.mapped ≡ false
      → Step w (restarted w (init_consumer w.cons fresh name setup pid efd))
  disconnects_consumer : Step w (
      let (cons, page) = disconnect_client w.cons w.page in
      record w { page = page; cons = cons; gone = w.gone ++ lost_by w.page page })
  disconnects_producer : Step w (
      let (prod, page) = disconnect_client w.prod w.page in
      record w { page = page; prod = prod; gone = w.gone ++ lost_by w.page page })
  destroys_consumer :
      Step w (let (cons, page) = destroy w.cons w.page in record w { page = page; cons = cons })
  destroys_producer :
      Step w (let (prod, page) = destroy w.prod w.page in record w { page = page; prod = prod })

-- What stands in the slot.
abbrev pub pending : Page → List FrameHeader
pending page = elim (is_frame page.slot) [ true ↦ page.hdr ∷ [] | false ↦ [] ]

-- The headers of the frames that left.
abbrev pub headers : List Exit → List FrameHeader
headers [] = []
headers (taken h ∷ es) = h ∷ headers es
headers (lost h ∷ es) = h ∷ headers es

pub record IsChannel (w : World) : Type 0 where
  pub flow : w.sent ≡ headers w.gone ++ pending w.page
  pub counted : is_frame w.page.slot ≡ true → (1 ≤ w.page.nfd) × (w.page.nfd ≤ 4)

pub data Reach (w : World) : World → Type 0 where
  here : Reach w w
  next : {u v : World} → Reach w u → Step u v → Reach w v
