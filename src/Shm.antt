-- ===== src/Shm.antt =====
-- src/core/transport/shm and include/core/shm_layout.h: the shared page, the state that the shared
-- memory backend keeps in `idk_transport_t`, and its life cycle. `closed` logs the close(2) calls,
-- newest first; it is no field of the C struct.
pub mod Init
pub mod Steal
pub mod Consumer
pub mod Producer
pub mod Input
pub mod Writer
pub mod Seqlock
pub mod Transfer
pub mod Aside
pub mod Channel
pub mod Race
pub mod Descriptors
use idk_overlay.Prelude.{ℕ, List, [], ◌∷◌, Bool, true, false, Option, none, some, ◌&&◌}
use idk_overlay.Wire.{FrameHeader, Ack, CursorUpdate}
use idk_overlay.Socket.{Role, consumer, producer, close_fd}

-- PROD_STATE and CONS_STATE. The producer is idle 0, ready 1, dead -1; the consumer is waiting 1,
-- ready 2, dead -1.
pub data ProdState : Type 0 where
  prod_idle prod_ready prod_dead : ProdState

pub data ConsState : Type 0 where
  cons_waiting cons_ready cons_dead : ConsState

-- SLOT_STATE: SLOT_EMPTY, SLOT_FRAME, SLOT_ACK, SLOT_CONSUMED, and the -1 that the loops test for.
pub data Slot : Type 0 where
  slot_empty slot_frame slot_ack slot_consumed slot_dead : Slot

-- The shared page. HDR holds a frame header on a frame transport, and the 20 bytes of an event on
-- an input transport.
pub record Page : Type 0 where
  pub magic_ok : Bool
  pub prod_state : ProdState
  pub cons_state : ConsState
  pub prod_pid : ℕ
  pub cons_pid : ℕ
  pub nfd : ℕ
  pub fds : List ℕ
  pub hdr : FrameHeader
  pub event : List ℕ
  pub ack : Ack
  pub slot : Slot
  pub frame_seq : ℕ
  pub req_seq : ℕ
  pub eventfd : ℕ
  pub cursor_seq : ℕ
  pub cursor_hdr : CursorUpdate
  pub cursor_data : List ℕ

-- `mapped` is a non-null SHM_PTR.
pub record Shm : Type 0 where
  pub role : Role
  pub ready : Bool
  pub server_fd : Option ℕ
  pub client_fd : Option ℕ
  pub cursor_seq : ℕ
  pub mapped : Bool
  pub shm_name : List ℕ
  pub eventfd : ℕ
  pub last_req_seq : ℕ
  pub cached_fd : Option ℕ
  pub cached_wv_fd : ℕ
  pub closed : List ℕ

abbrev pub is_prod_dead : ProdState → Bool
is_prod_dead prod_dead = true
is_prod_dead _ = false

abbrev pub is_cons_dead : ConsState → Bool
is_cons_dead cons_dead = true
is_cons_dead _ = false

abbrev pub is_frame : Slot → Bool
is_frame slot_frame = true
is_frame _ = false

abbrev pub is_empty : Slot → Bool
is_empty slot_empty = true
is_empty _ = false

-- tp_shm_destroy: the transport, and the page as its other end sees it (the consumer marks itself
-- dead). Clearing `_rsv` leaves 0 in its fields, which is a descriptor.
unfoldable pub destroy : Shm → Page → Shm × Page
destroy tp page = (
  record tp {
    server_fd = none;
    client_fd = none;
    ready = false;
    mapped = false;
    shm_name = [];
    eventfd = 0;
    last_req_seq = 0;
    cached_fd = some 0;
    cached_wv_fd = 0;
    closed = close_fd tp.cached_fd (close_fd tp.client_fd (close_fd tp.server_fd tp.closed));
  },
  elim tp.mapped [
    | false ↦ page
    | true ↦ elim tp.role [ consumer ↦ record page { cons_state = cons_dead } | producer ↦ page ]
  ],
)

-- tp_shm_disconnect_client
unfoldable pub disconnect_client : Shm → Page → Shm × Page
unfolding destroy
disconnect_client tp page = elim tp.role [
  | producer ↦ destroy tp page
  | consumer ↦ elim tp.mapped [
    | false ↦ (record tp { ready = false }, page)
    | true ↦ (
      record tp {
        cursor_seq = 0;
        client_fd = none;
        cached_fd = none;
        cached_wv_fd = 0;
        ready = false;
        closed = close_fd tp.cached_fd (close_fd tp.client_fd tp.closed);
      },
      record page {
        slot = slot_empty;
        prod_pid = 0;
        nfd = 0;
        frame_seq = 0;
        req_seq = 0;
        cursor_seq = 0;
        prod_state = prod_idle;
        cons_state = cons_waiting;
      },
    )
  ]
]

-- tp_shm_health_check, with what kill(pid, 0) says of the two processes.
unfoldable pub health_check : Page → Bool → Bool → Page
health_check page prod_gone cons_gone = record page {
  prod_state = elim prod_gone [ true ↦ prod_dead | false ↦ page.prod_state ];
  cons_state = elim cons_gone [ true ↦ cons_dead | false ↦ page.cons_state ];
}
