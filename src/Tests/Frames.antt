-- ===== src/Tests/Frames.antt =====
-- Runs of the compositor's loops, of the rectangles and of the cursor checks.
use idk_overlay.Prelude.{
  ℕ, ◌+◌, ◌≤◌, ◌≡◌, ◌↔◌, refl, List, [], ◌∷◌, ◌++◌, Bool, true, false, some, replicate, arith,
}
use idk_overlay.Prelude.Int.{pos}
use idk_overlay.Wire.{FrameHeader, CursorUpdate}
use idk_overlay.Wire.Cursor.{cursor_magic, cursor_valid, IsHeader, IsCursor, cursor_valid-IsCursor}
use idk_overlay.Wire.Delta.{Delta, delta_magic, delta_size, validate, validate-wraps}
use idk_overlay.Socket.{consumer, state_ready}
use idk_overlay.Socket.Scm.{Cmsg, Message}
use idk_overlay.Transport.Backends.{SocketState, socket_transport}
use idk_overlay.Compositor.{Compositor, keep_loop, drain_loop}
use idk_overlay.Compositor.Cache.{Cache}
use idk_overlay.Compositor.Resize.{Timespec, Size}
use idk_overlay.Compositor.Drain.{Drained, drained, drain_loop-returns}
use idk_overlay.Compositor.Frames.{Batch, account, received, keep_loop-account}

abbrev dark : FrameHeader
dark = record {
  modifier = 0;
  width = 0;
  height = 0;
  stride = 0;
  fourcc = 0;
  flags = 0;
  nfd = 1;
  buf_id = 0;
}

abbrev canvas : FrameHeader
canvas = record dark { width = 640; height = 480 }

abbrev rights_of : ℕ → Cmsg
rights_of fd = record { len = 20; remaining = 40; is_rights = true; fds = fd ∷ [] }

abbrev message : FrameHeader → ℕ → Message
message h fd = record { bytes = 28; header = h; ctrunc = false; cmsgs = rights_of fd ∷ [] }

-- A bad frame, a good one, and a surplus one wait at the socket.
abbrev queue : SocketState
queue = (
  record {
    role = consumer;
    ready = true;
    server_fd = some 3;
    client_fd = some 4;
    state = state_ready;
    connect_retries = 0;
    queued_req = 0;
    abstract_name = false;
    path = [];
    closed = [];
  },
  message dark 10 ∷ message canvas 11 ∷ message canvas 12 ∷ [],
)

abbrev zero_time : Timespec
zero_time = record { sec = 0; nsec = 0 }

abbrev comp : Compositor
comp = record {
  inited = true;
  has_frame = true;
  hdr = canvas;
  dmabuf_fd = 9 ∷ [];
  dmabuf_cache_id = 0;
  size = record { w = 800; h = 600; pending = false; since = zero_time };
  last_frame_ts = zero_time;
  was_hidden = false;
  closed = [];
}

keep_loop-account_example :
    (fs : List (FrameHeader × List ℕ)) × (cut : Bool) × (t' : SocketState) × (p : Bool)
    × (c' : Compositor) × (t'' : SocketState) × Batch socket_transport queue fs cut t'
    × (keep_loop socket_transport 4 zero_time false comp queue ≡ some (p, c', t''))
    × (account 9 c' ≡ account 9 comp + received 9 fs)
keep_loop-account_example =
    keep_loop-account socket_transport 9 4 zero_time comp queue (omega arith)

drain_loop-returns_example :
    (k : ℕ) × (cut : Bool) × (t' : SocketState) × Drained socket_transport k queue cut t'
    × (k ≤ 3)
    × (drain_loop socket_transport 4 comp queue ≡ some (drained socket_transport cut comp t'))
drain_loop-returns_example = drain_loop-returns socket_transport 4 comp queue (omega arith)

abbrev rectangle : Delta
rectangle = record { magic = delta_magic; x = 1; y = 1; width = 1; height = 1 }

abbrev pixels : List ℕ
pixels = replicate 15 0 ++ (7 ∷ [])

abbrev giant : Delta
giant = record { magic = delta_magic; x = 0; y = 0; width = 2147483648; height = 2147483648 }

validate-wraps_example : validate giant 2147483648 2147483648 delta_size ≡ true
validate-wraps_example =
    validate-wraps giant 2147483648 2147483648 1
      (refl, omega arith, omega arith, omega arith, omega arith) refl

abbrev resized : Timespec
resized = record { sec = 7; nsec = 900000000 }

abbrev small : Size
small = record { w = 800; h = 600; pending = false; since = zero_time }

abbrev arrow : CursorUpdate
arrow = record {
  magic = cursor_magic;
  version = 1;
  visible = 1;
  shape = 1;
  width = 0;
  height = 0;
  hotspot_x = pos 0;
  hotspot_y = pos 0;
  scale = 100;
  data_size = 0;
}

cursor_valid-IsCursor_example :
    (cursor_valid arrow 64 ≡ true) ↔ (IsHeader arrow 64 × IsCursor arrow)
cursor_valid-IsCursor_example = cursor_valid-IsCursor arrow 64

abbrev mapped_cache : Cache
mapped_cache = record { map = some 4096; size = 8192; ino = 7; dev = 1; unmapped = [] }
