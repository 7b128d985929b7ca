-- ===== src/Wire.antt =====
-- include/public/idk_frames.h and idk_input.h: the records that cross the transport, and the bytes
-- of an ACK and of a REQUEST on the socket, little-endian as on the x86-64 target.
pub mod Bytes
pub mod Cursor
pub mod Delta
use idk_overlay.Prelude.Int.{ℤ}
use idk_overlay.Prelude.{ℕ, List, Bool, ◌+◌, ◌-◌, ◌/◌, ◌%◌, ◌==◌, if◌then◌else◌}

-- `idk_frame_header_t`; every field is an unsigned integer of its C width.
pub record FrameHeader : Type 0 where
  pub modifier : ℕ
  pub width : ℕ
  pub height : ℕ
  pub stride : ℕ
  pub fourcc : ℕ
  pub flags : ℕ
  pub nfd : ℕ
  pub buf_id : ℕ

-- IDK_FRAME_FLAG_VISIBLE is bit 0 of the flags, IDK_FRAME_FLAG_DMABUF bit 1.
abbrev pub frame_is_visible : FrameHeader → Bool
frame_is_visible h = (h.flags % 2) == 1

abbrev pub frame_is_dmabuf : FrameHeader → Bool
frame_is_dmabuf h = ((h.flags / 2) % 2) == 1

-- IDK_ACK_ACCEPTED, IDK_ACK_REJECTED, IDK_ACK_DISCARDED
abbrev pub ack_accepted : ℕ
ack_accepted = 0

abbrev pub ack_rejected : ℕ
ack_rejected = 1

abbrev pub ack_discarded : ℕ
ack_discarded = 2

-- `idk_ack_msg_t`: `w` and `h` are int32_t, never negative in a message that the program builds.
pub record Ack : Type 0 where
  pub code : ℕ
  pub w : ℕ
  pub h : ℕ

-- IDK_REQUEST_NEXT_FRAME, IDK_REQUEST_SHUTDOWN
abbrev pub request_next_frame : ℕ
request_next_frame = 0

abbrev pub request_shutdown : ℕ
request_shutdown = 1

-- `idk_request_msg_t`, by its `type` (the padding is not read)
abbrev pub Request : Type 0
Request = ℕ

-- `enum idk_input_type`
abbrev pub input_key : ℕ
input_key = 1

abbrev pub input_button : ℕ
input_button = 2

abbrev pub input_motion : ℕ
input_motion = 3

abbrev pub input_axis : ℕ
input_axis = 4

abbrev pub input_state : ℕ
input_state = 5

abbrev pub input_repeat : ℕ
input_repeat = 6

abbrev pub input_overlay : ℕ
input_overlay = 7

-- `idk_cursor_update_t`
pub record CursorUpdate : Type 0 where
  pub magic : ℕ
  pub version : ℕ
  pub visible : ℕ
  pub shape : ℕ
  pub width : ℕ
  pub height : ℕ
  pub hotspot_x : ℤ
  pub hotspot_y : ℤ
  pub scale : ℕ
  pub data_size : ℕ
