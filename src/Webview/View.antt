-- ===== src/Webview/View.antt =====
-- src/cli/webview_cef/view.h: the state of a view, and what the calls it makes answer.
pub mod Shm
pub mod Staging
pub mod Paint
pub mod Acks
pub mod Pacing
pub mod Run
pub mod Canvas
pub mod Refused
pub mod Stuck
use idk_overlay.Prelude.{ℕ, List, [], Bool, true, false, Option, none, some}
use idk_overlay.Wire.Delta.{Delta}
use idk_overlay.Webview.Damage.{Rect}
use idk_overlay.Webview.Format.{Channels}

-- DeferredKind; None is `empty`, and Gpu is `owned_gpu`.
pub data DeferredKind : Type 0 where
  empty : DeferredKind
  pixels : DeferredKind
  owned_gpu : DeferredKind

-- The two staging buffers, gpu_ and deferred_gpu_; a null GpuBuf pointer is `none`.
pub data GpuBuf : Type 0 where
  gpu : GpuBuf
  deferred_gpu : GpuBuf

-- A frame that the producer library took: from memory, with the rectangle it is if it is one; from a
-- staging buffer; or Chromium's own buffer.
pub data Sent : Type 0 where
  shm_frame : ℕ → ℕ → Option Delta → List ℕ → Sent
  staged_frame : GpuBuf → ℕ → ℕ → Sent
  forwarded_frame : ℕ → ℕ → Sent

-- The window events of FireCaptureEvents and FireVisibleEvents.
pub data JsEvent : Type 0 where
  capture_start : JsEvent
  capture_end : JsEvent
  capture_changed : Bool → JsEvent
  overlay_show : JsEvent
  overlay_hide : JsEvent
  visible_changed : Bool → JsEvent

-- The fields of View, without the counters that are only logged. `gpu_held` and `deferred_held` are
-- the contents of the staging buffers; `sent`, `begin_frames`, `js` and `resized` log what was handed to
-- the producer library and to Chromium.
pub record View : Type 0 where
  pub browser : Bool
  pub input : Bool
  pub connected : Bool
  pub connect_attempts : ℕ
  pub quit : Bool
  pub render_w : ℕ
  pub render_h : ℕ
  pub use_dmabuf : Bool
  pub dmabuf_failed : Bool
  pub dmabuf_reject_count : ℕ
  pub pending : Bool
  pub visible : Bool
  pub request_credit : Bool
  pub needs_full_update : Bool
  pub capture_counter_valid : Bool
  pub staged_send : Bool
  pub deferred_kind : DeferredKind
  pub deferred_pixels : List ℕ
  pub deferred_w : ℕ
  pub deferred_h : ℕ
  pub deferred_gpu_ptr : Option GpuBuf
  pub gpu_inflight : Option GpuBuf
  pub gpu_last_acked : Option GpuBuf
  pub gpu_last_w : ℕ
  pub gpu_last_h : ℕ
  pub dropped_since_send : Bool
  pub sent_w : ℕ
  pub sent_h : ℕ
  pub shm_roi_enabled : Bool
  pub shm_baseline_valid : Bool
  pub last_sent_shm : Bool
  pub shm_shadow : List ℕ
  pub shm_shadow_w : ℕ
  pub shm_shadow_h : ℕ
  pub last_capture_counter : ℕ
  pub page_ready : Bool
  pub capture : Bool
  pub js_capture : Bool
  pub js_visible : Bool
  pub gpu_held : List ℕ
  pub deferred_held : List ℕ
  pub sent : List Sent
  pub begin_frames : ℕ
  pub js : List JsEvent
  pub resized : ℕ

-- What the kernel, the GPU and the producer library answer in one call: memfd_create, ftruncate and
-- mmap of a frame's memory, idk_producer_send_frame; a blit and export into a staging buffer, with what
-- the buffer holds after a full one and after one of the dirty rectangles only, dup, idk_producer_send_dma_buf; and GpuBuf's read-back.
pub record Answers : Type 0 where
  pub created : Bool
  pub sized : Bool
  pub mapped : Bool
  pub shm_sent : Bool
  pub blit : Bool
  pub holds : Bool → List ℕ
  pub dup : Bool
  pub dma_sent : Bool
  pub readback : Option (List ℕ)

-- CefAcceleratedPaintInfo, with the dirty rectangles and what mapping its first plane answers. A
-- width, height or plane count below 1 is 0; of the visible rectangle's corner only its being 0 is asked.
pub record PaintInfo : Type 0 where
  pub width : ℕ
  pub height : ℕ
  pub visible_x : ℕ
  pub visible_y : ℕ
  pub coded_w : ℕ
  pub coded_h : ℕ
  pub plane_count : ℕ
  pub stride : ℕ
  pub size : ℕ
  pub modifier : ℕ
  pub channels : Channels
  pub map : Option (List ℕ)
  pub has_counter : Bool
  pub counter : ℕ
  pub has_update_rect : Bool
  pub update_w : ℕ
  pub update_h : ℕ
  pub dirty : List Rect
