-- ===== src/Lib.antt =====
-- A model of idk-overlay: a library loaded into a game shows a web page over it, which a webview
-- process draws and hands over frame by frame, and to which the game's input goes while it is
-- captured.
--
-- The parts. A transport (src/core/transport) joins the two processes, in two backends behind one
-- table: a Unix socket and a shared page. The consumer is the game, the producer the webview. The
-- compositor (src/core/compositor) runs in the game and takes frames from the transport; the input
-- hook (src/hook/input) stands between the window system and the game; the preload library
-- (src/hook/preload) starts the webview and watches it, or the broker (src/cli/broker, src/core/
-- broker.c) starts it outside the game's container. The webview on Chromium (src/cli/webview_cef) turns
-- its paints into frames: a request of the game is the credit for one frame, the answer to a frame is
-- awaited before the next is sent, and what is painted meanwhile is kept as the deferred frame. The Vulkan
-- layer (src/hook/vklayer) stands between the game and its driver and calls the compositor at every present.
--
-- The files.
--   Prelude, and below it: names of the libraries, Boolean tests, lists and integers on the native
--     numbers, errno values, results of libc calls.
--   Wire: the records of include/public/idk_frames.h and idk_input.h. Wire/Bytes: ACK and REQUEST as
--     bytes. Wire/Cursor: cursor_valid. Wire/Delta: include/public/idk_shm_delta.h.
--   Chunks: the loops that read and write whole messages.
--   Socket and below it: src/core/transport/socket, an operation of the C file per function, with the
--     tp_socket_ prefix dropped. Keeps, Accounts, Ledger, Duplex, Demux and Rights hold the proofs.
--   Shm and below it: src/core/transport/shm in the same way. Writer, Seqlock, Transfer,
--     Aside, Channel, Race and Descriptors hold the proofs.
--   Transport: the table of dispatch.c as a record of operations with the laws that its client rests
--     on; Transport/Backends fills it for both backends.
--   Compositor: frame.c, state.c and ack.c over any transport; Resize: helpers.c; Frames, Drain: proofs; Cache:
--     cache.c.
--   Hook: the state of the input hook and the capture; Keys and Buttons: the handlers of Wayland and
--     X11; Configure: configure_hotkey; Toggle: proofs. Hook/Cursor: sidecar/cursor.c of Wayland; Ledger: proofs.
--   Render and below it: src/core/render/vk. Ring: ring.c; Format: format.c; Context: context.h;
--     Staging and Upload: upload.c; Import: dmabuf.c and the import cache of cache.c; Receive:
--     idk_vk_compositor_render and overlay_upload; Draw: idk_vk_compositor_render_overlay, with
--     pipeline.c, renderpass.c, shaders.c and the shutdown of context.c. Shader: version.c and select.c
--     of src/core/render/gl. Start, Window, Account, Rect,
--     Descriptors, Twice, Ledger, Keeps and Lock hold the proofs.
--   Producer: src/producer/api.c. Preload/Monitor: monitor.c. Broker, Broker/Session, Broker/Connect: the broker and its client.
--   Layer: the tables and hooked calls of src/hook/vklayer; Present: present.c; Tables, Drawing, Queues,
--     Destroyed: proofs.
--   Webview and below it: src/cli/webview_cef. Patch: the rows of a rectangle over a canvas; Format:
--     shm_format.h; Difference: shm_diff.h; Damage: damage.h and choose_shm_roi; View: the state of
--     a view of view.h, with its member functions in View/Shm (frames from memory), View/Staging (staging
--     buffers and the deferred frame), View/Paint (paint callbacks), View/Acks
--     (ProcessAck) and View/Pacing (requests, connection, visibility); Cursor: OnCursorChange, and the
--     cursor's way through input.cc. View/Run has the calls in any order, View/Canvas the
--     image that the game shows. Rows, Pixels, Exact, Scan, Canvases, Replay, Deferred, Spend, Requests, Inflight, Refused, Stuck, Valid and Newest
--     hold the proofs.
--   Tests: concrete runs.
--
-- Conventions. What a kernel, another process or a library answers is an argument of the function
-- that asks for it, and arbitrary in the theorems. A negative descriptor is `none`; `closed` is a log
-- of close(2) calls that no C struct has. What Vulkan and Wayland answer in one call is a record that
-- the call takes; handles are numbers, and those destroyed are logged. The contents of images on the GPU
-- are not modelled, only which bytes are copied to which place of them. Unsigned integers are natural numbers, with `%` written
-- where C wraps around. Times are arguments.
--
-- Loops. The 256 rounds of the demultiplexing loops, the 500 tries for a slot, the 300 of opening a
-- page, the 3 of a cursor read and the 256 of a view's poll are the source's own bounds. The compositor's two loops have no
-- bound in the source and run on fuel here; the transport's law that a frame taken is gone from its
-- queue makes any fuel above the queue's length enough.
--
-- Not modelled: the rest of the OpenGL back end (src/core/render/gl, src/hook/gl, src/shaders) and the loader chain
-- of the Vulkan layer (src/hook/vklayer), which call graphics libraries; the descriptor objects and the
-- draw commands of src/core/render/vk, and when the GPU runs what was submitted; the Qt webview, and of the
-- Chromium webview its GPU buffers, its input thread and its start, which are calls of Qt, EGL, GBM and CEF; symbol interposition and injection; the wake-ups of futexes, which change no state;
-- the thread of shm/health.c; the memory orders of the atomics, whose program order is taken.
pub mod Prelude
pub mod Wire
pub mod Chunks
pub mod Socket
pub mod Shm
pub mod Transport
pub mod Compositor
pub mod Hook
pub mod Preload
pub mod Producer
pub mod Render
pub mod Broker
pub mod Layer
pub mod Webview
pub mod Tests
