-- ===== src/Tests.antt =====
-- Concrete runs of the components.
pub mod Sockets
pub mod Memory
pub mod Frames
pub mod Hooks
pub mod Rendering
pub mod Webview
pub mod Layer
pub mod Cursors
