-- ===== src/Preload.antt =====
-- src/hook/preload: what the library loaded into the game does about the webview's process.
pub mod Monitor
