-- ===== src/Webview.antt =====
-- src/cli/webview_cef: the webview program that renders with Chromium's embedding framework.
pub mod Patch
pub mod Format
pub mod Difference
pub mod Damage
pub mod Cursor
pub mod View
