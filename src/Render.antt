-- ===== src/Render.antt =====
-- src/core/render: drawing the overlay with Vulkan, and the choice of shaders for OpenGL.
pub mod Ring
pub mod Shader
pub mod Format
pub mod Context
pub mod Staging
pub mod Upload
pub mod Import
pub mod Receive
pub mod Draw
