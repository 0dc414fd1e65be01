-- ===== src/Layout.antt =====
-- src/layout.rs: tile, maximize, fullscreen, minimize, and the one-shot arrangements.
pub mod Rect
pub mod Arrange
pub mod Span
pub mod Split
pub mod EvenSpans
pub mod Grid
pub mod Partition
pub mod Manager
pub mod Desktop
pub mod Home
pub mod Fullscreen
pub mod Minimized
mod Examples
