-- ===== src/Remote.antt =====
-- crates/shoestring-remote: the wire protocol of remote desktop and its tile codec.
pub mod Error
pub mod Bytes
pub mod Utf8
pub mod Reader
pub mod Message
pub mod Parts
pub mod Client
pub mod ClientRead
pub mod Server
pub mod ServerRead
pub mod Framing
pub mod Frames
pub mod Limits
pub mod Version
pub mod Codec
pub mod Slices
pub mod Blit
pub mod Tiles
mod Examples
