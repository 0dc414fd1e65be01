-- ===== src/Remote/Message.antt =====
-- The data of crates/shoestring-remote/src/message.rs and version.rs. A text is its UTF-8 bytes, and
-- an f64 its bit pattern.
use shoestring_wm.Prelude.{ℕ, Bool, Option, List, ◌*◌, ◌+◌, ℤ, length}
use shoestring_wm.Remote.Bytes.{Bytes}

pub data PixelFormat : Type 0 where
  argb8888 : PixelFormat

pub data TileEncoding : Type 0 where
  raw zlib : TileEncoding

pub record Rect : Type 0 where
  pub x : ℕ
  pub y : ℕ
  pub w : ℕ
  pub h : ℕ

pub record Tile : Type 0 where
  pub rect : Rect
  pub encoding : TileEncoding
  pub pixels : Bytes

pub data CursorUpdate : Type 0 where
  hidden : CursorUpdate
  shape : ℤ → ℤ → Bytes → CursorUpdate

pub record PeerInfo : Type 0 where
  pub protocol : ℕ
  pub capabilities : ℕ
  pub software : Bytes

pub data ClientMessage : Type 0 where
  hello : ℕ → ℕ → ℕ → PeerInfo → ClientMessage
  graft : Bytes → PeerInfo → ClientMessage
  key : ℕ → Bool → ClientMessage
  pointer_motion : ℕ → ℕ → ClientMessage
  pointer_button : ℕ → Bool → ClientMessage
  pointer_axis : ℕ → ℕ → Option (ℕ × ℕ) → ClientMessage
  get_clipboard : Bool → ClientMessage
  set_clipboard : Bool → Bytes → Bytes → ClientMessage
  bye : ClientMessage

pub data ServerMessage : Type 0 where
  ready : ℕ → ℕ → ℕ → PixelFormat → PeerInfo → ServerMessage
  frame : ℕ → List Tile → ServerMessage
  cursor : CursorUpdate → ServerMessage
  resize : ℕ → ℕ → ℕ → ServerMessage
  meta : Bytes → Bytes → ServerMessage
  clipboard : Bool → Bytes → Bytes → ServerMessage
  goodbye : ServerMessage
  refused : Bytes → ServerMessage

abbrev pub bytes_per_pixel : ℕ
bytes_per_pixel = 4

unfoldable pub pixel_count : Rect → ℕ
pixel_count r = r.w * r.h

unfoldable pub raw_len : Rect → ℕ
unfolding pixel_count
raw_len r = pixel_count r * bytes_per_pixel

-- `Tile::encoded_len`.
unfoldable pub encoded_len : Tile → ℕ
encoded_len t = 8 + 1 + 4 + length t.pixels
