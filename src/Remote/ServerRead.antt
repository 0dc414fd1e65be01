-- ===== src/Remote/ServerRead.antt =====
-- Decoding undoes encoding, for what the server sends: crates/shoestring-remote/src/message.rs.
use shoestring_wm.Prelude.{◌≡◌, refl, List, [], ◌∷◌, ◌++◌, arith, length, All, u32}
use mathlib.Core.List.{append_assoc}
use shoestring_wm.Remote.Error.{ok}
use shoestring_wm.Remote.Bytes.{Bytes}
use shoestring_wm.Remote.Reader.{
  IsText, u8_read, bool_read, u32_read, f64_read, bytes_read, string_read,
}
use shoestring_wm.Remote.Message.{
  argb8888, Tile, ServerMessage, ready, frame, cursor, resize, meta, clipboard, goodbye, refused,
}
use shoestring_wm.Remote.Parts.{IsPeer, IsTile, IsCursor, peer_read, tile_read, cursor_read}
use shoestring_wm.Remote.Server.{put_tiles, get_tiles, encode_server, decode_server}
use shoestring_wm.Remote.ClientRead.{IsF64, IsU32}

-- The values that the fields' types hold.
abbrev pub IsServer : ServerMessage → Type 0
IsServer (ready width height scale format peer) =
    IsU32 width × IsU32 height × IsF64 scale × IsPeer peer
IsServer (frame seq tiles) = IsU32 seq × IsU32 (length tiles) × All IsTile tiles
IsServer (cursor update) = IsCursor update
IsServer (resize width height scale) = IsU32 width × IsU32 height × IsF64 scale
IsServer (meta app_id title) = IsText app_id × IsText title
IsServer (clipboard primary mime bytes) = IsText mime × IsU32 (length bytes)
IsServer goodbye = Unit
IsServer (refused reason) = IsText reason

tiles_read :
    (ts : List Tile)
    → All IsTile ts
    → (rest : Bytes) → get_tiles (length ts) (put_tiles ts ++ rest) ≡ ok (ts, rest)
unfolding get_tiles put_tiles
tiles_read [] v rest = refl
tiles_read (t ∷ ts) v rest = simp (append_assoc, tile_read t v.0, tiles_read ts v.1)

-- Decoding the encoding of a message gives it back, also with bytes after it that this build does
-- not know, where its fields are in their types' ranges.
pub server_roundtrip :
    (m : ServerMessage) (more : Bytes) → IsServer m → decode_server (encode_server m ++ more) ≡ ok m
unfolding decode_server encode_server
server_roundtrip (ready width height scale argb8888 peer) more (vw, vh, vs, vp) = simp (
  append_assoc,
  u8_read,
  u32_read width vw,
  u32_read height vh,
  f64_read scale vs,
  peer_read peer vp,
)
server_roundtrip (frame seq tiles) more (vs, vn, vt) =
    let short : u32 (length tiles) ≡ length tiles = omega arith in
    simp (
      append_assoc,
      u8_read,
      u32_read seq vs,
      short,
      u32_read (length tiles) vn,
      tiles_read tiles vt,
    )
server_roundtrip (cursor update) more v = simp (append_assoc, u8_read, cursor_read update v)
server_roundtrip (resize width height scale) more (vw, vh, vs) =
    simp (append_assoc, u8_read, u32_read width vw, u32_read height vh, f64_read scale vs)
server_roundtrip (clipboard primary mime bytes) more (vm, vb) =
    simp (append_assoc, u8_read, bool_read, string_read mime vm, bytes_read bytes vb)
server_roundtrip goodbye more v = simp u8_read
server_roundtrip (meta app_id title) more (va, vt) =
    simp (append_assoc, u8_read, string_read app_id va, string_read title vt)
server_roundtrip (refused reason) more v = simp (append_assoc, u8_read, string_read reason v)
