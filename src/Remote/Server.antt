-- ===== src/Remote/Server.antt =====
-- `ServerMessage` of crates/shoestring-remote/src/message.rs: `encode` and `decode`.
use shoestring_wm.Prelude.{ℕ, zero, suc, List, [], ◌∷◌, ◌++◌, if◌then◌else◌, ◌==◌, u32, length}
use shoestring_wm.Remote.Error.{unknown_message, Result}
use shoestring_wm.Remote.Bytes.{Bytes, put_u8, put_bool, put_u32, put_f64, put_bytes, put_str}
use shoestring_wm.Remote.Reader.{
  Read, ◌>>=◌, pure, fail, get_u8, get_bool, get_u32, get_f64, get_bytes, get_string,
}
use shoestring_wm.Remote.Message.{
  Tile, ServerMessage, ready, frame, cursor, resize, meta, clipboard, goodbye, refused,
}
use shoestring_wm.Remote.Parts.{
  put_peer, get_trailing_peer, put_tile, get_tile, put_cursor, get_cursor, format_tag, format_of,
}
use shoestring_wm.Remote.Client.{decoded}

unfoldable pub put_tiles : List Tile → Bytes
put_tiles [] = []
put_tiles (t ∷ ts) = put_tile t ++ put_tiles ts

-- The loop over the announced count.
unfoldable pub get_tiles : ℕ → Read (List Tile)
get_tiles zero = pure []
get_tiles (suc n) = do t ← get_tile; ts ← get_tiles n; pure (t ∷ ts)

unfoldable pub encode_server : ServerMessage → Bytes
encode_server (ready width height scale format peer) =
    put_u8 0
    ++ (put_u32 width
        ++ (put_u32 height ++ (put_f64 scale ++ (put_u8 (format_tag format) ++ put_peer peer))))
encode_server (frame seq tiles) =
    put_u8 1 ++ (put_u32 seq ++ (put_u32 (u32 (length tiles)) ++ put_tiles tiles))
encode_server (cursor update) = put_u8 2 ++ put_cursor update
encode_server (resize width height scale) =
    put_u8 3 ++ (put_u32 width ++ (put_u32 height ++ put_f64 scale))
encode_server (clipboard primary mime bytes) =
    put_u8 5 ++ (put_bool primary ++ (put_str mime ++ put_bytes bytes))
encode_server goodbye = put_u8 4
encode_server (meta app_id title) = put_u8 6 ++ (put_str app_id ++ put_str title)
encode_server (refused reason) = put_u8 7 ++ put_str reason

abbrev pub get_ready : Read ServerMessage
get_ready = do
  width ← get_u32
  height ← get_u32
  scale ← get_f64
  tag ← get_u8
  format ← format_of tag
  peer ← get_trailing_peer
  pure (ready width height scale format peer)

abbrev pub get_frame : Read ServerMessage
get_frame = do seq ← get_u32; count ← get_u32; tiles ← get_tiles count; pure (frame seq tiles)

abbrev pub get_resize : Read ServerMessage
get_resize = do width ← get_u32; height ← get_u32; scale ← get_f64; pure (resize width height scale)

abbrev pub get_reply : Read ServerMessage
get_reply = do
  primary ← get_bool
  mime ← get_string
  bytes ← get_bytes
  pure (clipboard primary mime bytes)

abbrev pub get_meta : Read ServerMessage
get_meta = do app_id ← get_string; title ← get_string; pure (meta app_id title)

-- The `match` on the tag.
abbrev pub server_of : ℕ → Read ServerMessage
server_of t =
    if t == 0
    then get_ready
    else if t == 1
    then get_frame
    else if t == 2
    then (get_cursor >>= λ update. pure (cursor update))
    else if t == 3
    then get_resize
    else if t == 4
    then pure goodbye
    else if t == 5
    then get_reply
    else if t == 6
    then get_meta
    else if t == 7
    then (get_string >>= λ reason. pure (refused reason))
    else fail (unknown_message t)

unfoldable pub decode_server : Bytes → Result ServerMessage
decode_server buf = decoded ((get_u8 >>= λ tag. server_of tag) buf)
