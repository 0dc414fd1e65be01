-- ===== src/Remote/Parts.antt =====
-- Encoding and decoding of the parts of a message: crates/shoestring-remote/src/message.rs and
-- `PeerInfo` of version.rs.
use shoestring_wm.Prelude.{
  ℕ, ◌<◌, ◌≡◌, refl, [], ◌∷◌, ◌++◌, if◌then◌else◌, ◌==◌, length, to_u32, of_u32, IsI32,
  of_u32-to_u32, to_u32-lt, ◌∙◌,
}
use mathlib.Core.List.{append_assoc}
use shoestring_wm.Remote.Error.{bad_tag, ok}
use shoestring_wm.Remote.Bytes.{Bytes, le_bytes, put_u8, put_u16, put_u32, put_bytes, put_str}
use shoestring_wm.Remote.Reader.{
  Read, ◌>>=◌, pure, fail, is_at_end, get_u8, get_u16, get_u32, get_bytes, get_string, u8_read,
  u16_read, u32_read, bytes_read, string_read, IsText,
}
use shoestring_wm.Remote.Message.{
  PixelFormat, argb8888, TileEncoding, raw, zlib, Rect, Tile, CursorUpdate, hidden, shape, PeerInfo,
}

abbrev pub format_tag : PixelFormat → ℕ
format_tag argb8888 = 0

abbrev pub format_of : ℕ → Read PixelFormat
format_of t = if t == 0 then pure argb8888 else fail (bad_tag t)

abbrev pub encoding_tag : TileEncoding → ℕ
encoding_tag raw = 0
encoding_tag zlib = 1

abbrev pub encoding_of : ℕ → Read TileEncoding
encoding_of t = if t == 0 then pure raw else if t == 1 then pure zlib else fail (bad_tag t)

unfoldable pub put_rect : Rect → Bytes
put_rect r = put_u16 r.x ++ (put_u16 r.y ++ (put_u16 r.w ++ put_u16 r.h))

unfoldable pub get_rect : Read Rect
get_rect = do
  x ← get_u16
  y ← get_u16
  w ← get_u16
  h ← get_u16
  pure (record { x = x; y = y; w = w; h = h })

unfoldable pub put_tile : Tile → Bytes
put_tile t = put_rect t.rect ++ (put_u8 (encoding_tag t.encoding) ++ put_bytes t.pixels)

unfoldable pub get_tile : Read Tile
get_tile = do
  rect ← get_rect
  tag ← get_u8
  encoding ← encoding_of tag
  pixels ← get_bytes
  pure (record { rect = rect; encoding = encoding; pixels = pixels })

unfoldable pub put_cursor : CursorUpdate → Bytes
put_cursor hidden = put_u8 0
put_cursor (shape x y icon) =
    put_u8 1 ++ (put_u32 (to_u32 x) ++ (put_u32 (to_u32 y) ++ put_str icon))

abbrev pub get_shape : Read CursorUpdate
get_shape = do x ← get_u32; y ← get_u32; icon ← get_string; pure (shape (of_u32 x) (of_u32 y) icon)

abbrev pub cursor_of : ℕ → Read CursorUpdate
cursor_of t = if t == 0 then pure hidden else if t == 1 then get_shape else fail (bad_tag t)

unfoldable pub get_cursor : Read CursorUpdate
get_cursor = do tag ← get_u8; cursor_of tag

unfoldable pub put_peer : PeerInfo → Bytes
put_peer p = put_u16 p.protocol ++ (put_u32 p.capabilities ++ put_str p.software)

-- `PeerInfo::legacy`.
abbrev pub legacy : PeerInfo
legacy = record { protocol = 1; capabilities = 0; software = [] }

abbrev pub get_peer_fields : Read PeerInfo
get_peer_fields = do
  protocol ← get_u16
  capabilities ← get_u32
  software ← get_string
  pure (record { protocol = protocol; capabilities = capabilities; software = software })

-- `PeerInfo::decode_trailing`.
unfoldable pub get_trailing_peer : Read PeerInfo
get_trailing_peer = do ended ← is_at_end; if ended then pure legacy else get_peer_fields

-- The ranges of the fields' types.
pub record IsRect (r : Rect) : Type 0 where
  pub x : r.x < 65536
  pub y : r.y < 65536
  pub w : r.w < 65536
  pub h : r.h < 65536

pub record IsTile (t : Tile) : Type 0 where
  pub rect : IsRect t.rect
  pub pixels : length t.pixels < 4294967296

abbrev pub IsCursor : CursorUpdate → Type 0
IsCursor hidden = Unit
IsCursor (shape x y icon) = IsI32 x × IsI32 y × IsText icon

pub record IsPeer (p : PeerInfo) : Type 0 where
  pub protocol : p.protocol < 65536
  pub capabilities : p.capabilities < 4294967296
  pub software : IsText p.software

encoding_read : (e : TileEncoding) (r : Bytes) → encoding_of (encoding_tag e) r ≡ ok (e, r)
encoding_read raw r = refl
encoding_read zlib r = refl

pub rect_read :
    (r : Rect) → IsRect r → (rest : Bytes) → get_rect (put_rect r ++ rest) ≡ ok (r, rest)
unfolding get_rect put_rect
rect_read r v rest =
    simp (append_assoc, u16_read r.x v.x, u16_read r.y v.y, u16_read r.w v.w, u16_read r.h v.h)

pub tile_read :
    (t : Tile) → IsTile t → (rest : Bytes) → get_tile (put_tile t ++ rest) ≡ ok (t, rest)
unfolding get_tile put_tile
tile_read t v rest =
    simp
      (append_assoc, rect_read t.rect v.rect, u8_read, encoding_read, bytes_read t.pixels v.pixels)

pub cursor_read :
    (c : CursorUpdate)
    → IsCursor c
    → (rest : Bytes) → get_cursor (put_cursor c ++ rest) ≡ ok (c, rest)
unfolding get_cursor put_cursor
cursor_read hidden v rest = rw (u8_read 0 rest)
cursor_read (shape x y icon) (vx, vy, vt) rest = simp (
  append_assoc,
  u8_read,
  u32_read (to_u32 x) (to_u32-lt x),
  u32_read (to_u32 y) (to_u32-lt y),
  string_read icon vt,
  of_u32-to_u32 x vx,
  of_u32-to_u32 y vy,
)

put_peer-cons : (p : PeerInfo) → (b : ℕ) × (bs : Bytes) × (put_peer p ≡ b ∷ bs)
unfolding put_peer put_u16 le_bytes
put_peer-cons p = (_, _, refl)

peer_fields_read :
    (p : PeerInfo) → IsPeer p → (rest : Bytes) → get_peer_fields (put_peer p ++ rest) ≡ ok (p, rest)
unfolding put_peer
peer_fields_read p v rest = simp (
  append_assoc,
  u16_read p.protocol v.protocol,
  u32_read p.capabilities v.capabilities,
  string_read p.software v.software,
)

-- Bytes that begin with something are read as the fields.
trailing_of_cons :
    (bs rest : Bytes) (b : ℕ) (tail : Bytes)
    → bs ≡ b ∷ tail
    → get_trailing_peer (bs ++ rest) ≡ get_peer_fields (bs ++ rest)
unfolding get_trailing_peer
trailing_of_cons bs rest b tail e = rw e

pub peer_read :
    (p : PeerInfo)
    → IsPeer p
    → (rest : Bytes) → get_trailing_peer (put_peer p ++ rest) ≡ ok (p, rest)
peer_read p v rest =
    let (b, tail, e) = put_peer-cons p in
    trailing_of_cons (put_peer p) rest b tail e ∙ peer_fields_read p v rest
