-- ===== src/Remote/Examples.antt =====
-- The theorems about crates/shoestring-remote at concrete messages and tiles.
use shoestring_wm.Prelude.{
  ℕ, zero, suc, ap, ◌≡◌, ◌≤◌, ◌<◌, ◌*◌, ◌↔◌, refl, true, some, [], ◌∷◌, ◌++◌, arith, All, length,
  take,
}
use shoestring_wm.Remote.Error.{Result, ok}
use shoestring_wm.Remote.Bytes.{Bytes, put_u8, put_u32, put_f64, put_str, le_bytes, put_bool}
use shoestring_wm.Remote.Utf8.{utf8_valid}
use shoestring_wm.Remote.Reader.{IsText}
use shoestring_wm.Remote.Message.{
  Rect, Tile, raw, zlib, PeerInfo, hello, graft, bye, get_clipboard, frame, raw_len, pixel_count,
  encoded_len,
}
use shoestring_wm.Remote.Parts.{IsPeer, IsTile, legacy}
use shoestring_wm.Remote.Client.{encode_client, decode_client}
use shoestring_wm.Remote.ClientRead.{client_roundtrip, legacy_client}
use shoestring_wm.Remote.Server.{encode_server, decode_server}
use shoestring_wm.Remote.ServerRead.{server_roundtrip}
use shoestring_wm.Remote.Framing.{
  max_message_len, read_each, write_each, write_framed, stream_roundtrip,
}
use shoestring_wm.Remote.Frames.{
  frame_messages, tiles_of, IsNumbered, FitsMessage, FitsAlone, frame_messages_lem,
}
use shoestring_wm.Remote.Limits.{framebuffer_len, band_rows_iff, framebuffer_len_iff, band_rows}
use shoestring_wm.Remote.Codec.{
  crop, crop_rows, slice, encode_tile, apply_tile, tile_pixels, blit_rows, write_slice,
}
use shoestring_wm.Remote.Tiles.{Inside, Keeps, Agrees, tile_roundtrip, apply_tile-Keeps}

abbrev word : Bytes
word = 119 ∷ 109 ∷ 195 ∷ 169 ∷ []

word-IsText : IsText word
unfolding utf8_valid
word-IsText = record { valid = refl; short = omega arith }

abbrev peer : PeerInfo
peer = record { protocol = 3; capabilities = 5; software = word }

peer-IsPeer : IsPeer peer
peer-IsPeer = record { protocol = omega arith; capabilities = omega arith; software = word-IsText }

client_roundtrip_example :
    decode_client (encode_client (hello 1920 1080 4609434218613702656 peer) ++ 7 ∷ [])
    ≡ ok (hello 1920 1080 4609434218613702656 peer)
client_roundtrip_example =
    client_roundtrip (hello 1920 1080 4609434218613702656 peer) (7 ∷ [])
      (omega arith, omega arith, omega arith, peer-IsPeer) tt

abbrev unit_rect : Rect
unit_rect = record { x = 1; y = 0; w = 1; h = 1 }

abbrev unit_tile : Tile
unit_tile = record { rect = unit_rect; encoding = raw; pixels = 9 ∷ 8 ∷ 7 ∷ 255 ∷ [] }

unit_tile-IsTile : IsTile unit_tile
unit_tile-IsTile = record {
  rect = record { x = omega arith; y = omega arith; w = omega arith; h = omega arith };
  pixels = omega arith;
}

server_roundtrip_example :
    decode_server (encode_server (frame 4 (unit_tile ∷ unit_tile ∷ [])) ++ [])
    ≡ ok (frame 4 (unit_tile ∷ unit_tile ∷ []))
server_roundtrip_example =
    server_roundtrip (frame 4 (unit_tile ∷ unit_tile ∷ [])) []
      (omega arith, omega arith, (unit_tile-IsTile, (unit_tile-IsTile, tt)))

legacy_client_example :
    (decode_client (put_u8 0 ++ (put_u32 1920 ++ (put_u32 1080 ++ put_f64 4607182418800017408)))
      ≡ ok (hello 1920 1080 4607182418800017408 legacy))
    × (decode_client (put_u8 8 ++ put_str word) ≡ ok (graft word legacy))
legacy_client_example =
    legacy_client 1920 1080 4607182418800017408 word (omega arith) (omega arith) (omega arith)
      word-IsText

abbrev any_message : Bytes → Result Bytes
any_message b = ok b

stream_roundtrip_example :
    read_each decode_client 2 ((2 ∷ 0 ∷ 0 ∷ 0 ∷ 6 ∷ 1 ∷ 1 ∷ 0 ∷ 0 ∷ 0 ∷ 5 ∷ []) ++ 200 ∷ [])
    ≡ (ok (get_clipboard true) ∷ ok bye ∷ [], 200 ∷ [])
unfolding write_each write_framed encode_client le_bytes put_u8 put_bool put_u32
stream_roundtrip_example =
    stream_roundtrip encode_client decode_client (get_clipboard true ∷ bye ∷ [])
      (2 ∷ 0 ∷ 0 ∷ 0 ∷ 6 ∷ 1 ∷ 1 ∷ 0 ∷ 0 ∷ 0 ∷ 5 ∷ []) (200 ∷ [])
      (client_roundtrip (get_clipboard true) [] tt tt, (client_roundtrip bye [] tt tt, tt)) refl

frame_messages_lem_example :
    let (frames, seq) = frame_messages 4294967295 (unit_tile ∷ unit_tile ∷ []) in
    (tiles_of frames ≡ unit_tile ∷ unit_tile ∷ [])
    × IsNumbered 4294967295 frames seq
    × All FitsMessage frames
unfolding encoded_len
frame_messages_lem_example =
    frame_messages_lem 4294967295 (unit_tile ∷ unit_tile ∷ []) (omega arith, (omega arith, tt))

band_rows_iff_example :
    ((unit_tile.rect.h ≤ band_rows unit_tile.rect.w)
      ↔ ((raw_len unit_tile.rect ≤ 33554432) × FitsAlone unit_tile))
    × (1 ≤ band_rows unit_tile.rect.w)
unfolding raw_len pixel_count
band_rows_iff_example = band_rows_iff unit_tile (omega arith) (omega arith) (omega arith)

framebuffer_len_iff_example : (framebuffer_len 3840 2160 ≡ ok 33177600) ↔ (
    (0 < 3840)
    × (0 < 2160)
    × (3840 ≤ 16384)
    × (2160 ≤ 16384)
    × (3840 * 2160 ≤ 67108864)
    × (33177600 ≡ 3840 * 2160 * 4)
    × (33177600 ≤ max_message_len))
framebuffer_len_iff_example = framebuffer_len_iff 3840 2160 33177600

-- A framebuffer of two pixels by one, and the zlib that compresses nothing.
abbrev two_pixels : Bytes
two_pixels = 1 ∷ 2 ∷ 3 ∷ 4 ∷ 9 ∷ 8 ∷ 7 ∷ 255 ∷ []

abbrev stored : Bytes → ℕ → Result Bytes
stored b n = ok (take n b)

abbrev black : Bytes
black = 0 ∷ 0 ∷ 0 ∷ 0 ∷ 0 ∷ 0 ∷ 0 ∷ 0 ∷ []

take-all : (b : Bytes) (n : ℕ) → length b ≤ n → take n b ≡ b
take-all [] zero h = refl
take-all [] (suc n) h = refl
take-all (x ∷ xs) zero h = ground arith
take-all (x ∷ xs) (suc n) h = ap (λ t. x ∷ t) (take-all xs n (omega arith))

black-Inside : Inside black 2 1 unit_rect
unfolding Inside
black-Inside = (omega arith, omega arith, omega arith, omega arith, omega arith)

cut_unit : crop two_pixels 2 1 unit_rect ≡ some (9 ∷ 8 ∷ 7 ∷ 255 ∷ [])
unfolding crop crop_rows slice
cut_unit = refl

tile_roundtrip_example :
    (after : Bytes) × (apply_tile
        (λ b. b)
        stored
        black
        2
        1
        (encode_tile (λ b. b) stored unit_rect (9 ∷ 8 ∷ 7 ∷ 255 ∷ []) zlib)
      ≡ ok after)
    × Agrees after 2 unit_rect two_pixels 2
    × Keeps black 2 unit_rect after
tile_roundtrip_example =
    tile_roundtrip (λ b. b) stored two_pixels 2 1 black 2 1 unit_rect (9 ∷ 8 ∷ 7 ∷ 255 ∷ []) zlib
      (λ b n h. ap ok (take-all b n h)) cut_unit black-Inside

applied_unit :
    apply_tile (λ b. b) stored black 2 1 unit_tile ≡ ok (0 ∷ 0 ∷ 0 ∷ 0 ∷ 9 ∷ 8 ∷ 7 ∷ 255 ∷ [])
unfolding apply_tile tile_pixels blit_rows write_slice slice raw_len pixel_count
applied_unit = refl

apply_tile-Keeps_example :
    Inside black 2 1 unit_rect × Keeps black 2 unit_rect (0 ∷ 0 ∷ 0 ∷ 0 ∷ 9 ∷ 8 ∷ 7 ∷ 255 ∷ [])
apply_tile-Keeps_example =
    apply_tile-Keeps (λ b. b) stored black 2 1 unit_tile (0 ∷ 0 ∷ 0 ∷ 0 ∷ 9 ∷ 8 ∷ 7 ∷ 255 ∷ [])
      applied_unit
