-- ===== src/Remote/Frames.antt =====
-- Packing one render's tiles into frames: `frame_messages` of crates/shoestring-remote/src/lib.rs.
use shoestring_wm.Prelude.{
  ℕ, ◌+◌, ◌≤◌, ◌≡◌, refl, Bool, true, false, not, List, [], ◌∷◌, ◌++◌, arith, length, length-append,
  u32, if◌then◌else◌, ltb, ◌&&◌, All, Bool-cases, inl, inr,
}
use mathlib.Core.List.{append_assoc}
use shoestring_wm.Remote.Bytes.{le_bytes, put_u8, put_u16, put_u32, put_bytes}
use shoestring_wm.Remote.Message.{Tile, ServerMessage, frame, encoded_len}
use shoestring_wm.Remote.Parts.{put_rect, put_tile}
use shoestring_wm.Remote.Server.{put_tiles, encode_server}
use shoestring_wm.Remote.Framing.{max_message_len}

abbrev pub frame_header_len : ℕ
frame_header_len = 9

abbrev pub is_empty : List Tile → Bool
is_empty [] = true
is_empty (t ∷ ts) = false

-- The loop of `frame_messages`: the batch being filled and its length, from a sequence number on.
unfoldable pub pack : ℕ → List Tile → ℕ → List Tile → List ServerMessage × ℕ
pack seq batch len [] = (frame (u32 (seq + 1)) batch ∷ [], u32 (seq + 1))
pack seq batch len (t ∷ ts) =
    let tile_len = encoded_len t in
    let (frames, last) = pack (u32 (seq + 1)) (t ∷ []) (frame_header_len + tile_len) ts in
    let more = pack seq (batch ++ t ∷ []) (len + tile_len) ts in
    if not (is_empty batch) && ltb max_message_len (len + tile_len)
    then (frame (u32 (seq + 1)) batch ∷ frames, last)
    else more

unfoldable pub frame_messages : ℕ → List Tile → List ServerMessage × ℕ
unfolding pack
frame_messages last_seq tiles = pack last_seq [] frame_header_len tiles

-- What the tiles take in a frame.
abbrev pub tiles_len : List Tile → ℕ
tiles_len [] = 0
tiles_len (t ∷ ts) = encoded_len t + tiles_len ts

tiles_len-append : (xs ys : List Tile) → tiles_len (xs ++ ys) ≡ tiles_len xs + tiles_len ys
tiles_len-append [] ys = omega arith
tiles_len-append (x ∷ xs) ys = omega (arith, tiles_len-append xs ys)

length-put_tile : (t : Tile) → length (put_tile t) ≡ encoded_len t
unfolding put_tile put_rect put_u16 put_u32 put_u8 put_bytes le_bytes encoded_len
length-put_tile t = omega arith

length-put_tiles : (ts : List Tile) → length (put_tiles ts) ≡ tiles_len ts
unfolding put_tiles
length-put_tiles [] = refl
length-put_tiles (t ∷ ts) =
    omega (arith, length-append (put_tile t) (put_tiles ts), length-put_tile t, length-put_tiles ts)

pub length-frame :
    (seq : ℕ) (ts : List Tile)
    → length (encode_server (frame seq ts)) ≡ frame_header_len + tiles_len ts
unfolding encode_server put_u8 put_u32 le_bytes
length-frame seq ts = omega (arith, length-put_tiles ts)

-- The tiles of a row of frames, in order; another message has none.
abbrev pub tiles_of : List ServerMessage → List Tile
tiles_of [] = []
tiles_of (frame seq ts ∷ ms) = ts ++ tiles_of ms
tiles_of (m ∷ ms) = tiles_of ms

-- Frames only, numbered on from a number, the last one's number given.
abbrev pub IsNumbered : ℕ → List ServerMessage → ℕ → Type 0
IsNumbered seq [] last = seq ≡ last
IsNumbered seq (frame n ts ∷ ms) last = (n ≡ u32 (seq + 1)) × IsNumbered n ms last
IsNumbered seq (m ∷ ms) last = ⊥

abbrev pub FitsMessage : ServerMessage → Type 0
FitsMessage m = length (encode_server m) ≤ max_message_len

abbrev pub FitsAlone : Tile → Type 0
FitsAlone t = frame_header_len + encoded_len t ≤ max_message_len

pack-tiles :
    (seq : ℕ) (batch : List Tile) (len : ℕ) (ts : List Tile)
    → tiles_of (pack seq batch len ts).0 ≡ batch ++ ts
unfolding pack
pack-tiles seq batch len [] = refl
pack-tiles seq batch len (t ∷ ts) = ground (
  arith,
  pack-tiles (u32 (seq + 1)) (t ∷ []) (frame_header_len + encoded_len t) ts,
  pack-tiles seq (batch ++ t ∷ []) (len + encoded_len t) ts,
  append_assoc batch (t ∷ []) ts,
)

pack-IsNumbered :
    (seq : ℕ) (batch : List Tile) (len : ℕ) (ts : List Tile)
    → IsNumbered seq (pack seq batch len ts).0 (pack seq batch len ts).1
unfolding pack
pack-IsNumbered seq batch len [] = (refl, refl)
pack-IsNumbered seq batch len (t ∷ ts) =
    elim (Bool-cases (not (is_empty batch) && ltb max_message_len (len + encoded_len t))) [
      | inl full ↦
          rw full
            (refl, pack-IsNumbered (u32 (seq + 1)) (t ∷ []) (frame_header_len + encoded_len t) ts)
      | inr room ↦ rw room (pack-IsNumbered seq (batch ++ t ∷ []) (len + encoded_len t) ts)
    ]

-- A batch fits, and its length is the one that the loop counts.
pack-fits :
    (seq : ℕ) (batch : List Tile) (len : ℕ) (ts : List Tile)
    → len ≡ frame_header_len + tiles_len batch
    → len ≤ max_message_len
    → All FitsAlone ts
    → All FitsMessage (pack seq batch len ts).0
unfolding pack
pack-fits seq batch len [] e h a = (omega (arith, length-frame (u32 (seq + 1)) batch), tt)
pack-fits seq batch len (t ∷ ts) e h a =
    elim (Bool-cases (not (is_empty batch) && ltb max_message_len (len + encoded_len t))) [
      | inl full ↦ rw full (
        omega (arith, length-frame (u32 (seq + 1)) batch),
        pack-fits (u32 (seq + 1)) (t ∷ []) (frame_header_len + encoded_len t) ts (omega arith)
            (omega arith) a.1,
      )
      | inr room ↦ rw room (
          pack-fits seq (batch ++ t ∷ []) (len + encoded_len t) ts
            (omega (arith, tiles_len-append batch (t ∷ []))) (room_fits batch len t e room a.0) a.1)
    ]
  where
    room_fits :
        (batch : List Tile) (len : ℕ) (t : Tile)
        → len ≡ frame_header_len + tiles_len batch
        → (not (is_empty batch) && ltb max_message_len (len + encoded_len t)) ≡ false
        → FitsAlone t
        → len + encoded_len t ≤ max_message_len
    room_fits [] len t e room fits = omega arith
    room_fits (b ∷ bs) len t e room fits = ground arith

-- The frames of one render hold its tiles, each once and in order; they are numbered on from the
-- last sequence number, which wraps, up to the number returned; and each fits one message, where
-- each tile fits a message alone.
pub frame_messages_lem :
    (last_seq : ℕ) (tiles : List Tile)
    → All FitsAlone tiles
    → let (frames, seq) = frame_messages last_seq tiles in
      (tiles_of frames ≡ tiles) × IsNumbered last_seq frames seq × All FitsMessage frames
unfolding frame_messages
frame_messages_lem last_seq tiles a = (
  pack-tiles last_seq [] frame_header_len tiles,
  pack-IsNumbered last_seq [] frame_header_len tiles,
  pack-fits last_seq [] frame_header_len tiles refl (omega arith) a,
)
