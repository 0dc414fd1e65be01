-- ===== src/Remote/ClientRead.antt =====
-- Decoding undoes encoding, for what the client sends: crates/shoestring-remote/src/message.rs.
use shoestring_wm.Prelude.{
  ℕ, ◌<◌, ◌≡◌, refl, ap, sym, false, Option, none, some, [], ◌++◌, arith, ◌∙◌, length,
}
use mathlib.Core.List.{append_assoc, append-nil}
use shoestring_wm.Remote.Error.{unknown_message, ok, err}
use shoestring_wm.Remote.Bytes.{Bytes, put_u8, put_f64, put_str, put_u32, le_bytes}
use shoestring_wm.Remote.Reader.{
  is_at_end, get_f64, get_string, IsText, u8_read, bool_read, u32_read, f64_read, bytes_read,
  string_read,
}
use shoestring_wm.Remote.Message.{
  ClientMessage, hello, graft, key, pointer_motion, pointer_button, pointer_axis, get_clipboard,
  set_clipboard, bye,
}
use shoestring_wm.Remote.Parts.{IsPeer, peer_read, get_trailing_peer, legacy}
use shoestring_wm.Remote.Client.{encode_client, decode_client}

-- The range of an f64's bit pattern.
abbrev pub IsF64 : ℕ → Type 0
IsF64 v = v < 18446744073709551616

abbrev pub IsU32 : ℕ → Type 0
IsU32 v = v < 4294967296

abbrev pub IsWheel : Option (ℕ × ℕ) → Type 0
IsWheel none = Unit
IsWheel (some (h, v)) = IsF64 h × IsF64 v

-- The values that the fields' types hold.
abbrev pub IsClient : ClientMessage → Type 0
IsClient (hello width height scale peer) = IsU32 width × IsU32 height × IsF64 scale × IsPeer peer
IsClient (graft selector peer) = IsText selector × IsPeer peer
IsClient (key keycode pressed) = IsU32 keycode
IsClient (pointer_motion x y) = IsF64 x × IsF64 y
IsClient (pointer_button button pressed) = IsU32 button
IsClient (pointer_axis horizontal vertical wheel) =
    IsF64 horizontal × IsF64 vertical × IsWheel wheel
IsClient (get_clipboard primary) = Unit
IsClient (set_clipboard primary mime bytes) = IsText mime × IsU32 (length bytes)
IsClient bye = Unit

-- What may follow a message in its frame: anything, save after a scroll without wheel travel.
abbrev pub MayFollow : ClientMessage → Bytes → Type 0
MayFollow (pointer_axis horizontal vertical none) more = more ≡ []
MayFollow _ more = Unit

f64_read_last : (v : ℕ) → IsF64 v → get_f64 (put_f64 v) ≡ ok (v, [])
f64_read_last v h = ap get_f64 (sym (append-nil (put_f64 v))) ∙ f64_read v h []

more_after_f64 :
    (v : ℕ) (rest : Bytes) → is_at_end (put_f64 v ++ rest) ≡ ok (false, put_f64 v ++ rest)
unfolding put_f64 le_bytes
more_after_f64 v rest = refl

-- Decoding the encoding of a message gives it back, also with bytes after it that this build does
-- not know, where its fields are in their types' ranges; only a scroll without wheel travel must
-- end its frame.
pub client_roundtrip :
    (m : ClientMessage) (more : Bytes)
    → IsClient m
    → MayFollow m more
    → decode_client (encode_client m ++ more) ≡ ok m
unfolding decode_client encode_client
client_roundtrip (hello width height scale peer) more (vw, vh, vs, vp) f = simp (
  append_assoc,
  u8_read,
  u32_read width vw,
  u32_read height vh,
  f64_read scale vs,
  peer_read peer vp,
)
client_roundtrip (graft selector peer) more (vs, vp) f =
    simp (append_assoc, u8_read, string_read selector vs, peer_read peer vp)
client_roundtrip (key keycode pressed) more v f =
    simp (append_assoc, u8_read, u32_read keycode v, bool_read)
client_roundtrip (pointer_motion x y) more (vx, vy) f =
    simp (append_assoc, u8_read, f64_read x vx, f64_read y vy)
client_roundtrip (pointer_button button pressed) more v f =
    simp (append_assoc, u8_read, u32_read button v, bool_read)
client_roundtrip (pointer_axis horizontal vertical none) more (vh, vv, _) f =
    simp (f, append_assoc, append-nil, u8_read, f64_read horizontal vh, f64_read_last vertical vv)
client_roundtrip (pointer_axis horizontal vertical (some (x, y))) more (vh, vv, (vx, vy)) f = simp (
  append_assoc,
  u8_read,
  f64_read horizontal vh,
  f64_read vertical vv,
  more_after_f64,
  f64_read x vx,
  f64_read y vy,
)
client_roundtrip (get_clipboard primary) more v f = simp (append_assoc, u8_read, bool_read)
client_roundtrip (set_clipboard primary mime bytes) more (vm, vb) f =
    simp (append_assoc, u8_read, bool_read, string_read mime vm, bytes_read bytes vb)
client_roundtrip bye more v f = simp u8_read

string_read_last : (t : Bytes) → IsText t → get_string (put_str t) ≡ ok (t, [])
string_read_last t h = ap get_string (sym (append-nil (put_str t))) ∙ string_read t h []

-- A greeting and a request to graft a window that end before the version information, as older
-- builds send them, are read as from a peer of protocol 1 with no optional features, where their
-- fields are in their types' ranges.
pub legacy_client :
    (width height scale : ℕ) (selector : Bytes)
    → IsU32 width
    → IsU32 height
    → IsF64 scale
    → IsText selector
    → (decode_client (put_u8 0 ++ (put_u32 width ++ (put_u32 height ++ put_f64 scale)))
        ≡ ok (hello width height scale legacy))
      × (decode_client (put_u8 8 ++ put_str selector) ≡ ok (graft selector legacy))
unfolding decode_client get_trailing_peer
legacy_client width height scale selector vw vh vs vt = (
  simp (u8_read, u32_read width vw, u32_read height vh, f64_read_last scale vs),
  simp (u8_read, string_read_last selector vt),
)

-- A tag that this build does not know is told from a malformed message: decoding names the tag,
-- whatever follows it.
pub unknown_client :
    (t : ℕ) (more : Bytes) → 8 < t → decode_client (put_u8 t ++ more) ≡ err (unknown_message t)
unfolding decode_client
unknown_client t more h = simp u8_read (ground arith)
