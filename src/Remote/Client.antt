-- ===== src/Remote/Client.antt =====
-- `ClientMessage` of crates/shoestring-remote/src/message.rs: `encode` and `decode`.
use shoestring_wm.Prelude.{ℕ, Option, none, some, [], ◌++◌, if◌then◌else◌, ◌==◌}
use shoestring_wm.Remote.Error.{unknown_message, Result, ok, err}
use shoestring_wm.Remote.Bytes.{Bytes, put_u8, put_bool, put_u32, put_f64, put_bytes, put_str}
use shoestring_wm.Remote.Reader.{
  Read, ◌>>=◌, pure, fail, is_at_end, get_u8, get_bool, get_u32, get_f64, get_bytes, get_string,
}
use shoestring_wm.Remote.Message.{
  ClientMessage, hello, graft, key, pointer_motion, pointer_button, pointer_axis, get_clipboard,
  set_clipboard, bye,
}
use shoestring_wm.Remote.Parts.{put_peer, get_trailing_peer}

-- The wheel's travel, which follows the deltas only where there is one.
abbrev pub put_wheel : Option (ℕ × ℕ) → Bytes
put_wheel none = []
put_wheel (some (h, v)) = put_f64 h ++ put_f64 v

unfoldable pub encode_client : ClientMessage → Bytes
encode_client (hello width height scale peer) =
    put_u8 0 ++ (put_u32 width ++ (put_u32 height ++ (put_f64 scale ++ put_peer peer)))
encode_client (key keycode pressed) = put_u8 1 ++ (put_u32 keycode ++ put_bool pressed)
encode_client (pointer_motion x y) = put_u8 2 ++ (put_f64 x ++ put_f64 y)
encode_client (pointer_button button pressed) = put_u8 3 ++ (put_u32 button ++ put_bool pressed)
encode_client (pointer_axis horizontal vertical wheel) =
    put_u8 4 ++ (put_f64 horizontal ++ (put_f64 vertical ++ put_wheel wheel))
encode_client (get_clipboard primary) = put_u8 6 ++ put_bool primary
encode_client (set_clipboard primary mime bytes) =
    put_u8 7 ++ (put_bool primary ++ (put_str mime ++ put_bytes bytes))
encode_client bye = put_u8 5
encode_client (graft selector peer) = put_u8 8 ++ (put_str selector ++ put_peer peer)

abbrev pub get_hello : Read ClientMessage
get_hello = do
  width ← get_u32
  height ← get_u32
  scale ← get_f64
  peer ← get_trailing_peer
  pure (hello width height scale peer)

abbrev pub get_key : Read ClientMessage
get_key = do keycode ← get_u32; pressed ← get_bool; pure (key keycode pressed)

abbrev pub get_motion : Read ClientMessage
get_motion = do x ← get_f64; y ← get_f64; pure (pointer_motion x y)

abbrev pub get_button : Read ClientMessage
get_button = do button ← get_u32; pressed ← get_bool; pure (pointer_button button pressed)

abbrev pub get_wheel : Read (Option (ℕ × ℕ))
get_wheel = do h ← get_f64; v ← get_f64; pure (some (h, v))

abbrev pub get_axis : Read ClientMessage
get_axis = do
  horizontal ← get_f64
  vertical ← get_f64
  ended ← is_at_end
  wheel ← (if ended then pure none else get_wheel)
  pure (pointer_axis horizontal vertical wheel)

abbrev pub get_get_clipboard : Read ClientMessage
get_get_clipboard = do primary ← get_bool; pure (get_clipboard primary)

abbrev pub get_set_clipboard : Read ClientMessage
get_set_clipboard = do
  primary ← get_bool
  mime ← get_string
  bytes ← get_bytes
  pure (set_clipboard primary mime bytes)

abbrev pub get_graft : Read ClientMessage
get_graft = do selector ← get_string; peer ← get_trailing_peer; pure (graft selector peer)

-- The `match` on the tag.
abbrev pub client_of : ℕ → Read ClientMessage
client_of t =
    if t == 0
    then get_hello
    else if t == 1
    then get_key
    else if t == 2
    then get_motion
    else if t == 3
    then get_button
    else if t == 4
    then get_axis
    else if t == 5
    then pure bye
    else if t == 6
    then get_get_clipboard
    else if t == 7
    then get_set_clipboard
    else if t == 8
    then get_graft
    else fail (unknown_message t)

-- The bytes that a decoder does not reach are dropped.
abbrev pub decoded {ℓ} : {A : Type ℓ} → Result (A × Bytes) → Result A
decoded (ok (a, rest)) = ok a
decoded (err e) = err e

unfoldable pub decode_client : Bytes → Result ClientMessage
decode_client buf = decoded ((get_u8 >>= λ tag. client_of tag) buf)
