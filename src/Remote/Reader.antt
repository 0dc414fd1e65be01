-- ===== src/Remote/Reader.antt =====
-- `Reader` of crates/shoestring-remote/src/lib.rs. Its state is the bytes from `pos` on, so that
-- `is_at_end` is that none are left; a read is a function from that state to a value and the rest.
use shoestring_wm.Prelude.{
  ℕ, ◌^◌, ◌<◌, ◌≡◌, refl, Bool, true, false, [], ◌∷◌, ◌++◌, arith, if◌then◌else◌, ltb, ◌==◌, length,
  length-append, take, drop, take-length-append, drop-length-append, u32, subst,
}
use mathlib.Core.List.{append_assoc}
use shoestring_wm.Remote.Error.{Error, unexpected_eof, bad_bool, utf8, Result, ok, err}
use shoestring_wm.Remote.Bytes.{
  Bytes, le_bytes, of_le, of_le-le_bytes, length-le_bytes, put_u8, put_bool, put_u16, put_u32,
  put_f64, put_bytes, put_str,
}
use shoestring_wm.Remote.Utf8.{utf8_valid}

abbrev pub Read {ℓ} : Type ℓ → Type ℓ
Read A = Bytes → Result (A × Bytes)

-- What follows a read.
abbrev pub continue {ℓ κ} :
    {A : Type ℓ} {B : Type κ} → (A → Read B) → Result (A × Bytes) → Result (B × Bytes)
continue f (ok (a, rest)) = f a rest
continue f (err e) = err e

infixl 5 ◌>>=◌
abbrev pub ◌>>=◌ {ℓ κ} : {A : Type ℓ} {B : Type κ} → Read A → (A → Read B) → Read B
◌>>=◌ m f r = continue f (m r)

abbrev pub pure {ℓ} : {A : Type ℓ} → A → Read A
pure a r = ok (a, r)

abbrev pub fail {ℓ} : {A : Type ℓ} → Error → Read A
fail e r = err e

abbrev pub is_at_end : Read Bool
is_at_end [] = ok (true, [])
is_at_end (b ∷ bs) = ok (false, b ∷ bs)

unfoldable pub take_bytes : ℕ → Read Bytes
take_bytes n r = if ltb (length r) n then err unexpected_eof else ok (take n r, drop n r)

unfoldable pub get_u8 : Read ℕ
get_u8 [] = err unexpected_eof
get_u8 (b ∷ bs) = ok (b, bs)

abbrev pub bool_of : ℕ → Read Bool
bool_of b = if b == 0 then pure false else if b == 1 then pure true else fail (bad_bool b)

unfoldable pub get_bool : Read Bool
get_bool = do b ← get_u8; bool_of b

unfoldable pub get_u16 : Read ℕ
get_u16 = do b ← take_bytes 2; pure (of_le b)

unfoldable pub get_u32 : Read ℕ
get_u32 = do b ← take_bytes 4; pure (of_le b)

unfoldable pub get_f64 : Read ℕ
get_f64 = do b ← take_bytes 8; pure (of_le b)

unfoldable pub get_bytes : Read Bytes
get_bytes = do len ← get_u32; take_bytes len

abbrev pub checked_text : Bytes → Read Bytes
checked_text b = if utf8_valid b then pure b else fail utf8

unfoldable pub get_string : Read Bytes
get_string = do b ← get_bytes; checked_text b

-- Each read undoes the write of the same name, and leaves what follows.
pub take_bytes-append : (b rest : Bytes) → take_bytes (length b) (b ++ rest) ≡ ok (b, rest)
unfolding take_bytes
take_bytes-append b rest =
    rw (take-length-append b rest, drop-length-append b rest) (ground (arith, length-append b rest))

pub u8_read : (v : ℕ) (rest : Bytes) → get_u8 (put_u8 v ++ rest) ≡ ok (v, rest)
unfolding get_u8 put_u8
u8_read v rest = refl

pub bool_read : (b : Bool) (rest : Bytes) → get_bool (put_bool b ++ rest) ≡ ok (b, rest)
unfolding get_bool put_bool get_u8
bool_read true rest = refl
bool_read false rest = refl

take_le : (k v : ℕ) (rest : Bytes) → take_bytes k (le_bytes k v ++ rest) ≡ ok (le_bytes k v, rest)
take_le k v rest =
    subst (λ n. take_bytes n (le_bytes k v ++ rest) ≡ ok (le_bytes k v, rest)) (length-le_bytes k v)
      (take_bytes-append (le_bytes k v) rest)

-- The numbers of `k` bytes.
number_read :
    (k v : ℕ)
    → v < 256 ^ k
    → (rest : Bytes) → (take_bytes k >>= λ b. pure (of_le b)) (le_bytes k v ++ rest) ≡ ok (v, rest)
number_read k v h rest = rw (take_le k v rest) (rw (of_le-le_bytes k v h))

pub u16_read : (v : ℕ) → v < 65536 → (rest : Bytes) → get_u16 (put_u16 v ++ rest) ≡ ok (v, rest)
unfolding get_u16 put_u16
u16_read v h rest = number_read 2 v h rest

pub u32_read :
    (v : ℕ) → v < 4294967296 → (rest : Bytes) → get_u32 (put_u32 v ++ rest) ≡ ok (v, rest)
unfolding get_u32 put_u32
u32_read v h rest = number_read 4 v h rest

pub f64_read :
    (v : ℕ) → v < 18446744073709551616 → (rest : Bytes) → get_f64 (put_f64 v ++ rest) ≡ ok (v, rest)
unfolding get_f64 put_f64
f64_read v h rest = number_read 8 v h rest

pub bytes_read :
    (b : Bytes)
    → length b < 4294967296
    → (rest : Bytes) → get_bytes (put_bytes b ++ rest) ≡ ok (b, rest)
unfolding get_bytes put_bytes
bytes_read b h rest =
    let short : u32 (length b) ≡ length b = omega arith in
    rw (short, append_assoc (put_u32 (length b)) b rest)
      (rw (u32_read (length b) h (b ++ rest)) (take_bytes-append b rest))

-- A text: its bytes are well-formed, and its length is a u32.
pub record IsText (s : Bytes) : Type 0 where
  pub valid : utf8_valid s ≡ true
  pub short : length s < 4294967296

pub string_read :
    (s : Bytes) → IsText s → (rest : Bytes) → get_string (put_str s ++ rest) ≡ ok (s, rest)
unfolding get_string put_str
string_read s h rest = rw (bytes_read s h.short rest) (rw h.valid)
