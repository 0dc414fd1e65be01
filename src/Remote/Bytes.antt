-- ===== src/Remote/Bytes.antt =====
-- Little-endian numbers, and the `put_*` encoders of crates/shoestring-remote/src/lib.rs. An encoder
-- returns the bytes that the source appends. An f64 is its bit pattern, a number below 2^64.
use shoestring_wm.Prelude.{
  ℕ, zero, suc, ◌+◌, ◌*◌, ◌/◌, ◌%◌, ◌^◌, ◌<◌, ◌≡◌, refl, ap, Bool, List, [], ◌∷◌, ◌++◌, arith,
  length, u32, to_nat,
}
use native.Mathlib.Nat.{pow-suc}

abbrev pub Bytes : Type 0
Bytes = List ℕ

-- `to_le_bytes` of a number of `k` bytes, and `from_le_bytes`.
unfoldable pub le_bytes : ℕ → ℕ → Bytes
le_bytes zero v = []
le_bytes (suc k) v = v % 256 ∷ le_bytes k (v / 256)

unfoldable pub of_le : Bytes → ℕ
of_le [] = 0
of_le (b ∷ bs) = b + 256 * of_le bs

pub of_le-le_bytes : (k v : ℕ) → v < 256 ^ k → of_le (le_bytes k v) ≡ v
unfolding of_le le_bytes
of_le-le_bytes zero v h = omega arith
of_le-le_bytes (suc k) v h =
    omega (arith, of_le-le_bytes k (v / 256) (omega (arith, pow-suc 256 k)))

pub length-le_bytes : (k v : ℕ) → length (le_bytes k v) ≡ k
unfolding le_bytes
length-le_bytes zero v = refl
length-le_bytes (suc k) v = ap suc (length-le_bytes k (v / 256))

unfoldable pub put_u8 : ℕ → Bytes
put_u8 v = v ∷ []

unfoldable pub put_bool : Bool → Bytes
put_bool b = to_nat b ∷ []

unfoldable pub put_u16 : ℕ → Bytes
put_u16 v = le_bytes 2 v

unfoldable pub put_u32 : ℕ → Bytes
put_u32 v = le_bytes 4 v

unfoldable pub put_f64 : ℕ → Bytes
put_f64 v = le_bytes 8 v

unfoldable pub put_bytes : Bytes → Bytes
put_bytes b = put_u32 (u32 (length b)) ++ b

-- A text is its UTF-8 bytes.
unfoldable pub put_str : Bytes → Bytes
put_str s = put_bytes s
