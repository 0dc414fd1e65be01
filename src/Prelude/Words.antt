-- ===== src/Prelude/Words.antt =====
-- Machine words. An unsigned word is a number below its modulus; an i32 is the integer that its
-- two's complement pattern stands for.
use Prim.Native.Nat.{◌+◌, ◌/◌, ℕ, ◌-◌, ◌%◌, ◌≤◌, ◌<◌}
use mathlib.Core.Path.{◌≡◌}
use native.Mathlib.Omega.{arith}
use shoestring_wm.Prelude.Tests.{ltb, if◌then◌else◌}
use shoestring_wm.Prelude.Int.{quot, ◌≤ℤ◌, ℤ, pos, negsuc, pos_part, neg_part, ◌+ℤ◌, ◌-ℤ◌}

abbrev pub u32 : ℕ → ℕ
u32 n = n % 4294967296

abbrev pub u64 : ℕ → ℕ
u64 n = n % 18446744073709551616

-- `x as u32` of an integer, and `x as i32` of a word.
unfoldable pub to_u32 : ℤ → ℕ
to_u32 (pos n) = n % 4294967296
to_u32 (negsuc n) = 4294967295 - n % 4294967296

unfoldable pub of_u32 : ℕ → ℤ
of_u32 n = if ltb n 2147483648 then pos n else negsuc (4294967295 - n)

-- The range of an i32.
pub record IsI32 (z : ℤ) : Type 0 where
  pub upper : pos_part z < 2147483648
  pub lower : neg_part z ≤ 2147483648

unfoldable pub wrap_i32 : ℤ → ℤ
unfolding to_u32 of_u32
wrap_i32 z = of_u32 (to_u32 z)

-- i32 addition and subtraction, which wrap.
unfoldable pub add_i32 : ℤ → ℤ → ℤ
unfolding wrap_i32
add_i32 a b = wrap_i32 (a +ℤ b)

unfoldable pub sub_i32 : ℤ → ℤ → ℤ
unfolding wrap_i32
sub_i32 a b = wrap_i32 (a -ℤ b)

pub of_u32-to_u32 : (z : ℤ) → IsI32 z → of_u32 (to_u32 z) ≡ z
unfolding to_u32 of_u32
of_u32-to_u32 (pos n) h = ground arith
of_u32-to_u32 (negsuc n) h = ground arith

pub to_u32-lt : (z : ℤ) → to_u32 z < 4294967296
unfolding to_u32
to_u32-lt (pos n) = omega arith
to_u32-lt (negsuc n) = omega arith

-- Within the range the operations are exact.
pub add_i32_exact : (a b : ℤ) → IsI32 (a +ℤ b) → add_i32 a b ≡ a +ℤ b
unfolding add_i32
add_i32_exact a b h = of_u32-to_u32 (a +ℤ b) h

pub sub_i32_exact : (a b : ℤ) → IsI32 (a -ℤ b) → sub_i32 a b ≡ a -ℤ b
unfolding sub_i32
sub_i32_exact a b h = of_u32-to_u32 (a -ℤ b) h

-- The range as two orders between integers.
pub IsI32_of_bounds :
    (z : ℤ) → pos_part z < 2147483648 + neg_part z → neg_part z ≤ 2147483648 + pos_part z → IsI32 z
IsI32_of_bounds (pos n) h k = omega arith
IsI32_of_bounds (negsuc n) h k = omega arith

pub quot_parts :
    (z : ℤ) (k : ℕ)
    → pos (0) ≤ℤ z
    → (pos_part (quot z k) ≡ pos_part z / k) × (neg_part (quot z k) ≡ 0) × (neg_part z ≡ 0)
unfolding quot
quot_parts (pos n) k h = ground arith
quot_parts (negsuc n) k h = absurd (omega arith)
