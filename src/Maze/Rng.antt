-- ===== src/Maze/Rng.antt =====
-- `Rng` of crates/shoestring-lock/src/maze.rs, xorshift64* on a u64 state.
use Prim.Native.Nat.{bit_xor}
use shoestring_wm.Prelude.{ℕ, ◌*◌, ◌/◌, ◌%◌, ◌^◌, ◌<◌, arith, if◌then◌else◌, ◌==◌, u32, u64}

abbrev pub Rng : Type 0
Rng = ℕ

unfoldable pub new : ℕ → Rng
new seed = if seed == 0 then 0x9E3779B97F4A7C15 else seed

abbrev pub shifted_left : ℕ → ℕ → ℕ
shifted_left x k = bit_xor x (u64 (x * 2 ^ k))

abbrev pub shifted_right : ℕ → ℕ → ℕ
shifted_right x k = bit_xor x (x / 2 ^ k)

unfoldable pub advanced : Rng → Rng
advanced x = shifted_left (shifted_right (shifted_left x 13) 7) 17

-- The number, and the state after it.
unfoldable pub next_u32 : Rng → ℕ × Rng
unfolding advanced
next_u32 r = let x = advanced r in (u32 (u64 (x * 0x2545F4914F6CDD1D) / 2 ^ 32), x)

unfoldable pub gen_range : Rng → ℕ → ℕ × Rng
gen_range r n = let (v, r') = next_u32 r in if n == 0 then (0, r) else (v % n, r')

pub gen_range-lt : (r : Rng) (n : ℕ) → 0 < n → (gen_range r n).0 < n
unfolding gen_range
gen_range-lt r n h = grind arith
