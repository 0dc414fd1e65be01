-- ===== src/Prelude/Counting.antt =====
-- How many entries of a list pass a test.
use Prim.Native.Nat.{ℕ, zero, suc, ◌+◌, ◌≤◌}
use mathlib.Core.Path.{◌≡◌}
use mathlib.Core.Bool.{Bool, true, false}
use mathlib.Core.List.{List, [], ◌∷◌, ◌++◌}
use mathlib.Core.Option.{some}
use native.Mathlib.Omega.{arith}
use shoestring_wm.Prelude.Tests.{to_nat, if◌then◌else◌}
use shoestring_wm.Prelude.Lists.{length, get_elem?, set}

module _ {ℓ} {A : Type ℓ} where
  abbrev pub count_if : (A → Bool) → List A → ℕ
  count_if p [] = 0
  count_if p (x ∷ xs) = to_nat (p x) + count_if p xs

  abbrev pub filter_if : (A → Bool) → List A → List A
  filter_if p [] = []
  filter_if p (x ∷ xs) = if p x then x ∷ filter_if p xs else filter_if p xs

  abbrev pub any_if : (A → Bool) → List A → Bool
  any_if p [] = false
  any_if p (x ∷ xs) = if p x then true else any_if p xs

module _ {ℓ} {A : Type ℓ} (p : A → Bool) where
  pub count_if-append : (xs ys : List A) → count_if p (xs ++ ys) ≡ count_if p xs + count_if p ys
  count_if-append [] ys = omega arith
  count_if-append (x ∷ xs) ys = omega (arith, count_if-append xs ys)

  pub count_if-le-length : (xs : List A) → count_if p xs ≤ length xs
  count_if-le-length [] = omega arith
  count_if-le-length (x ∷ xs) = ground (arith, count_if-le-length xs)

  -- A write exchanges the old entry's share for the new one's.
  pub count_if-set :
      (xs : List A) (i : ℕ) (a b : A)
      → get_elem? xs i ≡ some a
      → count_if p (set xs i b) + to_nat (p a) ≡ count_if p xs + to_nat (p b)
  count_if-set [] i a b h = ground arith
  count_if-set (x ∷ xs) zero a b h = ground arith
  count_if-set (x ∷ xs) (suc i) a b h = omega (arith, count_if-set xs i a b h)

  pub count_if-get_elem? :
      (xs : List A) (i : ℕ) (a : A) → get_elem? xs i ≡ some a → to_nat (p a) ≤ count_if p xs
  count_if-get_elem? [] i a h = ground arith
  count_if-get_elem? (x ∷ xs) zero a h = ground arith
  count_if-get_elem? (x ∷ xs) (suc i) a h = omega (arith, count_if-get_elem? xs i a h)
