-- ===== src/Holds/HeldSet.antt =====
-- `Held` of crates/shoestring-remote-server/src/holds.rs with its derived order, and the BTreeSet
-- operations that the file uses, over ascending lists.
use shoestring_wm.Prelude.{
  ℕ, ◌+◌, ◌≡◌, refl, ◌↔◌, Bool, true, false, not, List, [], ◌∷◌, arith, if◌then◌else◌, ltb, ◌==◌,
  ◌&&◌, ◌||◌, to_nat, count_if, filter_if, any_if,
}

pub data Held : Type 0 where
  key : ℕ → Held
  button : ℕ → Held

abbrev pub held_eq : Held → Held → Bool
held_eq (key a) (key b) = a == b
held_eq (button a) (button b) = a == b
held_eq _ _ = false

-- The derived order: every key before every button.
abbrev pub held_lt : Held → Held → Bool
held_lt (key a) (key b) = ltb a b
held_lt (key a) (button b) = true
held_lt (button a) (key b) = false
held_lt (button a) (button b) = ltb a b

pub held_eq_refl : (h : Held) → held_eq h h ≡ true
held_eq_refl (key a) = ground arith
held_eq_refl (button a) = ground arith

pub held_eq_iff : (h k : Held) → (held_eq h k ≡ true) ↔ (h ≡ k)
held_eq_iff (key a) (key b) = ground arith
held_eq_iff (key a) (button b) = ground arith
held_eq_iff (button a) (key b) = ground arith
held_eq_iff (button a) (button b) = ground arith

abbrev pub contains : Held → List Held → Bool
contains h = any_if (held_eq h)

-- How often a key stands in the list: once at most, in a set.
abbrev pub occurrences : Held → List Held → ℕ
occurrences h = count_if (held_eq h)

unfoldable pub insert_sorted : Held → List Held → List Held
insert_sorted h [] = h ∷ []
insert_sorted h (k ∷ ks) = if held_lt h k then h ∷ k ∷ ks else k ∷ insert_sorted h ks

-- `BTreeSet::insert`: the set, and whether the key is new to it.
abbrev pub set_insert : Held → List Held → List Held × Bool
set_insert h s = if contains h s then (s, false) else (insert_sorted h s, true)

-- `BTreeSet::remove`: the set, and whether the key was in it.
abbrev pub set_remove : Held → List Held → List Held × Bool
set_remove h s = (filter_if (λ k. not (held_eq h k)) s, contains h s)

pub occurrences-insert_sorted :
    (k h : Held) (s : List Held)
    → occurrences k (insert_sorted h s) ≡ occurrences k s + to_nat (held_eq k h)
unfolding insert_sorted
occurrences-insert_sorted k h [] = ground arith
occurrences-insert_sorted k h (x ∷ xs) = ground (arith, occurrences-insert_sorted k h xs)

pub occurrences-filter :
    (k h : Held) (s : List Held)
    → occurrences k (filter_if (λ x. not (held_eq h x)) s)
      ≡ (if held_eq h k then 0 else occurrences k s)
occurrences-filter k h [] = ground arith
occurrences-filter k h (x ∷ xs) =
    ground (arith, occurrences-filter k h xs, held_eq_iff h x, held_eq_iff h k, held_eq_iff k x)

pub contains_iff-occurrences : (h : Held) (s : List Held) → contains h s ≡ ltb 0 (occurrences h s)
contains_iff-occurrences h [] = refl
contains_iff-occurrences h (x ∷ xs) = ground (arith, contains_iff-occurrences h xs)

pub contains-insert_sorted :
    (k h : Held) (s : List Held) → contains k (insert_sorted h s) ≡ (held_eq k h || contains k s)
unfolding insert_sorted
contains-insert_sorted k h [] = ground arith
contains-insert_sorted k h (x ∷ xs) = ground (arith, contains-insert_sorted k h xs)

pub contains-filter :
    (k h : Held) (s : List Held)
    → contains k (filter_if (λ x. not (held_eq h x)) s) ≡ (not (held_eq h k) && contains k s)
contains-filter k h [] = ground arith
contains-filter k h (x ∷ xs) =
    ground (arith, contains-filter k h xs, held_eq_iff h x, held_eq_iff h k, held_eq_iff k x)
