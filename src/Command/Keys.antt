-- ===== src/Command/Keys.antt =====
-- The map of pending commands of src/remote_command.rs: lookup, removal and the commands of a client.
use shoestring_wm.Prelude.{
  ℕ, ◌+◌, ◌≡◌, ◌≢◌, refl, sym, ap, subst, ◌==◌, ==_iff, ==_refl, Bool, false, Bool-cases, inl, inr,
  Option, none, some, [], ◌∷◌, arith, All, count_if, to_nat,
}
use shoestring_wm.Command.{Pending, Commands, get, remove, find_pid}

-- Of what was looked up, if it was found.
abbrev pub Found {ℓ} : {A : Type ℓ} → (A → Type 0) → Option A → Type 0
Found P none = Unit
Found P (some a) = P a

abbrev pub Keys : (ℕ → Type 0) → Commands → Type 0
Keys P = All (λ (d : ℕ × Pending). P d.0)

abbrev pub Distinct : Commands → Type 0
Distinct [] = Unit
Distinct ((i, p) ∷ m) = Keys (λ k. k ≢ i) m × Distinct m

abbrev pub of_client : ℕ → Pending → Bool
of_client c p = p.client_id == c

-- How many commands of a client there are.
abbrev pub tally : ℕ → Commands → ℕ
tally c = count_if (λ d. of_client c d.1)

pub Keys-weaken : (P Q : ℕ → Type 0) (m : Commands) → ((k : ℕ) → P k → Q k) → Keys P m → Keys Q m
Keys-weaken P Q [] f a = tt
Keys-weaken P Q (d ∷ m) f a = (f d.0 a.0, Keys-weaken P Q m f a.1)

pub Keys-remove : (P : ℕ → Type 0) (id : ℕ) (m : Commands) → Keys P m → Keys P (remove id m)
unfolding remove
Keys-remove P id [] a = tt
Keys-remove P id ((i, p) ∷ m) a = elim (Bool-cases (i == id)) [
  | inl same ↦ rw same (Keys-remove P id m a.1)
  | inr other ↦ rw other (a.0, Keys-remove P id m a.1)
]

pub remove-Keys : (id : ℕ) (m : Commands) → Keys (λ k. k ≢ id) (remove id m)
unfolding remove
remove-Keys id [] = tt
remove-Keys id ((i, p) ∷ m) = elim (Bool-cases (i == id)) [
  | inl same ↦ rw same (remove-Keys id m)
  | inr other ↦ rw other (ground (arith, other), remove-Keys id m)
]

pub Distinct-remove : (id : ℕ) (m : Commands) → Distinct m → Distinct (remove id m)
unfolding remove
Distinct-remove id [] d = tt
Distinct-remove id ((i, p) ∷ m) d = elim (Bool-cases (i == id)) [
  | inl same ↦ rw same (Distinct-remove id m d.1)
  | inr other ↦ rw other (Keys-remove (λ k. k ≢ i) id m d.0, Distinct-remove id m d.1)
]

pub remove_absent : (id : ℕ) (m : Commands) → Keys (λ k. k ≢ id) m → remove id m ≡ m
unfolding remove
remove_absent id [] a = refl
remove_absent id ((i, p) ∷ m) a = ground (arith, a.0, remove_absent id m a.1)

abbrev pub tally_found : ℕ → Option Pending → ℕ
tally_found c none = 0
tally_found c (some p) = to_nat (of_client c p)

-- The commands of a client are the one looked up, if it is the client's, and those that stay without it.
pub tally-remove :
    (c id : ℕ) (m : Commands)
    → Distinct m
    → tally c m ≡ tally_found c (get id m) + tally c (remove id m)
unfolding get remove
tally-remove c id [] d = refl
tally-remove c id ((i, p) ∷ m) d = elim (Bool-cases (i == id)) [
  | inl same ↦ rw same (
      ap (λ m'. to_nat (of_client c p) + tally c m')
        (sym (remove_absent id m (subst (λ n. Keys (λ k. k ≢ n) m) ((==_iff i id).0 same) d.0))))
  | inr other ↦ rw other (omega (arith, tally-remove c id m d.1))
]

pub get-Keys : (P : ℕ → Type 0) (id : ℕ) (m : Commands) → Keys P m → Found (λ p. P id) (get id m)
unfolding get
get-Keys P id [] a = tt
get-Keys P id ((i, p) ∷ m) a = elim (Bool-cases (i == id)) [
  | inl same ↦ rw same (subst P ((==_iff i id).0 same) a.0)
  | inr other ↦ rw other (get-Keys P id m a.1)
]

ne_false : (i k : ℕ) → k ≢ i → (i == k) ≡ false
ne_false i k h = ground (arith, h)

-- What is found by its pid is what its key looks up.
pub find_pid-get :
    (P : ℕ → Type 0) (pid : ℕ) (m : Commands)
    → Distinct m
    → Keys P m
    → Found (λ (d : ℕ × Pending). (get d.0 m ≡ some d.1) × P d.0) (find_pid pid m)
unfolding find_pid get
find_pid-get P pid [] d a = tt
find_pid-get P pid ((i, p) ∷ m) d a = elim (Bool-cases (p.pid == pid)) [
  | inl same ↦ rw same (rw (==_refl i) (refl, a.0))
  | inr other ↦
      rw other
        (later (find_pid pid m) (find_pid-get (λ k. (k ≢ i) × P k) pid m d.1 (both m d.0 a.1)))
]
  where
    both : (m : Commands) → Keys (λ k. k ≢ i) m → Keys P m → Keys (λ k. (k ≢ i) × P k) m
    both [] x y = tt
    both (e ∷ es) x y = ((x.0, y.0), both es x.1 y.1)

    later :
        (o : Option (ℕ × Pending))
        → Found (λ (d : ℕ × Pending). (get d.0 m ≡ some d.1) × ((d.0 ≢ i) × P d.0)) o
        → Found (λ (d : ℕ × Pending). (get d.0 ((i, p) ∷ m) ≡ some d.1) × P d.0) o
    later none f = tt
    later (some (k, q)) f = (rw (ne_false i k f.1.0) f.0, f.1.1)
