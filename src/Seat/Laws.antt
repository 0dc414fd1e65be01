-- ===== src/Seat/Laws.antt =====
-- What the sources of src/inject.rs hold after each operation.
use shoestring_wm.Prelude.{
  ℕ, ◌≡◌, ◌≢◌, subst, refl, ap, sym, ◌∙◌, ◌==◌, ==_iff, ==_refl, ◌&&◌, ◌||◌, inl, inr, not, Bool,
  true, false, Bool-cases, List, [], ◌∷◌, arith, if◌then◌else◌, filter_if, All,
}
use shoestring_wm.Seat.{
  Kind, key, button, HeldInput, nothing, Devices, codes_of, contains, insert_sorted, changed_set,
  device, without, is_nil, with_device, held_by_device, held_by_other_device,
}

pub contains-insert_sorted :
    (a code : ℕ) (cs : List ℕ) → contains a (insert_sorted code cs) ≡ ((code == a) || contains a cs)
unfolding insert_sorted
contains-insert_sorted a code [] = ground arith
contains-insert_sorted a code (c ∷ cs) = ground (arith, contains-insert_sorted a code cs)

contains-filter_if_same :
    (p : ℕ → Bool) (a c : ℕ) (cs : List ℕ)
    → c ≡ a
    → contains a (filter_if p cs) ≡ (p a && contains a cs)
    → contains a (filter_if p (c ∷ cs)) ≡ (p a && contains a (c ∷ cs))
contains-filter_if_same p a c cs same ih = elim (Bool-cases (p c)) [
  | inl h ↦ ground (arith, ih, same, h)
  | inr k ↦ ground (arith, ih, same, k)
]

contains-filter_if_other :
    (p : ℕ → Bool) (a c : ℕ) (cs : List ℕ)
    → c == a ≡ false
    → contains a (filter_if p cs) ≡ (p a && contains a cs)
    → contains a (filter_if p (c ∷ cs)) ≡ (p a && contains a (c ∷ cs))
contains-filter_if_other p a c cs other ih = elim (Bool-cases (p c)) [
  | inl h ↦ ground (arith, ih, other, h)
  | inr k ↦ ground (arith, ih, other, k)
]

pub contains-filter_if :
    (p : ℕ → Bool) (a : ℕ) (cs : List ℕ) → contains a (filter_if p cs) ≡ (p a && contains a cs)
contains-filter_if p a [] = ground arith
contains-filter_if p a (c ∷ cs) = elim (Bool-cases (c == a)) [
  | inl same ↦ contains-filter_if_same p a c cs ((==_iff c a).0 same) (contains-filter_if p a cs)
  | inr other ↦ contains-filter_if_other p a c cs other (contains-filter_if p a cs)
]

-- The set after a transition, and whether it changed.
pub contains-changed_set :
    (pressed : Bool) (a code : ℕ) (cs : List ℕ)
    → contains a (changed_set pressed code cs).0 ≡ (if a == code then pressed else contains a cs)
contains-changed_set true a code cs = ground (arith, contains-insert_sorted a code cs)
contains-changed_set false a code cs =
    ground (arith, contains-filter_if (λ c. not (c == code)) a cs)

pub changed_set_changed :
    (pressed : Bool) (code : ℕ) (cs : List ℕ)
    → (changed_set pressed code cs).1
      ≡ (if pressed then not (contains code cs) else contains code cs)
changed_set_changed true code cs = ground arith
changed_set_changed false code cs = refl

-- No two entries of the map are for one device.
abbrev pub Distinct : Devices → Type 0
Distinct [] = Unit
Distinct ((i, input) ∷ ds) = All (λ (d : ℕ × HeldInput). d.0 ≢ i) ds × Distinct ds

pub All-without :
    (P : ℕ → Type 0) (id : ℕ) (ds : Devices)
    → All (λ (d : ℕ × HeldInput). P d.0) ds
    → All (λ (d : ℕ × HeldInput). P d.0) (without id ds)
unfolding without
All-without P id [] a = tt
All-without P id ((i, input) ∷ ds) a = elim (Bool-cases (i == id)) [
  | inl same ↦ rw same (All-without P id ds a.1)
  | inr other ↦ rw other (a.0, All-without P id ds a.1)
]

pub without-ne : (id : ℕ) (ds : Devices) → All (λ (d : ℕ × HeldInput). d.0 ≢ id) (without id ds)
unfolding without
without-ne id [] = tt
without-ne id ((i, input) ∷ ds) = elim (Bool-cases (i == id)) [
  | inl same ↦ rw same (without-ne id ds)
  | inr other ↦ rw other (ground (arith, other), without-ne id ds)
]

pub Distinct-without : (id : ℕ) (ds : Devices) → Distinct ds → Distinct (without id ds)
unfolding without
Distinct-without id [] d = tt
Distinct-without id ((i, input) ∷ ds) d = elim (Bool-cases (i == id)) [
  | inl same ↦ rw same (Distinct-without id ds d.1)
  | inr other ↦ rw other (All-without (λ n. n ≢ i) id ds d.0, Distinct-without id ds d.1)
]

pub without_absent :
    (id : ℕ) (ds : Devices) → All (λ (d : ℕ × HeldInput). d.0 ≢ id) ds → without id ds ≡ ds
unfolding without
without_absent id [] a = refl
without_absent id ((i, input) ∷ ds) a = ground (arith, a.0, without_absent id ds a.1)

or_swap : (d y w x : Bool) → d ≡ (y || w) → (x || d) ≡ (y || (x || w))
or_swap d true w true h = refl
or_swap d false w true h = refl
or_swap d true w false h = h
or_swap d false w false h = h

-- What any device holds is what one of them holds, or another.
pub held_by_device-without :
    (id : ℕ) (kind : Kind) (code : ℕ) (ds : Devices)
    → Distinct ds
    → held_by_device kind code ds
      ≡ (contains code (codes_of kind (device id ds)) || held_by_device kind code (without id ds))
unfolding held_by_device without device
held_by_device-without id key code [] d = refl
held_by_device-without id button code [] d = refl
held_by_device-without id kind code ((i, input) ∷ ds) d = elim (Bool-cases (i == id)) [
  | inl same ↦ rw same (
      ap (λ ds'. contains code (codes_of kind input) || held_by_device kind code ds')
        (sym (
          without_absent id ds
            (subst (λ n. All (λ (d : ℕ × HeldInput). d.0 ≢ n) ds) ((==_iff i id).0 same) d.0))))
  | inr other ↦ rw other (
      or_swap (held_by_device kind code ds) (contains code (codes_of kind (device id ds)))
        (held_by_device kind code (without id ds)) (contains code (codes_of kind input))
        (held_by_device-without id kind code ds d.1))
]

pub held_by_other_device-without :
    (id : ℕ) (kind : Kind) (code : ℕ) (ds : Devices)
    → held_by_other_device id kind code ds ≡ held_by_device kind code (without id ds)
unfolding held_by_other_device held_by_device without
held_by_other_device-without id kind code [] = refl
held_by_other_device-without id kind code ((i, input) ∷ ds) =
    ground (arith, held_by_other_device-without id kind code ds)

device_absent :
    (id : ℕ) (ds : Devices) → All (λ (d : ℕ × HeldInput). d.0 ≢ id) ds → device id ds ≡ nothing
unfolding device
device_absent id [] a = refl
device_absent id ((i, input) ∷ ds) a = ground (arith, a.0, device_absent id ds a.1)

pub device-without : (id : ℕ) (ds : Devices) → device id (without id ds) ≡ nothing
device-without id ds = device_absent id (without id ds) (without-ne id ds)

is_nil_lem : (cs : List ℕ) → is_nil cs ≡ true → cs ≡ []
is_nil_lem [] h = refl
is_nil_lem (c ∷ cs) h = ground (arith, h)

emptied :
    (kind : Kind) (input : HeldInput)
    → (is_nil input.keys && is_nil input.buttons) ≡ true
    → codes_of kind nothing ≡ codes_of kind input
emptied key input h = sym (is_nil_lem input.keys (ground (arith, h)))
emptied button input h = sym (is_nil_lem input.buttons (ground (arith, h)))

without_again : (id : ℕ) (ds : Devices) → without id (without id ds) ≡ without id ds
without_again id ds = without_absent id (without id ds) (without-ne id ds)

-- After `with_device`, the device holds what was put in, and the others what they held.
pub device-with_device :
    (id : ℕ) (kind : Kind) (input : HeldInput) (ds : Devices)
    → codes_of kind (device id (with_device id input ds)) ≡ codes_of kind input
unfolding device
device-with_device id kind input ds =
    elim (Bool-cases (is_nil input.keys && is_nil input.buttons)) [
      | inl h ↦ rw h (ap (codes_of kind) (device-without id ds) ∙ emptied kind input h)
      | inr k ↦ rw k (rw (==_refl id) refl)
    ]

pub without-with_device :
    (id : ℕ) (input : HeldInput) (ds : Devices)
    → without id (with_device id input ds) ≡ without id ds
unfolding without
without-with_device id input ds = elim (Bool-cases (is_nil input.keys && is_nil input.buttons)) [
  | inl h ↦ rw h (without_again id ds)
  | inr k ↦ rw k (rw (==_refl id) (without_again id ds))
]

pub Distinct-with_device :
    (id : ℕ) (input : HeldInput) (ds : Devices) → Distinct ds → Distinct (with_device id input ds)
Distinct-with_device id input ds d = elim (Bool-cases (is_nil input.keys && is_nil input.buttons)) [
  | inl h ↦ rw h (Distinct-without id ds d)
  | inr k ↦ rw k (without-ne id ds, Distinct-without id ds d)
]
