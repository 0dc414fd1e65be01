-- ===== src/Seat/Sources.antt =====
-- What one source of src/inject.rs holds, and what the others hold, around each operation.
use shoestring_wm.Prelude.{
  ℕ, ◌≡◌, refl, ap, sym, ◌∙◌, ◌==◌, ◌&&◌, ◌||◌, inl, inr, not, Bool, true, false, Bool-cases, List,
  arith, if◌then◌else◌,
}
use shoestring_wm.Seat.{
  Kind, key, button, InputSource, physical, injected, HeldInput, SeatHeld, codes_of, with_codes,
  contains, changed_set, own, with_own, held_by_device, held_by_any, held_by_other, note,
  taken_from, release, same_kind,
}
use shoestring_wm.Seat.Laws.{
  device-without, contains-filter_if, contains-changed_set, changed_set_changed, Distinct,
  Distinct-without, held_by_device-without, held_by_other_device-without, device-with_device,
  without-with_device, Distinct-with_device,
}

or_left : (a d w i : Bool) → d ≡ (a || w) → (i || d) ≡ (a || (i || w))
or_left a d w true h = ground (arith, h)
or_left a d w false h = h

-- What the seat holds is what one source holds, or the others.
pub held_by_any_split :
    (s : SeatHeld) (source : InputSource) (kind : Kind) (code : ℕ)
    → Distinct s.devices
    → held_by_any s kind code
      ≡ (contains code (codes_of kind (own s source)) || held_by_other s source kind code)
held_by_any_split s (physical id) kind code d =
    or_left _ _ _ (contains code (codes_of kind s.injection)) (
      held_by_device-without id kind code s.devices d
      ∙ ap (λ b. contains code (codes_of kind (own s (physical id))) || b)
          (sym (held_by_other_device-without id kind code s.devices)))
held_by_any_split s injected kind code d = refl

own-with_own :
    (s : SeatHeld) (source : InputSource) (kind : Kind) (input : HeldInput)
    → codes_of kind (own (with_own s source input) source) ≡ codes_of kind input
own-with_own s (physical id) kind input = device-with_device id kind input s.devices
own-with_own s injected kind input = refl

held_by_other-with_own :
    (s : SeatHeld) (source : InputSource) (kind : Kind) (code : ℕ) (input : HeldInput)
    → held_by_other (with_own s source input) source kind code ≡ held_by_other s source kind code
held_by_other-with_own s (physical id) kind code input =
    ap (λ b. contains code (codes_of kind s.injection) || b)
      (held_by_other_device-without id kind code _
        ∙ ap (held_by_device kind code) (without-with_device id input s.devices)
        ∙ sym (held_by_other_device-without id kind code s.devices))
held_by_other-with_own s injected kind code input = refl

Distinct-with_own :
    (s : SeatHeld) (source : InputSource) (input : HeldInput)
    → Distinct s.devices
    → Distinct (with_own s source input).devices
Distinct-with_own s (physical id) input d = Distinct-with_device id input s.devices d
Distinct-with_own s injected input d = d

codes_of-with_codes :
    (k kind : Kind) (input : HeldInput) (codes : List ℕ)
    → codes_of k (with_codes kind input codes)
      ≡ (if same_kind k kind then codes else codes_of k input)
codes_of-with_codes key key input codes = refl
codes_of-with_codes key button input codes = refl
codes_of-with_codes button key input codes = refl
codes_of-with_codes button button input codes = refl

same_kind_lem : (k kind : Kind) → same_kind k kind ≡ true → k ≡ kind
same_kind_lem key key h = refl
same_kind_lem key button h = ground (arith, h)
same_kind_lem button key h = ground (arith, h)
same_kind_lem button button h = refl

abbrev codes_after : SeatHeld → InputSource → Kind → ℕ → Bool → List ℕ
codes_after s source kind code pressed = (changed_set pressed code (codes_of kind (own s source))).0

-- What the source itself holds after `note`.
pub own-note :
    (s : SeatHeld) (source : InputSource) (kind : Kind) (code : ℕ) (pressed : Bool) (k : Kind)
    (c : ℕ)
    → contains c (codes_of k (own (note s source kind code pressed).0 source))
      ≡ (if same_kind k kind && c == code then pressed else contains c (codes_of k (own s source)))
unfolding note
own-note s source kind code pressed k c =
    ap (contains c) (
      own-with_own s source k
        (with_codes kind (own s source) (codes_after s source kind code pressed))
      ∙ codes_of-with_codes k kind (own s source) (codes_after s source kind code pressed))
    ∙ elim (Bool-cases (same_kind k kind)) [
      | inl same ↦ rw same (
          contains-changed_set pressed c code (codes_of kind (own s source))
          ∙ ap (λ x. if c == code then pressed else contains c (codes_of x (own s source)))
              (sym (same_kind_lem k kind same)))
      | inr other ↦ rw other refl
    ]

pub held_by_other-note :
    (s : SeatHeld) (source : InputSource) (kind : Kind) (code : ℕ) (pressed : Bool) (k : Kind)
    (c : ℕ)
    → held_by_other (note s source kind code pressed).0 source k c ≡ held_by_other s source k c
unfolding note
held_by_other-note s source kind code pressed k c = held_by_other-with_own s source k c _

pub Distinct-note :
    (s : SeatHeld) (source : InputSource) (kind : Kind) (code : ℕ) (pressed : Bool)
    → Distinct s.devices
    → Distinct (note s source kind code pressed).0.devices
unfolding note
Distinct-note s source kind code pressed d = Distinct-with_own s source _ d

pub delivered_lem :
    (s : SeatHeld) (source : InputSource) (kind : Kind) (code : ℕ) (pressed : Bool)
    → (note s source kind code pressed).1 ≡ (
        (if pressed
          then not (contains code (codes_of kind (own s source)))
          else contains code (codes_of kind (own s source)))
        && not (held_by_other s source kind code))
unfolding note
delivered_lem s source kind code pressed =
    ap (λ b. (changed_set pressed code (codes_of kind (own s source))).1 && not b)
      (held_by_other-with_own s source kind code _)
    ∙ ap (λ b. b && not (held_by_other s source kind code))
        (changed_set_changed pressed code (codes_of kind (own s source)))

pub same_input :
    (k kind : Kind) (c code : ℕ) → (same_kind k kind && c == code) ≡ true → (k ≡ kind) × (c ≡ code)
same_input k kind c code h = (same_kind_lem k kind (ground (arith, h)), ground (arith, h))

-- The seat after a transition: the source holds the code or not, and the others as before.
pub held_by_any-note :
    (s : SeatHeld) (source : InputSource) (kind : Kind) (code : ℕ) (pressed : Bool) (k : Kind)
    (c : ℕ)
    → Distinct s.devices
    → held_by_any (note s source kind code pressed).0 k c ≡ (
        if same_kind k kind && c == code
        then pressed || held_by_other s source k c
        else held_by_any s k c)
held_by_any-note s source kind code pressed k c d =
    held_by_any_split (note s source kind code pressed).0 source k c
      (Distinct-note s source kind code pressed d)
    ∙ ap (λ b. contains c (codes_of k (own (note s source kind code pressed).0 source)) || b)
        (held_by_other-note s source kind code pressed k c)
    ∙ ap (λ b. b || held_by_other s source k c) (own-note s source kind code pressed k c)
    ∙ elim (Bool-cases (same_kind k kind && c == code)) [
      | inl same ↦ rw same refl
      | inr other ↦ rw other (sym (held_by_any_split s source k c d))
    ]

pub held_by_any-taken_from :
    (s : SeatHeld) (source : InputSource) (kind : Kind) (code : ℕ)
    → held_by_any (taken_from s source) kind code ≡ held_by_other s source kind code
held_by_any-taken_from s (physical id) kind code =
    ap (λ b. contains code (codes_of kind s.injection) || b)
      (sym (held_by_other_device-without id kind code s.devices))
held_by_any-taken_from s injected key code = refl
held_by_any-taken_from s injected button code = refl

pub Distinct-taken_from :
    (s : SeatHeld) (source : InputSource)
    → Distinct s.devices
    → Distinct (taken_from s source).devices
Distinct-taken_from s (physical id) d = Distinct-without id s.devices d
Distinct-taken_from s injected d = d

-- What is released is what only the source that goes held.
pub contains-release :
    (s : SeatHeld) (source : InputSource) (kind : Kind) (code : ℕ)
    → contains code (codes_of kind (release s source).1)
      ≡ (not (held_by_other s source kind code) && contains code (codes_of kind (own s source)))
unfolding release
contains-release s source key code =
    contains-filter_if (λ c. not (held_by_any (taken_from s source) key c)) code (own s source).keys
    ∙ ap (λ b. not b && contains code (own s source).keys)
        (held_by_any-taken_from s source key code)
contains-release s source button code =
    contains-filter_if (λ c. not (held_by_any (taken_from s source) button c)) code
      (own s source).buttons
    ∙ ap (λ b. not b && contains code (own s source).buttons)
        (held_by_any-taken_from s source button code)

pub own-taken_from :
    (s : SeatHeld) (source : InputSource) (k : Kind) (c : ℕ)
    → contains c (codes_of k (own (taken_from s source) source)) ≡ false
own-taken_from s (physical id) key c =
    ap (λ i. contains c (codes_of key i)) (device-without id s.devices)
own-taken_from s (physical id) button c =
    ap (λ i. contains c (codes_of button i)) (device-without id s.devices)
own-taken_from s injected key c = refl
own-taken_from s injected button c = refl
