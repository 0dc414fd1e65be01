-- ===== src/Seat.antt =====
-- `SeatHeld` of src/inject.rs: what each source of input holds down on the seat, and what is passed on
-- of it, to the clients or to the key bindings before them. A device's id is a number, a set of codes an ascending list, and the map of the
-- devices an association list.
use shoestring_wm.Prelude.{
  ℕ, ◌+◌, ◌==◌, ◌&&◌, ◌||◌, not, Bool, true, false, List, [], ◌∷◌, if◌then◌else◌, ltb, any_if,
  filter_if,
}
pub mod Laws
pub mod Sources
pub mod Clients
mod Examples

pub data Kind : Type 0 where
  key button : Kind

pub data InputSource : Type 0 where
  physical : ℕ → InputSource
  injected : InputSource

pub record HeldInput : Type 0 where
  pub keys : List ℕ
  pub buttons : List ℕ

abbrev pub nothing : HeldInput
nothing = record { keys = []; buttons = [] }

abbrev pub Devices : Type 0
Devices = List (ℕ × HeldInput)

pub record SeatHeld : Type 0 where
  pub devices : Devices
  pub injection : HeldInput

abbrev pub no_input : SeatHeld
no_input = record { devices = []; injection = nothing }

-- `Held::of` and the assignment through `Held::of_mut`.
abbrev pub codes_of : Kind → HeldInput → List ℕ
codes_of key input = input.keys
codes_of button input = input.buttons

abbrev pub with_codes : Kind → HeldInput → List ℕ → HeldInput
with_codes key input codes = record input { keys = codes }
with_codes button input codes = record input { buttons = codes }

abbrev pub contains : ℕ → List ℕ → Bool
contains code = any_if (λ c. c == code)

unfoldable pub insert_sorted : ℕ → List ℕ → List ℕ
insert_sorted code [] = code ∷ []
insert_sorted code (c ∷ cs) = if ltb code c then code ∷ c ∷ cs else c ∷ insert_sorted code cs

-- `BTreeSet::insert` and `BTreeSet::remove`: the set, and whether it changed.
abbrev pub set_insert : ℕ → List ℕ → List ℕ × Bool
set_insert code cs = if contains code cs then (cs, false) else (insert_sorted code cs, true)

abbrev pub set_remove : ℕ → List ℕ → List ℕ × Bool
set_remove code cs = (filter_if (λ c. not (c == code)) cs, contains code cs)

abbrev pub changed_set : Bool → ℕ → List ℕ → List ℕ × Bool
changed_set true code cs = set_insert code cs
changed_set false code cs = set_remove code cs

unfoldable pub device : ℕ → Devices → HeldInput
device id [] = nothing
device id ((i, input) ∷ ds) = let rest = device id ds in if i == id then input else rest

unfoldable pub without : ℕ → Devices → Devices
without id [] = []
without id ((i, input) ∷ ds) =
    let rest = without id ds in if i == id then rest else (i, input) ∷ rest

abbrev pub is_nil : List ℕ → Bool
is_nil [] = true
is_nil (c ∷ cs) = false

-- A device that holds nothing has no entry.
abbrev pub with_device : ℕ → HeldInput → Devices → Devices
with_device id input ds =
    if is_nil input.keys && is_nil input.buttons then without id ds else (id, input) ∷ without id ds

abbrev pub own : SeatHeld → InputSource → HeldInput
own s (physical id) = device id s.devices
own s injected = s.injection

abbrev pub with_own : SeatHeld → InputSource → HeldInput → SeatHeld
with_own s (physical id) input = record s { devices = with_device id input s.devices }
with_own s injected input = record s { injection = input }

unfoldable pub held_by_device : Kind → ℕ → Devices → Bool
held_by_device kind code [] = false
held_by_device kind code ((i, input) ∷ ds) =
    contains code (codes_of kind input) || held_by_device kind code ds

abbrev pub held_by_any : SeatHeld → Kind → ℕ → Bool
held_by_any s kind code =
    contains code (codes_of kind s.injection) || held_by_device kind code s.devices

unfoldable pub held_by_other_device : ℕ → Kind → ℕ → Devices → Bool
held_by_other_device id kind code [] = false
held_by_other_device id kind code ((i, input) ∷ ds) =
    (not (i == id) && contains code (codes_of kind input)) || held_by_other_device id kind code ds

abbrev pub held_by_other : SeatHeld → InputSource → Kind → ℕ → Bool
held_by_other s (physical id) kind code =
    contains code (codes_of kind s.injection) || held_by_other_device id kind code s.devices
held_by_other s injected kind code = held_by_device kind code s.devices

-- `SeatHeld::note`, which `SeatHeld::key` and `SeatHeld::button` call with their kind.
unfoldable pub note : SeatHeld → InputSource → Kind → ℕ → Bool → SeatHeld × Bool
note s source kind code pressed =
    let mine = own s source in
    let (codes, changed) = changed_set pressed code (codes_of kind mine) in
    let s' = with_own s source (with_codes kind mine codes) in
    (s', changed && not (held_by_other s' source kind code))

abbrev pub taken_from : SeatHeld → InputSource → SeatHeld
taken_from s (physical id) = record s { devices = without id s.devices }
taken_from s injected = record s { injection = nothing }

abbrev pub free : SeatHeld → Kind → List ℕ → List ℕ
free s kind = filter_if (λ code. not (held_by_any s kind code))

unfoldable pub release : SeatHeld → InputSource → SeatHeld × HeldInput
release s source =
    let taken = own s source in
    let left = taken_from s source in
    (left, record { keys = free left key taken.keys; buttons = free left button taken.buttons })

-- What is passed on, from the clients' side: which keys and buttons have gone down and not up.
abbrev pub Seen : Type 0
Seen = Kind → ℕ → Bool

abbrev pub same_kind : Kind → Kind → Bool
same_kind key key = true
same_kind button button = true
same_kind _ _ = false

abbrev pub told : Seen → Kind → ℕ → Bool → Seen
told seen kind code pressed = λ k c. if same_kind k kind && c == code then pressed else seen k c

unfoldable pub told_up : Seen → Kind → List ℕ → Seen
told_up seen kind [] = seen
told_up seen kind (code ∷ codes) = told_up (told seen kind code false) kind codes

pub record Desk : Type 0 where
  pub held : SeatHeld
  pub seen : Seen

abbrev pub idle : Desk
idle = record { held = no_input; seen = λ k c. false }

pub data Event : Type 0 where
  transition : InputSource → Kind → ℕ → Bool → Event
  gone : InputSource → Event

-- A transition is passed on only where `note` says so (`inject_raw_keycode`, `inject_raw_button`, and
-- the handlers of physical input); what a source that goes still held is released, keys first
-- (`release_held_by`).
unfoldable pub on_event : Event → Desk → Desk
on_event (transition source kind code pressed) d =
    let (held, delivered) = note d.held source kind code pressed in
    record { held = held; seen = if delivered then told d.seen kind code pressed else d.seen }
on_event (gone source) d =
    let (held, released) = release d.held source in
    record {
      held = held;
      seen = told_up (told_up d.seen key released.keys) button released.buttons;
    }

unfoldable pub on_events : List Event → Desk → Desk
on_events [] d = d
on_events (e ∷ es) d = on_events es (on_event e d)
