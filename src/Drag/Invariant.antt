-- ===== src/Drag/Invariant.antt =====
-- The button of a drag of src/drag.rs: what raw injection holds on the seat while one runs, and after.
use shoestring_wm.Prelude.{
  ℕ, ◌+◌, ◌≡◌, refl, subst, sym, ap, ◌∙◌, leb, ◌==◌, ==_refl, ◌&&◌, not, Bool, true, false,
  Bool-cases, Option, none, some, [], ◌∷◌, if◌then◌else◌, ◌⊎◌, inl, inr,
}
use shoestring_wm.Seat.{
  Kind, button, physical, injected, HeldInput, nothing, insert_sorted, set_insert, set_remove, note,
  release, Desk, transition, gone, on_event,
}
use shoestring_wm.Seat.Clients.{Agrees, on_event-Agrees}
use shoestring_wm.Drag.{
  DragError, DragPath, DragTiming, PendingDrag, Wm, not_scheduled, automation_disabled,
  session_locked, inject_raw_button, cancel, finish_drag, arm, started, begin, start_drag, stop,
  sent, tick_unless, tick, drag_tick, fire, timer_fires, set_automation, from_request, and_start,
  on_drag, Event, request, fires, disconnect, gate, lock, unmap, local_input, unplug, wait,
  on_drag_event,
}

abbrev only : ℕ → HeldInput
only code = record { keys = []; buttons = code ∷ [] }

abbrev Holding : ℕ → HeldInput → Type 0
Holding code input = (input ≡ nothing) ⊎ (input ≡ only code)

-- What raw injection may hold, and that the timer of a drag is set.
abbrev pub Allowed : Option PendingDrag → HeldInput → Type 0
Allowed none input = input ≡ nothing
Allowed (some d) input = Holding d.path.held_button input

abbrev pub Timed : Option PendingDrag → Type 0
Timed none = Unit
Timed (some d) = (due : ℕ) × (d.timer ≡ some due)

abbrev pub Inv : Wm → Type 0
Inv wm =
    Agrees wm.desk
    × Allowed wm.pending_drag wm.desk.held.injection
    × Timed wm.pending_drag
    × (wm.automation_enabled ≡ false → wm.desk.held.injection ≡ nothing)

open_gate {ℓ} : {A : Type ℓ} {b : Bool} → b ≡ true → b ≡ false → A
open_gate o c = absurd (cc)

pressed-injection :
    (code : ℕ) (d : Desk)
    → d.held.injection ≡ nothing
    → (on_event (transition injected button code true) d).held.injection ≡ only code
unfolding on_event note insert_sorted
pressed-injection code d h =
    ap (λ (i : HeldInput). record i { buttons = (set_insert code i.buttons).0 }) h

released-injection :
    (code : ℕ) (d : Desk)
    → Holding code d.held.injection
    → (on_event (transition injected button code false) d).held.injection ≡ nothing
unfolding on_event note
released-injection code d (inl h) =
    ap (λ (i : HeldInput). record i { buttons = (set_remove code i.buttons).0 }) h
released-injection code d (inr h) =
    ap (λ (i : HeldInput). record i { buttons = (set_remove code i.buttons).0 }) h
    ∙ ap (λ b. record { keys = []; buttons = if not b then code ∷ [] else [] }) (==_refl code)

local-injection :
    (id : ℕ) (kind : Kind) (code : ℕ) (pressed : Bool) (d : Desk)
    → (on_event (transition (physical id) kind code pressed) d).held.injection ≡ d.held.injection
unfolding on_event note
local-injection id kind code pressed d = refl

unplug-injection :
    (id : ℕ) (d : Desk) → (on_event (gone (physical id)) d).held.injection ≡ d.held.injection
unfolding on_event release
unplug-injection id d = refl

closed-injection : (d : Desk) → (on_event (gone injected) d).held.injection ≡ nothing
unfolding on_event release
closed-injection d = refl

up-Inv :
    (drag : PendingDrag) (wm : Wm)
    → Agrees wm.desk
    → Holding drag.path.held_button wm.desk.held.injection
    → Inv (inject_raw_button drag.path.held_button false (record wm { pending_drag = none }))
up-Inv drag wm a h = (
  on_event-Agrees (transition injected button drag.path.held_button false) wm.desk a,
  released-injection drag.path.held_button wm.desk h,
  tt,
  λ closed. released-injection drag.path.held_button wm.desk h,
)

-- The button comes up, and the reply goes out.
end-Inv :
    (drag : PendingDrag) (result : Option DragError) (wm : Wm)
    → Agrees wm.desk
    → Holding drag.path.held_button wm.desk.held.injection
    → Inv (
        finish_drag drag result
          (inject_raw_button drag.path.held_button false (record wm { pending_drag = none })))
end-Inv drag result wm a h = up-Inv drag wm a h

arm-Inv :
    (inserted : Bool) (drag : PendingDrag) (wm : Wm)
    → Agrees wm.desk
    → Holding drag.path.held_button wm.desk.held.injection
    → wm.automation_enabled ≡ true
    → Inv (arm inserted (some drag) wm)
arm-Inv true drag wm a h o = (a, h, (_, refl), open_gate o)
arm-Inv false drag wm a h o = end-Inv drag (some not_scheduled) wm a h

begin-Inv :
    (inserted : Bool) (id : ℕ) (path : DragPath) (timing : DragTiming) (p : Option PendingDrag)
    (wm : Wm)
    → wm.pending_drag ≡ p
    → wm.automation_enabled ≡ true
    → Inv wm
    → Inv (begin inserted id path timing p wm).0
begin-Inv inserted id path timing (some other) wm e o v = v
begin-Inv inserted id path timing none wm e o v =
    arm-Inv inserted (started id path timing wm) _
      (on_event-Agrees (transition injected button path.held_button true) wm.desk v.0)
      (inr (
        pressed-injection path.held_button wm.desk
          (subst (λ p. Allowed p wm.desk.held.injection) e v.1)))
      o

tick_unless-Inv :
    (inserted : Bool) (refused : Option DragError) (drag : PendingDrag) (wm : Wm)
    → Agrees wm.desk
    → Holding drag.path.held_button wm.desk.held.injection
    → wm.automation_enabled ≡ true
    → Inv (tick_unless inserted refused drag (record wm { pending_drag = none }))
tick_unless-Inv inserted (some message) drag wm a h o = end-Inv drag (some message) wm a h
tick_unless-Inv inserted none drag wm a h o = elim (Bool-cases (leb drag.next drag.timing.steps)) [
  | inl more ↦ rw more (arm-Inv inserted (sent wm drag) _ a h o)
  | inr over ↦ rw over (end-Inv drag none wm a h)
]

-- The gate's closing has released the button.
tick-Inv :
    (inserted : Bool) (drag : PendingDrag) (wm : Wm)
    → Agrees wm.desk
    → Holding drag.path.held_button wm.desk.held.injection
    → (wm.automation_enabled ≡ false → wm.desk.held.injection ≡ nothing)
    → Inv (tick inserted (some drag) wm)
tick-Inv inserted drag wm a h c = elim (Bool-cases wm.automation_enabled) [
  | inl o ↦ subst after (sym o) (tick_unless-Inv inserted (stop wm drag) drag wm a h o)
  | inr closed ↦ subst after (sym closed) (a, c closed, tt, λ _. c closed)
]
  where
    taken : Wm
    taken = record wm { pending_drag = none }

    after : Bool → Type 0
    after b = Inv (
        if not b
        then finish_drag drag (some automation_disabled) taken
        else tick_unless inserted (stop wm drag) drag taken)

fire-Inv :
    (late : ℕ) (inserted : Bool) (p : Option PendingDrag) (wm : Wm)
    → wm.pending_drag ≡ p
    → Inv wm
    → Inv (fire late inserted p wm)
unfolding drag_tick
fire-Inv late inserted none wm e v = v
fire-Inv late inserted (some drag) wm e v = fired (subst Timed e v.2)
  where
    held : Holding drag.path.held_button wm.desk.held.injection
    held = subst (λ p. Allowed p wm.desk.held.injection) e v.1

    fired : Timed (some drag) → Inv (fire late inserted (some drag) wm)
    fired (due, set) =
        subst (λ t. Inv (fire late inserted (some (record drag { timer = t })) wm)) (sym set)
          (tick-Inv inserted (record drag { timer = none }) (record wm { now = due + late }) v.0
            held v.3)

cancel-Inv :
    (id : ℕ) (p : Option PendingDrag) (wm : Wm)
    → wm.pending_drag ≡ p
    → Inv wm
    → Inv (cancel id p wm)
cancel-Inv id none wm e v = v
cancel-Inv id (some drag) wm e v = elim (Bool-cases (drag.client_id == id)) [
  | inl mine ↦ rw mine (up-Inv drag wm v.0 (subst (λ p. Allowed p wm.desk.held.injection) e v.1))
  | inr other ↦ rw other v
]

and_start-Inv :
    (inserted : Bool) (id : ℕ) (timing : DragError ⊎ DragTiming) (resolved : DragError ⊎ DragPath)
    (wm : Wm)
    → wm.automation_enabled ≡ true
    → Inv wm
    → Inv (and_start inserted id timing resolved wm).0
unfolding start_drag
and_start-Inv inserted id (inl e) resolved wm o v = v
and_start-Inv inserted id (inr timing) (inl e) wm o v = v
and_start-Inv inserted id (inr timing) (inr path) wm o v =
    begin-Inv inserted id path timing wm.pending_drag wm refl o v

on_drag-Inv :
    (inserted : Bool) (id : ℕ) (targeted : Bool) (resolved : DragError ⊎ DragPath)
    (hold_ms duration_ms steps : Option ℕ) (wm : Wm)
    → Inv wm
    → Inv (on_drag inserted id targeted resolved hold_ms duration_ms steps wm).0
unfolding on_drag
on_drag-Inv inserted id targeted resolved hold_ms duration_ms steps wm v =
    elim (Bool-cases wm.automation_enabled) [
      | inl o ↦
          subst (λ b. Inv (after b (targeted && wm.is_locked)).0) (sym o)
            (elim (Bool-cases (targeted && wm.is_locked)) [
              | inl locked ↦ subst (λ b. Inv (after true b).0) (sym locked) v
              | inr unlocked ↦
                  subst (λ b. Inv (after true b).0) (sym unlocked)
                    (and_start-Inv inserted id (from_request hold_ms duration_ms steps) resolved wm
                      o v)
            ])
      | inr closed ↦ subst (λ b. Inv (after b (targeted && wm.is_locked)).0) (sym closed) v
    ]
  where
    after : Bool → Bool → Wm × Option DragError
    after enabled locked =
        if not enabled
        then (wm, some automation_disabled)
        else if locked
        then (wm, some session_locked)
        else and_start inserted id (from_request hold_ms duration_ms steps) resolved wm

gate-Inv : (enabled : Bool) (wm : Wm) → Inv wm → Inv (set_automation enabled wm)
unfolding set_automation
gate-Inv true wm v = (v.0, v.1, v.2, open_gate refl)
gate-Inv false wm v = (
  on_event-Agrees (gone injected) wm.desk v.0,
  none_allowed wm.pending_drag (closed-injection wm.desk),
  v.2,
  λ closed. closed-injection wm.desk,
)
  where
    none_allowed : (p : Option PendingDrag) {input : HeldInput} → input ≡ nothing → Allowed p input
    none_allowed none h = h
    none_allowed (some d) h = inl h

-- Other input leaves what raw injection holds as it is.
other-Inv :
    (desk : Desk) (wm : Wm)
    → Agrees desk
    → desk.held.injection ≡ wm.desk.held.injection
    → Inv wm
    → Inv (record wm { desk = desk })
other-Inv desk wm a same v =
    (a, subst (Allowed wm.pending_drag) (sym same) v.1, v.2, λ closed. same ∙ v.3 closed)

pub on_drag_event-Inv : (e : Event) (wm : Wm) → Inv wm → Inv (on_drag_event e wm)
unfolding on_drag_event timer_fires
on_drag_event-Inv (request inserted id targeted resolved hold_ms duration_ms steps) wm v =
    on_drag-Inv inserted id targeted resolved hold_ms duration_ms steps wm v
on_drag_event-Inv (fires late inserted) wm v = fire-Inv late inserted wm.pending_drag wm refl v
on_drag_event-Inv (disconnect id) wm v = cancel-Inv id wm.pending_drag wm refl v
on_drag_event-Inv (gate enabled) wm v = gate-Inv enabled wm v
on_drag_event-Inv (lock locked) wm v = v
on_drag_event-Inv (unmap s) wm v = v
on_drag_event-Inv (local_input id kind code pressed) wm v =
    other-Inv _ wm (on_event-Agrees (transition (physical id) kind code pressed) wm.desk v.0)
      (local-injection id kind code pressed wm.desk) v
on_drag_event-Inv (unplug id) wm v =
    other-Inv _ wm (on_event-Agrees (gone (physical id)) wm.desk v.0) (unplug-injection id wm.desk)
      v
on_drag_event-Inv (wait n) wm v = v
