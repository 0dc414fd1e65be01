-- ===== src/Drag/Released.antt =====
-- What a drag of src/drag.rs leaves behind, over every history of requests, timers, disconnections,
-- gate changes, locks and local input.
use shoestring_wm.Prelude.{
  ℕ, ◌≡◌, refl, ap, ◌∙◌, subst, Bool, true, false, none, some, List, [], ◌∷◌, ◌⊎◌, inl, inr, ◌||◌,
}
use shoestring_wm.Seat.{
  Kind, key, button, nothing, HeldInput, contains, codes_of, held_by_device, idle,
}
use shoestring_wm.Seat.Clients.{idle-Agrees}
use shoestring_wm.Drag.{Wm, PendingDrag, Event, on_drag_event, on_drag_events}
use shoestring_wm.Drag.Invariant.{Inv, Allowed, Timed, on_drag_event-Inv}

-- Before the first event.
abbrev pub at_start : Bool → Wm
at_start automation_enabled = record {
  desk = idle;
  pending_drag = none;
  automation_enabled = automation_enabled;
  is_locked = false;
  alive = λ s. true;
  now = 0;
  trace = [];
}

at_start-Inv : (automation_enabled : Bool) → Inv (at_start automation_enabled)
at_start-Inv automation_enabled = (idle-Agrees, refl, tt, λ _. refl)

on_drag_events-Inv : (es : List Event) (wm : Wm) → Inv wm → Inv (on_drag_events es wm)
unfolding on_drag_events
on_drag_events-Inv [] wm v = v
on_drag_events-Inv (e ∷ es) wm v =
    on_drag_events-Inv es (on_drag_event e wm) (on_drag_event-Inv e wm v)

contains-nothing : (k : Kind) (c : ℕ) → contains c (codes_of k nothing) ≡ false
contains-nothing key c = refl
contains-nothing button c = refl

nothing_injected :
    (wm : Wm)
    → Inv wm
    → (wm.pending_drag ≡ none) ⊎ (wm.automation_enabled ≡ false)
    → wm.desk.held.injection ≡ nothing
nothing_injected wm v (inl over) = subst (λ p. Allowed p wm.desk.held.injection) over v.1
nothing_injected wm v (inr closed) = v.3 closed

-- After any events, while no drag is running, or the automation gate is closed, the keys and buttons
-- passed on as down, and not as up since, are exactly those that a physical device holds: the button
-- of a drag that completed, failed or was stopped is up.
pub no_drag_seen :
    (automation_enabled : Bool) (es : List Event) (k : Kind) (c : ℕ)
    → ((on_drag_events es (at_start automation_enabled)).pending_drag ≡ none)
      ⊎ ((on_drag_events es (at_start automation_enabled)).automation_enabled ≡ false)
    → (on_drag_events es (at_start automation_enabled)).desk.seen k c
      ≡ held_by_device k c (on_drag_events es (at_start automation_enabled)).desk.held.devices
no_drag_seen automation_enabled es k c quiet =
    let v : Inv (on_drag_events es (at_start automation_enabled)) =
      on_drag_events-Inv es (at_start automation_enabled) (at_start-Inv automation_enabled) in
    v.0.1 k c
    ∙ ap
        (λ (input : HeldInput).
          contains c (codes_of k input)
          || held_by_device k c (on_drag_events es (at_start automation_enabled)).desk.held.devices)
        (nothing_injected (on_drag_events es (at_start automation_enabled)) v quiet)
    ∙ ap
        (λ b.
          b
          || held_by_device k c (on_drag_events es (at_start automation_enabled)).desk.held.devices)
        (contains-nothing k c)

-- After any events, a drag that is pending has its timer set.
pub pending_timer :
    (automation_enabled : Bool) (es : List Event) (d : PendingDrag)
    → (on_drag_events es (at_start automation_enabled)).pending_drag ≡ some d
    → (due : ℕ) × (d.timer ≡ some due)
pending_timer automation_enabled es d p =
    subst Timed p
      (on_drag_events-Inv es (at_start automation_enabled) (at_start-Inv automation_enabled)).2
