-- ===== src/Seat/Clients.antt =====
-- What clients see of the input of src/inject.rs: the seat as a whole, whichever source holds what.
use shoestring_wm.Prelude.{
  ℕ, ◌≡◌, subst, refl, ap, sym, ◌∙◌, ◌==◌, ◌&&◌, ◌||◌, inl, inr, not, Bool, true, false, Bool-cases,
  List, [], ◌∷◌, arith, if◌then◌else◌,
}
use shoestring_wm.Seat.{
  Kind, key, button, InputSource, SeatHeld, codes_of, contains, own, held_by_device, held_by_any,
  held_by_other, note, taken_from, release, same_kind, Seen, told, told_up, Desk, idle, Event,
  transition, gone, on_event, on_events,
}
use shoestring_wm.Seat.Laws.{Distinct}
use shoestring_wm.Seat.Sources.{
  held_by_any_split, delivered_lem, Distinct-note, held_by_any-note, same_input,
  held_by_any-taken_from, Distinct-taken_from, contains-release, own-taken_from,
}

-- The seat and its clients agree: a key or a button is seen down exactly when some source holds it.
abbrev pub Agrees : Desk → Type 0
Agrees d = Distinct d.held.devices × ((k : Kind) (c : ℕ) → d.seen k c ≡ held_by_any d.held k c)

seen-delivered :
    (mine others pressed : Bool)
    → (if (if pressed then not mine else mine) && not others then pressed else mine || others)
      ≡ (pressed || others)
seen-delivered true true true = refl
seen-delivered true true false = refl
seen-delivered true false true = refl
seen-delivered true false false = refl
seen-delivered false true true = refl
seen-delivered false true false = refl
seen-delivered false false true = refl
seen-delivered false false false = refl

if_told :
    (delivered : Bool) (seen : Seen) (kind : Kind) (code : ℕ) (pressed : Bool) (k : Kind) (c : ℕ)
    → (if delivered then told seen kind code pressed else seen) k c ≡ (
        if same_kind k kind && c == code
        then (if delivered then pressed else seen k c)
        else seen k c)
if_told true seen kind code pressed k c = refl
if_told false seen kind code pressed k c = elim (Bool-cases (same_kind k kind && c == code)) [
  | inl same ↦ rw same refl
  | inr other ↦ rw other refl
]

seen_after :
    (d : Desk) (source : InputSource) (kind : Kind) (code : ℕ) (pressed : Bool)
    → Agrees d
    → (if (note d.held source kind code pressed).1 then pressed else d.seen kind code)
      ≡ (pressed || held_by_other d.held source kind code)
seen_after d source kind code pressed a =
    ap (λ b. if b then pressed else d.seen kind code)
      (delivered_lem d.held source kind code pressed)
    ∙ ap (λ b. if (if pressed then not mine else mine) && not others then pressed else b)
        (a.1 kind code ∙ held_by_any_split d.held source kind code a.0)
    ∙ seen-delivered mine others pressed
  where
    mine : Bool
    mine = contains code (codes_of kind (own d.held source))

    others : Bool
    others = held_by_other d.held source kind code

-- A transition the clients are told of, or not, leaves them in agreement with the seat.
transition-Agrees :
    (d : Desk) (source : InputSource) (kind : Kind) (code : ℕ) (pressed : Bool)
    → Agrees d
    → Agrees (on_event (transition source kind code pressed) d)
unfolding on_event
transition-Agrees d source kind code pressed a = (
  Distinct-note d.held source kind code pressed a.0,
  λ k c.
      if_told (note d.held source kind code pressed).1 d.seen kind code pressed k c
      ∙ elim (Bool-cases (same_kind k kind && c == code)) [
        | inl same ↦ rw same (seen_at k c (same_input k kind c code same))
        | inr other ↦ rw other (a.1 k c)
      ]
      ∙ sym (held_by_any-note d.held source kind code pressed k c a.0),
)
  where
    seen_at :
        (k : Kind) (c : ℕ)
        → (k ≡ kind) × (c ≡ code)
        → (if (note d.held source kind code pressed).1 then pressed else d.seen k c)
          ≡ (pressed || held_by_other d.held source k c)
    seen_at k c e =
        subst
          (λ x.
            (if (note d.held source kind code pressed).1 then pressed else d.seen x c)
            ≡ (pressed || held_by_other d.held source x c))
          (sym e.0)
          (subst
            (λ y.
              (if (note d.held source kind code pressed).1 then pressed else d.seen kind y)
              ≡ (pressed || held_by_other d.held source kind y))
            (sym e.1) (seen_after d source kind code pressed a))

up_or_told :
    (among down : Bool) (c code : ℕ)
    → (if among then false else (if c == code then false else down))
      ≡ (if (if code == c then true else among) then false else down)
up_or_told among down c code = ground arith

told_up_lem :
    (seen : Seen) (kind : Kind) (codes : List ℕ) (k : Kind) (c : ℕ)
    → told_up seen kind codes k c
      ≡ (if same_kind k kind && contains c codes then false else seen k c)
unfolding told_up
told_up_lem seen kind [] k c = elim (Bool-cases (same_kind k kind)) [
  | inl h ↦ rw h refl
  | inr h ↦ rw h refl
]
told_up_lem seen kind (code ∷ codes) k c =
    told_up_lem (told seen kind code false) kind codes k c ∙ elim (Bool-cases (same_kind k kind)) [
      | inl h ↦ rw h (up_or_told (contains c codes) (seen k c) c code)
      | inr h ↦ rw h refl
    ]

left-release : (s : SeatHeld) (source : InputSource) → (release s source).0 ≡ taken_from s source
unfolding release
left-release s source = refl

up_if_only : (mine others : Bool) → (if not others && mine then false else mine || others) ≡ others
up_if_only mine others = ground arith

gone_seen :
    (d : Desk) (source : InputSource) (k : Kind) (c : ℕ)
    → (on_event (gone source) d).seen k c
      ≡ (if contains c (codes_of k (release d.held source).1) then false else d.seen k c)
unfolding on_event
gone_seen d source key c =
    told_up_lem _ button (release d.held source).1.buttons key c
    ∙ told_up_lem d.seen key (release d.held source).1.keys key c
gone_seen d source button c =
    told_up_lem _ button (release d.held source).1.buttons button c
    ∙ ap (λ b. if contains c (release d.held source).1.buttons then false else b)
        (told_up_lem d.seen key (release d.held source).1.keys button c)

gone_seen_others :
    (d : Desk) (source : InputSource) (k : Kind) (c : ℕ)
    → Agrees d
    → (on_event (gone source) d).seen k c ≡ held_by_other d.held source k c
gone_seen_others d source k c a =
    gone_seen d source k c
    ∙ ap (λ b. if b then false else d.seen k c) (contains-release d.held source k c)
    ∙ ap
        (λ b.
          if not (held_by_other d.held source k c) && contains c (codes_of k (own d.held source))
          then false
          else b)
        (a.1 k c ∙ held_by_any_split d.held source k c a.0)
    ∙ up_if_only (contains c (codes_of k (own d.held source))) (held_by_other d.held source k c)

gone-Agrees : (d : Desk) (source : InputSource) → Agrees d → Agrees (on_event (gone source) d)
unfolding on_event release
gone-Agrees d source a = (
  Distinct-taken_from d.held source a.0,
  λ k c. gone_seen_others d source k c a ∙ sym (held_by_any-taken_from d.held source k c),
)

pub on_event-Agrees : (e : Event) (d : Desk) → Agrees d → Agrees (on_event e d)
on_event-Agrees (transition source kind code pressed) d a =
    transition-Agrees d source kind code pressed a
on_event-Agrees (gone source) d a = gone-Agrees d source a

on_events-Agrees : (es : List Event) (d : Desk) → Agrees d → Agrees (on_events es d)
unfolding on_events
on_events-Agrees [] d a = a
on_events-Agrees (e ∷ es) d a = on_events-Agrees es (on_event e d) (on_event-Agrees e d a)

pub idle-Agrees : Agrees idle
unfolding held_by_device
idle-Agrees = (
  tt,
  λ k c. elim k as (λ k. idle.seen k c ≡ held_by_any idle.held k c) [ key ↦ refl | button ↦ refl ],
)

-- After any events from an idle seat, a key or a button has been passed on as down, and not as up since,
-- exactly when some source of input holds it: no source can lift what another holds, and what no
-- source holds is up.
pub seen_iff_held :
    (es : List Event) (k : Kind) (c : ℕ)
    → (on_events es idle).seen k c ≡ held_by_any (on_events es idle).held k c
seen_iff_held es = (on_events-Agrees es idle idle-Agrees).1

-- After any events from an idle seat, a transition that `note` says to deliver is a change of what has
-- been passed on: a press of what is up, or a release of what is down.
pub delivered-Changes :
    (es : List Event) (source : InputSource) (kind : Kind) (code : ℕ) (pressed : Bool)
    → (note (on_events es idle).held source kind code pressed).1 ≡ true
    → (on_events es idle).seen kind code ≡ not pressed
delivered-Changes es source kind code pressed h =
    seen_iff_held es kind code
    ∙ held_by_any_split (on_events es idle).held source kind code
        (on_events-Agrees es idle idle-Agrees).0
    ∙ only_change _ _ pressed
        (sym (delivered_lem (on_events es idle).held source kind code pressed) ∙ h)
  where
    only_change :
        (mine others pressed : Bool)
        → ((if pressed then not mine else mine) && not others) ≡ true
        → (mine || others) ≡ not pressed
    only_change mine others pressed h = ground (arith, h)

-- After any events from an idle seat and the departure of a source, that source holds nothing, and what
-- has been passed on as down, and not as up, is what another source holds.
pub gone_lem :
    (es : List Event) (source : InputSource) (k : Kind) (c : ℕ)
    → ((on_event (gone source) (on_events es idle)).seen k c
        ≡ held_by_other (on_events es idle).held source k c)
      × (contains c (codes_of k (own (on_event (gone source) (on_events es idle)).held source))
          ≡ false)
unfolding on_event release
gone_lem es source k c = (
  gone_seen_others (on_events es idle) source k c (on_events-Agrees es idle idle-Agrees),
  own-taken_from (on_events es idle).held source k c,
)
