-- ===== src/Drag/Complete.antt =====
-- A drag of src/drag.rs that nothing stops: its motions, its release and when they come.
use shoestring_wm.Prelude.{
  ℕ, zero, suc, ◌+◌, ◌≡◌, ◌≤◌, refl, ap, ◌∙◌, Bool, true, false, Option, none, some, ◌∷◌, arith,
  leb, ◌&&◌, ◌||◌, not, ==_refl, if◌then◌else◌,
}
use shoestring_wm.Seat.{
  note, held_by_any, held_by_other, contains, Desk, button, injected, transition, on_event,
}
use shoestring_wm.Seat.Sources.{delivered_lem, own-note, held_by_other-note}
use shoestring_wm.Drag.{
  DragPath, DragTiming, PendingDrag, Wm, begin, Trace, moved, button_changed, replied,
  inject_raw_button, drag_motion, start, along, gap, focus_gone, start_drag, drag_tick, timer_fires,
}
use shoestring_wm.Drag.Timing.{elapsed}

-- The timer fires that often, each time at its deadline, and is set again.
unfoldable pub fires_on_time : ℕ → Wm → Wm
fires_on_time zero wm = wm
fires_on_time (suc n) wm = timer_fires 0 true (fires_on_time n wm)

abbrev press : DragPath → Desk → Desk
press path desk = on_event (transition injected button path.held_button true) desk

-- The first `k` motions along a drag that began at `time`, each when it is due, from the latest.
unfoldable pub motions_to : ℕ → DragTiming → ℕ → Trace → Trace
motions_to zero timing time before = before
motions_to (suc k) timing time before =
    (time + elapsed timing (suc k), moved (along (suc k) timing.steps))
    ∷ motions_to k timing time before

never_locked : (locked : Bool) → (locked && not locked) ≡ false
never_locked true = refl
never_locked false = refl

up_everywhere : (mine others : Bool) → (mine || others) ≡ false → (not mine && not others) ≡ true
up_everywhere mine others h = ground (arith, h)

others_up : (mine others : Bool) → (mine || others) ≡ false → others ≡ false
others_up mine others h = ground (arith, h)

module _ (id : ℕ) (path : DragPath) (timing : DragTiming) (wm : Wm) where
  -- The last event was at `time`, and the next is `next`.
  running : ℕ → ℕ → Option ℕ → PendingDrag
  running time next timer = record {
    client_id = id;
    path = path;
    timing = timing;
    last = time;
    next = next;
    locked_at_start = wm.is_locked;
    timer = timer;
  }

  midway : ℕ → ℕ → Trace → Wm
  midway time next trace = record wm {
    desk = press path wm.desk;
    now = time;
    trace = trace;
    pending_drag = some (running time next (some (time + gap timing next)));
  }

  -- The button released and the reply sent, at `time`.
  ended : ℕ → Trace → Wm
  ended time trace =
      let up =
        inject_raw_button path.held_button false (record wm {
          desk = press path wm.desk;
          pending_drag = none;
          now = time;
          trace = trace;
        }) in
      record up { trace = (time, replied id none) ∷ up.trace }

  -- The motion to the start and, where it is delivered, the press.
  pressed_trace : Trace
  pressed_trace = (inject_raw_button path.held_button true (drag_motion start wm)).trace

  -- What goes out: the motion to the start, the press, a motion along each step, the release, the reply.
  abbrev pub drag_trace : Trace
  drag_trace =
      (wm.now + elapsed timing (suc timing.steps), replied id none)
      ∷ (wm.now + elapsed timing (suc timing.steps), button_changed path.held_button false)
      ∷ motions_to timing.steps timing wm.now
          ((wm.now, button_changed path.held_button true) ∷ (wm.now, moved start) ∷ wm.trace)

  abbrev pub completed : Wm
  completed = record wm {
    desk = on_event (transition injected button path.held_button false) (press path wm.desk);
    pending_drag = none;
    now = wm.now + elapsed timing (suc timing.steps);
    trace = drag_trace;
  }

  begun :
      wm.pending_drag ≡ none
      → start_drag true id path timing wm ≡ (midway wm.now 1 pressed_trace, none)
  unfolding start_drag midway running pressed_trace
  begun free = ap (λ p. begin true id path timing p wm) free

  motion :
      (time next : ℕ) (trace : Trace)
      → wm.automation_enabled ≡ true
      → focus_gone wm path.focus ≡ false
      → leb next timing.steps ≡ true
      → timer_fires 0 true (midway time next trace)
        ≡ midway
            (time + gap timing next + 0)
            (next + 1)
            ((time + gap timing next + 0, moved (along next timing.steps)) ∷ trace)
  unfolding timer_fires drag_tick midway running
  motion time next trace o there more =
      rw o (rw (never_locked wm.is_locked) (rw there (rw more refl)))

  over :
      (time next : ℕ) (trace : Trace)
      → wm.automation_enabled ≡ true
      → focus_gone wm path.focus ≡ false
      → leb next timing.steps ≡ false
      → timer_fires 0 true (midway time next trace) ≡ ended (time + gap timing next + 0) trace
  unfolding timer_fires drag_tick midway running ended
  over time next trace o there more =
      rw o (rw (never_locked wm.is_locked) (rw there (rw more refl)))

  motions_sent :
      (k : ℕ)
      → wm.pending_drag ≡ none
      → wm.automation_enabled ≡ true
      → focus_gone wm path.focus ≡ false
      → k ≤ timing.steps
      → fires_on_time k (start_drag true id path timing wm).0
        ≡ midway (wm.now + elapsed timing k) (suc k) (motions_to k timing wm.now pressed_trace)
  unfolding fires_on_time motions_to
  motions_sent zero free o there h =
      ap (λ r. r.0) (begun free) ∙ ap (λ t. midway t 1 pressed_trace) (omega arith)
  motions_sent (suc k) free o there h =
      ap (timer_fires 0 true) (motions_sent k free o there (omega arith))
      ∙ motion (wm.now + elapsed timing k) (suc k) (motions_to k timing wm.now pressed_trace) o
          there (ground arith)
      ∙ ap
          (λ t.
            midway t (suc k + 1)
              ((t, moved (along (suc k) timing.steps)) ∷ motions_to k timing wm.now pressed_trace))
          {y = wm.now + elapsed timing (suc k)} (omega arith)
      ∙ ap
          (λ n.
            midway (wm.now + elapsed timing (suc k)) n
              (motions_to (suc k) timing wm.now pressed_trace))
          (omega arith)

  -- Where no source holds the button, both its changes are delivered.
  press_delivered :
      held_by_any wm.desk.held button path.held_button ≡ false
      → (note wm.desk.held injected button path.held_button true).1 ≡ true
  press_delivered up =
      delivered_lem wm.desk.held injected button path.held_button true
      ∙ up_everywhere (contains path.held_button wm.desk.held.injection.buttons) _ up

  release_delivered :
      held_by_any wm.desk.held button path.held_button ≡ false
      → (note (press path wm.desk).held injected button path.held_button false).1 ≡ true
  unfolding on_event
  release_delivered up =
      delivered_lem _ injected button path.held_button false
      ∙ ap
          (λ b. b && not (held_by_other (press path wm.desk).held injected button path.held_button))
          (own-note wm.desk.held injected button path.held_button true button path.held_button
            ∙ ap (λ b. if b then true else contains path.held_button wm.desk.held.injection.buttons)
                (==_refl path.held_button))
      ∙ ap not (
          held_by_other-note wm.desk.held injected button path.held_button true button
            path.held_button
          ∙ others_up (contains path.held_button wm.desk.held.injection.buttons) _ up)

  -- A drag that starts with no other pending, with the gate open, the window there and its button held
  -- by no source, on an event loop that takes its timers and fires them at their deadlines, is over at
  -- the firing after its last step. What it sends is, in this order: the motion to the start and the
  -- press at once, a motion along each step in turn, then the release and the reply, each at the time
  -- that the timing gives it.
  pub drag_completes :
      wm.pending_drag ≡ none
      → wm.automation_enabled ≡ true
      → focus_gone wm path.focus ≡ false
      → held_by_any wm.desk.held button path.held_button ≡ false
      → fires_on_time (suc timing.steps) (start_drag true id path timing wm).0 ≡ completed
  unfolding fires_on_time ended pressed_trace
  drag_completes free o there up =
      ap (timer_fires 0 true) (motions_sent timing.steps free o there (omega arith))
      ∙ over (wm.now + elapsed timing timing.steps) (suc timing.steps)
          (motions_to timing.steps timing wm.now pressed_trace) o there (ground arith)
      ∙ ap (λ t. ended t (motions_to timing.steps timing wm.now pressed_trace))
          {y = wm.now + elapsed timing (suc timing.steps)} (omega arith)
      ∙ ap
          (λ b. ended (wm.now + elapsed timing (suc timing.steps)) (
            motions_to timing.steps timing wm.now (
              if b
              then (wm.now, button_changed path.held_button true) ∷ (wm.now, moved start) ∷ wm.trace
              else (wm.now, moved start) ∷ wm.trace)))
          (press_delivered up)
      ∙ ap
          (λ b.
            let trace : Trace =
              motions_to timing.steps timing wm.now (
                (wm.now, button_changed path.held_button true)
                ∷ (wm.now, moved start)
                ∷ wm.trace) in
            let time : ℕ = wm.now + elapsed timing (suc timing.steps) in
            let w : Wm = record completed {
              trace =
                  (time, replied id none)
                  ∷ (if b then (time, button_changed path.held_button false) ∷ trace else trace);
            } in
            w)
          (release_delivered up)
