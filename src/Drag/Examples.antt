-- ===== src/Drag/Examples.antt =====
-- Drags of src/drag.rs.
use shoestring_wm.Prelude.{
  ◌+◌, ◌≤◌, ◌<◌, ◌≡◌, refl, true, false, none, some, List, [], ◌∷◌, inl, inr,
}
use shoestring_wm.Seat.{
  button, note, release, insert_sorted, device, without, told_up, held_by_device,
  held_by_other_device, on_event,
}
use shoestring_wm.Drag.{
  DragPath, DragTiming, start, along, moved, button_changed, replied, released_at, gap, from_millis,
  from_request, start_drag, drag_tick, timer_fires, set_automation, on_drag, Event, request, fires,
  gate, on_drag_event, on_drag_events,
}
use shoestring_wm.Drag.Timing.{elapsed, Accepted, drag_takes}
use shoestring_wm.Drag.Released.{at_start, no_drag_seen}
use shoestring_wm.Drag.Complete.{fires_on_time, completed, drag_completes}

abbrev path : DragPath
path = record { held_button = 272; focus = some 3 }

abbrev four_steps : DragTiming
four_steps = record { hold = from_millis 100; duration = from_millis 400; steps = 4 }

-- A gate that closes and opens again between two motions releases the button, and the drag still goes on
-- to the end, which answers that it succeeded.
abbrev reopened : List Event
reopened =
    request true 7 true (inr path) (some 100) (some 200) (some 2)
    ∷ fires 0 true
    ∷ gate false
    ∷ gate true
    ∷ fires 0 true
    ∷ fires 0 true
    ∷ []

reopened_gate :
    (on_drag_events reopened (at_start true)).trace
    ≡ (from_millis 400, replied 7 none)
      ∷ (from_millis 300, moved (along 2 2))
      ∷ (from_millis 200, button_changed 272 false)
      ∷ (from_millis 200, moved (along 1 2))
      ∷ (0, button_changed 272 true)
      ∷ (0, moved start)
      ∷ []
unfolding on_drag_events on_drag_event on_drag from_request start_drag timer_fires drag_tick gap
    set_automation released_at on_event note release insert_sorted device without told_up
    held_by_device held_by_other_device
reopened_gate = refl

-- The gaps that the tests of src/drag.rs expect.
gaps :
    (gap four_steps 1 ≡ from_millis 200)
    × (gap four_steps 2 ≡ from_millis 100)
    × (gap four_steps 5 ≡ from_millis 100)
unfolding gap
gaps = (refl, refl, refl)

drag_takes_example :
    Accepted four_steps
    × (elapsed four_steps (4 + 1) ≤ four_steps.hold + four_steps.duration + four_steps.hold)
    × (four_steps.hold + four_steps.duration + four_steps.hold < elapsed four_steps (4 + 1) + 1000)
    × (elapsed four_steps (4 + 1) ≤ from_millis 180000)
unfolding from_request
drag_takes_example = drag_takes (some 100) (some 400) (some 4) four_steps refl

no_drag_seen_example :
    (on_drag_events reopened (at_start true)).desk.seen button 272
    ≡ held_by_device button 272 (on_drag_events reopened (at_start true)).desk.held.devices
unfolding on_drag_events on_drag_event on_drag from_request start_drag timer_fires drag_tick gap
    set_automation released_at on_event note release insert_sorted device without told_up
    held_by_device held_by_other_device
no_drag_seen_example = no_drag_seen true reopened button 272 (inl refl)

drag_completes_example :
    fires_on_time 5 (start_drag true 7 path four_steps (at_start true)).0
    ≡ completed 7 path four_steps (at_start true)
unfolding held_by_device
drag_completes_example = drag_completes 7 path four_steps (at_start true) refl refl refl refl
