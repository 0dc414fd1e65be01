-- ===== src/Seat/Examples.antt =====
-- A viewer and two keyboards on the seat of src/inject.rs.
use shoestring_wm.Prelude.{◌≡◌, refl, not, true, false, List, [], ◌∷◌}
use shoestring_wm.Seat.{
  key, button, physical, injected, contains, codes_of, own, held_by_any, held_by_other,
  held_by_device, held_by_other_device, note, release, insert_sorted, device, without, told_up,
  idle, Event, transition, gone, on_event, on_events,
}
use shoestring_wm.Seat.Clients.{seen_iff_held, delivered-Changes, gone_lem}

abbrev shared_key : List Event
shared_key =
    transition (physical 1) key 38 true
    ∷ transition injected key 38 true
    ∷ transition injected button 272 true
    ∷ transition (physical 1) key 38 false
    ∷ []

-- The viewer still holds the key that the keyboard has released.
still_down : (on_events shared_key idle).seen key 38 ≡ true
unfolding on_events on_event note release insert_sorted device without told_up held_by_device
    held_by_other_device
still_down = refl

second_press : (note (on_events shared_key idle).held (physical 2) key 38 true).1 ≡ false
unfolding on_events on_event note release insert_sorted device without told_up held_by_device
    held_by_other_device
second_press = refl

seen_iff_held_example :
    (on_events shared_key idle).seen key 38 ≡ held_by_any (on_events shared_key idle).held key 38
seen_iff_held_example = seen_iff_held shared_key key 38

delivered-Changes_example : (on_events shared_key idle).seen key 40 ≡ not true
unfolding on_events on_event note release insert_sorted device without told_up held_by_device
    held_by_other_device
delivered-Changes_example = delivered-Changes shared_key (physical 2) key 40 true refl

gone_lem_example :
    ((on_event (gone injected) (on_events shared_key idle)).seen key 38
      ≡ held_by_other (on_events shared_key idle).held injected key 38)
    × (contains 38
          (codes_of key (own (on_event (gone injected) (on_events shared_key idle)).held injected))
        ≡ false)
gone_lem_example = gone_lem shared_key injected key 38
