-- ===== src/Holds/Examples.antt =====
-- The theorems of `Holds.Seat` at concrete histories, and runs of holds.rs's own tests.
use shoestring_wm.Prelude.{◌++◌, ◌≡◌, refl, true, false, List, [], ◌∷◌, arith}
use shoestring_wm.Holds.{SessionHolds, transition, end_session, reset}
use shoestring_wm.Holds.HeldSet.{Held, key, button, contains, insert_sorted}
use shoestring_wm.Holds.Server.{Event, connect, input, leave, init, run}
use shoestring_wm.Holds.Seat.{
  pressed_iff_held, delivery_alternates, released_iff_last, reset_isolates,
}

abbrev shift : Held
shift = key 42

abbrev left : Held
left = button 272

-- Two viewers hold Shift, and the first also drags.
abbrev chord : List Event
chord = connect ∷ connect ∷ input 0 shift true ∷ input 0 left true ∷ input 1 shift true ∷ []

abbrev first_session : SessionHolds
first_session = record { generation = 0; held = shift ∷ left ∷ [] }

abbrev second_session : SessionHolds
second_session = record { generation = 0; held = shift ∷ [] }

pressed_iff_held_example : (run init chord).pressed shift ≡ true
unfolding run init transition end_session insert_sorted
pressed_iff_held_example = pressed_iff_held chord shift (omega arith)

delivery_alternates_example : (run init chord).pressed left ≡ true
unfolding run init transition end_session insert_sorted
delivery_alternates_example =
    delivery_alternates chord 0 first_session (omega arith) refl left false refl

released_iff_last_example :
    contains shift (end_session (run init chord).inner second_session).2 ≡ false
unfolding run init transition end_session insert_sorted
released_iff_last_example = released_iff_last chord 1 second_session (omega arith) refl shift

reset_isolates_example :
    let inner = reset (run init chord).inner in
    (transition inner first_session left false ≡ (inner, first_session, false))
    × ((end_session inner first_session).0 ≡ inner)
    × ((end_session inner first_session).2 ≡ [])
unfolding run init transition end_session insert_sorted
reset_isolates_example = reset_isolates chord 0 first_session (omega arith) refl left false

-- `ending_a_session_releases_only_what_nobody_else_holds`.
end_releases_left : (end_session (run init chord).inner first_session).2 ≡ left ∷ []
unfolding run init transition end_session insert_sorted
end_releases_left = refl

end_keeps_shift : (run init (chord ++ leave 0 ∷ [])).pressed shift ≡ true
unfolding run init transition end_session insert_sorted
end_keeps_shift = refl
