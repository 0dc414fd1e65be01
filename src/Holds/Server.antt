-- ===== src/Holds/Server.antt =====
-- The shared counts of crates/shoestring-remote-server/src/holds.rs at work: the sessions of
-- session.rs (`forward_input`), each with its own holds, the supervisor of main.rs, which resets the
-- counts when the gate closes, and what the window manager sees pressed. The mutex orders the
-- sessions' operations, and each delivery is made under it, so a history is a list of events.
use shoestring_wm.Prelude.{
  ℕ, Bool, false, Option, none, some, List, [], ◌∷◌, ◌++◌, if◌then◌else◌, ◌==◌, ◌&&◌, get_elem?,
  set, count_if,
}
use shoestring_wm.Holds.{SessionHolds, Counts, new, session, transition, end_session, reset}
use shoestring_wm.Holds.HeldSet.{Held, held_eq, contains}

pub record Server : Type 0 where
  pub inner : Counts
  pub sessions : List SessionHolds
  -- What the window manager has been told is down.
  pub pressed : Held → Bool

pub data Event : Type 0 where
  connect : Event
  input : ℕ → Held → Bool → Event
  leave : ℕ → Event
  -- The window manager releases what is injected, and the server, told of it, resets the counts.
  close_gate : Event

unfoldable pub init : Server
init = record { inner = new; sessions = []; pressed = λ h. false }

-- A delivered transition.
abbrev pub deliver : (Held → Bool) → Held → Bool → Held → Bool
deliver down h pressed k = if held_eq h k then pressed else down k

-- The releases that `forward_input` injects for a session that ends.
unfoldable pub release_all : (Held → Bool) → List Held → Held → Bool
release_all down [] = down
release_all down (h ∷ hs) = release_all (deliver down h false) hs

unfoldable pub on_input : Server → ℕ → Held → Bool → Option SessionHolds → Server
on_input s i h pressed none = s
on_input s i h pressed (some mine) =
    let (inner', mine', fires) = transition s.inner mine h pressed in
    record {
      inner = inner';
      sessions = set s.sessions i mine';
      pressed = if fires then deliver s.pressed h pressed else s.pressed;
    }

unfoldable pub on_leave : Server → ℕ → Option SessionHolds → Server
unfolding release_all
on_leave s i none = s
on_leave s i (some mine) =
    let (inner', mine', released) = end_session s.inner mine in
    record {
      inner = inner';
      sessions = set s.sessions i mine';
      pressed = release_all s.pressed released;
    }

-- When the gate closes the window manager lets go of all that was injected.
unfoldable pub step : Server → Event → Server
unfolding on_input on_leave
step s connect = record s { sessions = s.sessions ++ session s.inner ∷ [] }
step s (input i h pressed) = on_input s i h pressed (get_elem? s.sessions i)
step s (leave i) = on_leave s i (get_elem? s.sessions i)
step s close_gate = record s { inner = reset s.inner; pressed = λ h. false }

unfoldable pub run : Server → List Event → Server
unfolding step
run s [] = s
run s (e ∷ es) = run (step s e) es

-- A session that counts: of the current generation, with the key in its set.
abbrev pub holding : ℕ → Held → SessionHolds → Bool
holding generation h s = (s.generation == generation) && contains h s.held

-- How many sessions of the current generation hold a key.
abbrev pub holders : Server → Held → ℕ
holders s h = count_if (holding s.inner.generation h) s.sessions
