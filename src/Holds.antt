-- ===== src/Holds.antt =====
-- crates/shoestring-remote-server/src/holds.rs: which keys and buttons the connected viewers hold.
-- `HeldSet` is the session's BTreeSet, an ascending list; the shared HashMap is a function from keys
-- to optional counts. The mutex makes each operation one step, so an operation is a function on the
-- shared counts and the session it is called with, and returns both with its result. A `deliver` or
-- `release` closure runs inside the step: its effect is written by the caller (`Holds.Server`).
pub mod HeldSet
pub mod Server
pub mod Local
pub mod Invariant
pub mod Seat
mod Examples
use shoestring_wm.Prelude.{
  ℕ, ◌+◌, ◌-◌, Bool, true, false, Option, none, some, List, [], ◌∷◌, if◌then◌else◌, ltb, ◌==◌, u64,
}
use HeldSet.{Held, held_eq, contains, set_insert, set_remove}

-- `SessionHolds`: what one session holds, in the generation it started in.
pub record SessionHolds : Type 0 where
  pub generation : ℕ
  pub held : List Held

-- `Counts`: how many sessions of the current generation hold each key or button.
pub record Counts : Type 0 where
  pub generation : ℕ
  pub counts : Held → Option ℕ

abbrev pub no_counts : Held → Option ℕ
no_counts h = none

-- `Holds::new`.
abbrev pub new : Counts
new = record { generation = 0; counts = no_counts }

-- The entry of one key set anew.
abbrev pub put : (Held → Option ℕ) → Held → Option ℕ → Held → Option ℕ
put m h v k = if held_eq h k then v else m k

-- `Holds::session`.
abbrev pub session : Counts → SessionHolds
session inner = record { generation = inner.generation; held = [] }

-- `Holds::drop_one` on the entry that it finds: whether that was the last holder.
pub drop_entry : (Held → Option ℕ) → Held → Option ℕ → (Held → Option ℕ) × Bool
drop_entry m h none = (m, false)
drop_entry m h (some n) = if ltb 1 n then (put m h (some (n - 1)), false) else (put m h none, true)

pub drop_one : (Held → Option ℕ) → Held → (Held → Option ℕ) × Bool
unfolding drop_entry
drop_one m h = drop_entry m h (m h)

-- `entry(held).or_insert(0)`, read.
abbrev pub or_zero : Option ℕ → ℕ
or_zero none = 0
or_zero (some n) = n

-- The `pressed` branch of `Holds::record`.
pub press : Counts → SessionHolds → Held → Counts × SessionHolds × Bool
press inner mine h =
    let (set, fresh) = set_insert h mine.held in
    let n = u64 (or_zero (inner.counts h) + 1) in
    if fresh
    then (record inner { counts = put inner.counts h (some n) }, record mine { held = set }, n == 1)
    else (inner, mine, false)

-- Its other branch.
pub let_go : Counts → SessionHolds → Held → Counts × SessionHolds × Bool
unfolding drop_one
let_go inner mine h =
    let (set, was) = set_remove h mine.held in
    let (m, last) = drop_one inner.counts h in
    if was
    then (record inner { counts = m }, record mine { held = set }, last)
    else (inner, mine, false)

-- `Holds::record`, and so `transition` and the test of `transition_then`.
unfoldable pub transition : Counts → SessionHolds → Held → Bool → Counts × SessionHolds × Bool
unfolding press let_go
transition inner mine h pressed =
    if mine.generation == inner.generation
    then (if pressed then press inner mine h else let_go inner mine h)
    else (inner, mine, false)

-- The loop of `end_then`: drop each key in turn, and keep those that now have no holder.
pub drop_all : (Held → Option ℕ) → List Held → (Held → Option ℕ) × List Held
unfolding drop_one
drop_all m [] = (m, [])
drop_all m (h ∷ hs) =
    let (m', last) = drop_one m h in
    let (m'', released) = drop_all m' hs in (m'', if last then h ∷ released else released)

-- `Holds::end`, and the list that `end_then` hands to `release`.
unfoldable pub end_session : Counts → SessionHolds → Counts × SessionHolds × List Held
unfolding drop_all
end_session inner mine =
    let taken = record mine { held = [] } in
    let (m, released) = drop_all inner.counts mine.held in
    if mine.generation == inner.generation
    then (record inner { counts = m }, taken, released)
    else (inner, taken, [])

-- `Holds::reset`.
unfoldable pub reset : Counts → Counts
reset inner = record { generation = u64 (inner.generation + 1); counts = no_counts }
