-- ===== src/Viewers.antt =====
-- crates/shoestring-remote-server/src/viewers.rs: the count of connected viewers that is reported to the
-- compositor. The mutex makes each call one event; a u32 and a u64 wrap, and a report is recorded in
-- the order it is made, from the latest.
use shoestring_wm.Prelude.{
  ℕ, zero, suc, ◌+◌, ◌-◌, ◌==◌, Bool, true, false, Option, none, some, List, [], ◌∷◌, ◌++◌,
  if◌then◌else◌, u32, u64, get_elem?,
}
pub mod Counted
mod Examples

pub record Count : Type 0 where
  pub generation : ℕ
  pub viewers : ℕ

-- The count, and the reports made.
pub record Viewers : Type 0 where
  pub count : Count
  pub reports : List ℕ

-- A guard is the generation in which it joined.
pub record ViewerGuard : Type 0 where
  pub generation : ℕ

abbrev pub with_reporter : Viewers
with_reporter = record { count = record { generation = 0; viewers = 0 }; reports = [] }

abbrev report : Count → Viewers → Viewers
report c v = record { count = c; reports = c.viewers ∷ v.reports }

unfoldable pub join : Viewers → Viewers × ViewerGuard
join v = (
  report (record v.count { viewers = u32 (v.count.viewers + 1) }) v,
  record { generation = v.count.generation },
)

unfoldable pub reset : Viewers → Viewers
reset v = report (record { generation = u64 (v.count.generation + 1); viewers = 0 }) v

unfoldable pub leave : ℕ → Viewers → Viewers
leave generation v =
    if v.count.generation == generation
    then report (record v.count { viewers = v.count.viewers - 1 }) v
    else v

-- `Drop` of a guard.
abbrev pub drop : ViewerGuard → Viewers → Viewers
drop guard v = leave guard.generation v

-- The server with the guards that its sessions hold.
pub record Server : Type 0 where
  pub shared : Viewers
  pub guards : List ViewerGuard

pub data Event : Type 0 where
  connect : Event
  close_gate : Event
  end_session : ℕ → Event

abbrev pub at_start : Server
at_start = record { shared = with_reporter; guards = [] }

-- The i-th guard, and the others.
unfoldable pub taken_out : ℕ → List ViewerGuard → Option ViewerGuard × List ViewerGuard
taken_out i [] = (none, [])
taken_out zero (g ∷ gs) = (some g, gs)
taken_out (suc i) (g ∷ gs) = let (found, rest) = taken_out i gs in (found, g ∷ rest)

abbrev pub dropped : Option ViewerGuard × List ViewerGuard → Server → Server
dropped (none, rest) s = s
dropped (some g, rest) s = record { shared = drop g s.shared; guards = rest }

unfoldable pub on_viewer_event : Event → Server → Server
on_viewer_event connect s =
    let (shared, guard) = join s.shared in record { shared = shared; guards = guard ∷ s.guards }
on_viewer_event close_gate s = record s { shared = reset s.shared }
on_viewer_event (end_session i) s = dropped (taken_out i s.guards) s

unfoldable pub on_viewer_events : List Event → Server → Server
on_viewer_events [] s = s
on_viewer_events (e ∷ es) s = on_viewer_events es (on_viewer_event e s)
