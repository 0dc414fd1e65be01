-- ===== src/Lease/Examples.antt =====
-- The theorems about src/remote_lease.rs at a concrete session.
use shoestring_wm.Prelude.{◌*◌, ◌≡◌, refl, arith, true, false, none, some, List, [], ◌∷◌}
use shoestring_wm.Lease.{Lease, second, deadline}
use shoestring_wm.Lease.Gate.{
  Event, register_server, set_remote_asked, viewers_reported, timer_due, on_event, on_events,
  started, set_remote, set_remote_request, check_remote_lease, report_remote_viewers,
}
use shoestring_wm.Lease.Enforced.{IsEnforced, history-IsEnforced, lease_ends}

-- A gate opened for an hour and, without viewers, five minutes, and a viewer who comes and goes.
abbrev session : List Event
session =
    register_server
    ∷ set_remote_asked true 1000 true (some 3600) (some 300)
    ∷ viewers_reported true 2000 1
    ∷ viewers_reported true (600 * second) 0
    ∷ []

history-IsEnforced_example : IsEnforced (on_events session started)
history-IsEnforced_example = history-IsEnforced session

session_timer : (on_events session started).remote_lease_timer ≡ some (900 * second)
unfolding on_events on_event set_remote_request set_remote check_remote_lease report_remote_viewers
    deadline
session_timer = refl

lease_ends_example :
    let after = on_event (timer_due false (900 * second)) (on_events session started) in
    (after.remote_enabled ≡ false)
    × (after.automation_enabled ≡ false)
    × (after.screen_capture_enabled ≡ false)
    × (after.remote_viewers ≡ 0)
    × (after.remote_lease ≡ none)
    × (after.remote_lease_timer ≡ none)
lease_ends_example =
    lease_ends session false (900 * second) (900 * second) session_timer (omega arith)

abbrev sample : Lease
sample = record { until = some (3 * second); idle = some second; idle_since = some 5 }
