-- ===== src/Lease/Gate.antt =====
-- The remote gate and the lease's timer: src/remote_lease.rs, `set_automation` and `set_remote` of
-- src/state.rs, and the requests and the disconnection of src/ipc.rs that touch them. `inserted` says
-- of an event whether the event loop takes a timer at it.
use shoestring_wm.Prelude.{
  ℕ, ◌*◌, ◌==◌, ◌&&◌, ◌||◌, Bool, true, false, Option, none, some, if◌then◌else◌, ltb, not, List,
  [], ◌∷◌,
}
use shoestring_wm.Lease.{Lease, second, remote_lease_max_secs, new, viewers_changed, deadline_of}

pub record Wm : Type 0 where
  pub remote_enabled : Bool
  pub automation_enabled : Bool
  pub screen_capture_enabled : Bool
  -- A server is registered.
  pub remote_server : Bool
  pub remote_viewers : ℕ
  pub remote_lease : Option Lease
  -- The time at which the registered timer is due.
  pub remote_lease_timer : Option ℕ

-- With the deadline that the lease has.
abbrev pub arm_for : Bool → Wm → Option ℕ → Wm × Bool
arm_for inserted wm none = (record wm { remote_lease_timer = none }, true)
arm_for true wm (some at) = (record wm { remote_lease_timer = some at }, true)
arm_for false wm (some at) = (record wm { remote_lease_timer = none }, false)

abbrev pub arm_remote_lease : Bool → Wm → Wm × Bool
arm_remote_lease inserted wm = arm_for inserted wm (deadline_of wm.remote_lease)

abbrev pub set_remote_lease : Bool → Option Lease → Wm → Wm × Bool
set_remote_lease inserted lease wm = arm_remote_lease inserted (record wm { remote_lease = lease })

-- The gates only: releasing input and ending captures are left out.
abbrev pub set_automation : Bool → Wm → Wm
set_automation enabled wm = record wm {
  automation_enabled = enabled;
  screen_capture_enabled = enabled;
}

-- Clearing a lease needs no timer.
unfoldable pub set_remote : Bool → Wm → Wm
set_remote enabled wm =
    let cleared = (set_remote_lease false none (record wm { remote_enabled = enabled })).0 in
    let coupled = set_automation enabled cleared in
    if enabled then coupled else record coupled { remote_viewers = 0 }

-- `turn_remote(false)`, without what it tells subscribers.
abbrev pub remote_lease_fail_closed : Wm → Wm
remote_lease_fail_closed wm = set_remote false wm

abbrev pub or_fail_closed : Wm × Bool → Wm
or_fail_closed (wm, true) = wm
or_fail_closed (wm, false) = remote_lease_fail_closed wm

abbrev pub remote_lease_viewers_changed : Bool → ℕ → Wm → Option Lease → Wm
remote_lease_viewers_changed inserted now wm none = wm
remote_lease_viewers_changed inserted now wm (some l) = or_fail_closed (
    arm_remote_lease inserted
      (record wm { remote_lease = some (viewers_changed l now wm.remote_viewers) }))

abbrev pub tick_at : Bool → ℕ → Wm → Option ℕ → Wm
tick_at inserted now wm none = wm
tick_at inserted now wm (some at) =
    let later = or_fail_closed (arm_remote_lease inserted wm) in
    if ltb now at then later else set_remote false wm

-- The timer's callback.
unfoldable pub remote_lease_tick : Bool → ℕ → Wm → Wm
remote_lease_tick inserted now wm =
    tick_at inserted now (record wm { remote_lease_timer = none }) (deadline_of wm.remote_lease)

abbrev pub has_zero : Option ℕ → Bool
has_zero none = false
has_zero (some s) = s == 0

abbrev pub is_over : Option ℕ → Bool
is_over none = false
is_over (some s) = ltb remote_lease_max_secs s

abbrev pub is_given : Option ℕ → Bool
is_given none = false
is_given (some s) = true

unfoldable pub check_remote_lease : Bool → Option ℕ → Option ℕ → Bool
check_remote_lease enabled for_secs idle_secs =
    if not enabled && (is_given for_secs || is_given idle_secs)
    then false
    else if has_zero for_secs || has_zero idle_secs
    then false
    else not (is_over for_secs || is_over idle_secs)

abbrev pub from_secs : Option ℕ → Option ℕ
from_secs none = none
from_secs (some s) = some (s * second)

-- The lease is armed; a timer that cannot be had turns the gate off again.
abbrev pub leased : Bool → Option Lease → Wm → Wm
leased inserted lease wm = or_fail_closed (set_remote_lease inserted lease wm)

-- `Request::SetRemote`: the answer says whether it was refused at once.
unfoldable pub set_remote_request : Bool → ℕ → Bool → Option ℕ → Option ℕ → Wm → Wm × Bool
set_remote_request inserted now enabled for_secs idle_secs wm =
    let on = set_remote true wm in
    if enabled && not wm.remote_server
    then (wm, false)
    else if not (check_remote_lease enabled for_secs idle_secs)
    then (wm, false)
    else if enabled
    then (
      leased inserted (new now (from_secs for_secs) (from_secs idle_secs) on.remote_viewers) on,
      true,
    )
    else (set_remote false wm, true)

-- `Request::ReportRemoteViewers`.
unfoldable pub report_remote_viewers : Bool → ℕ → ℕ → Wm → Wm
report_remote_viewers inserted now viewers wm =
    let reported = record wm { remote_viewers = viewers } in
    if wm.remote_viewers == viewers
    then reported
    else remote_lease_viewers_changed inserted now reported wm.remote_lease

-- The registered server's connection ends.
unfoldable pub drop_remote_server : Wm → Wm
drop_remote_server wm =
    let gone = record wm { remote_server = false } in
    let closed = if wm.remote_enabled then set_remote false gone else gone in
    record closed { remote_viewers = 0 }

pub data Event : Type 0 where
  register_server : Event
  drop_server : Event
  set_remote_asked : Bool → ℕ → Bool → Option ℕ → Option ℕ → Event
  viewers_reported : Bool → ℕ → ℕ → Event
  timer_due : Bool → ℕ → Event
  automation_asked : Bool → Event
  capture_asked : Bool → Event

-- A timer runs its callback once its time has come.
abbrev pub timer_fires : Bool → ℕ → Wm → Option ℕ → Wm
timer_fires inserted now wm none = wm
timer_fires inserted now wm (some at) =
    let ticked = remote_lease_tick inserted now wm in if ltb now at then wm else ticked

unfoldable pub on_event : Event → Wm → Wm
on_event register_server wm = record wm { remote_server = true }
on_event drop_server wm = if wm.remote_server then drop_remote_server wm else wm
on_event (set_remote_asked inserted now enabled for_secs idle_secs) wm =
    (set_remote_request inserted now enabled for_secs idle_secs wm).0
on_event (viewers_reported inserted now viewers) wm = report_remote_viewers inserted now viewers wm
on_event (timer_due inserted now) wm = timer_fires inserted now wm wm.remote_lease_timer
on_event (automation_asked enabled) wm = set_automation enabled wm
on_event (capture_asked enabled) wm = record wm { screen_capture_enabled = enabled }

unfoldable pub on_events : List Event → Wm → Wm
on_events [] wm = wm
on_events (e ∷ es) wm = on_events es (on_event e wm)

abbrev pub started : Wm
started = record {
  remote_enabled = false;
  automation_enabled = false;
  screen_capture_enabled = false;
  remote_server = false;
  remote_viewers = 0;
  remote_lease = none;
  remote_lease_timer = none;
}
