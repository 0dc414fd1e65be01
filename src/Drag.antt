-- ===== src/Drag.antt =====
-- src/drag.rs: a drag that runs on the event loop's timer, with the parts of src/state.rs, src/ipc.rs
-- and src/inject.rs that it meets: the automation gate, closing connections and the seat's held input.
-- A Duration or an Instant is a number of nanoseconds, a text of an error a constructor. A motion is
-- recorded by its place among the steps; its coordinates, which are f64, are left out.
use shoestring_wm.Prelude.{
  ℕ, zero, suc, ◌+◌, ◌*◌, ◌/◌, ◌==◌, ◌&&◌, ◌||◌, not, Bool, true, false, Option, none, some, List,
  [], ◌∷◌, if◌then◌else◌, ltb, leb, ◌⊎◌, inl, inr,
}
use shoestring_wm.Seat.{
  Kind, key, button, InputSource, physical, injected, Desk, note, release, transition, gone,
  on_event,
}
pub mod Timing
mod Invariant
mod Released
mod Complete
mod Examples

-- The constants of crates/shoestring-ipc/src/lib.rs.
abbrev pub drag_default_hold_ms : ℕ
drag_default_hold_ms = 150

abbrev pub drag_default_duration_ms : ℕ
drag_default_duration_ms = 300

abbrev pub drag_default_steps : ℕ
drag_default_steps = 16

abbrev pub drag_max_ms : ℕ
drag_max_ms = 60000

abbrev pub drag_max_steps : ℕ
drag_max_steps = 1000

pub data DragError : Type 0 where
  too_long : DragError
  bad_steps : DragError
  another_drag : DragError
  automation_disabled : DragError
  session_locked : DragError
  window_gone : DragError
  not_scheduled : DragError

pub record DragPath : Type 0 where
  -- The evdev code of the button to hold.
  pub held_button : ℕ
  -- The surface that every motion is sent to.
  pub focus : Option ℕ

pub record DragTiming : Type 0 where
  pub hold : ℕ
  pub duration : ℕ
  pub steps : ℕ

abbrev pub unwrap_or : Option ℕ → ℕ → ℕ
unwrap_or none n = n
unwrap_or (some m) n = m

abbrev pub from_millis : ℕ → ℕ
from_millis ms = ms * 1000000

abbrev pub checked : ℕ → ℕ → ℕ → DragError ⊎ DragTiming
checked hold_ms duration_ms steps =
    if ltb drag_max_ms hold_ms || ltb drag_max_ms duration_ms
    then inl too_long
    else if not (leb 1 steps && leb steps drag_max_steps)
    then inl bad_steps
    else inr
        (record { hold = from_millis hold_ms; duration = from_millis duration_ms; steps = steps })

unfoldable pub from_request : Option ℕ → Option ℕ → Option ℕ → DragError ⊎ DragTiming
from_request hold_ms duration_ms steps =
    checked (unwrap_or hold_ms drag_default_hold_ms)
      (unwrap_or duration_ms drag_default_duration_ms) (unwrap_or steps drag_default_steps)

unfoldable pub gap : DragTiming → ℕ → ℕ
gap t k =
    let interval = t.duration / t.steps in
    if k == 1 then t.hold + interval else if leb k t.steps then interval else t.hold

pub record PendingDrag : Type 0 where
  pub client_id : ℕ
  pub path : DragPath
  pub timing : DragTiming
  -- When the last event was sent.
  pub last : ℕ
  -- The next event to send.
  pub next : ℕ
  pub locked_at_start : Bool
  -- When the timer is due, if it is set.
  pub timer : Option ℕ

-- A motion sent to clients: where the drag starts, or the k-th of its steps.
pub data Motion : Type 0 where
  start : Motion
  along : ℕ → ℕ → Motion

-- What goes out to clients: a motion, a button that goes down or up, and the reply to a request.
pub data Sent : Type 0 where
  moved : Motion → Sent
  button_changed : ℕ → Bool → Sent
  replied : ℕ → Option DragError → Sent

-- Each with the time at which it is sent, from the latest.
abbrev pub Trace : Type 0
Trace = List (ℕ × Sent)

pub record Wm : Type 0 where
  pub desk : Desk
  pub pending_drag : Option PendingDrag
  pub automation_enabled : Bool
  pub is_locked : Bool
  pub alive : ℕ → Bool
  pub now : ℕ
  pub trace : Trace

-- Sent only where `SeatHeld` says to deliver it.
abbrev pub inject_raw_button : ℕ → Bool → Wm → Wm
inject_raw_button code pressed wm = record wm {
  desk = on_event (transition injected button code pressed) wm.desk;
  trace =
      if (note wm.desk.held injected button code pressed).1
      then (wm.now, button_changed code pressed) ∷ wm.trace
      else wm.trace;
}

abbrev pub drag_motion : Motion → Wm → Wm
drag_motion motion wm = record wm { trace = (wm.now, moved motion) ∷ wm.trace }

abbrev pub cancel : ℕ → Option PendingDrag → Wm → Wm
cancel id none wm = wm
cancel id (some drag) wm =
    if drag.client_id == id
    then inject_raw_button drag.path.held_button false (record wm { pending_drag = none })
    else wm

abbrev pub cancel_drag_owned_by : ℕ → Wm → Wm
cancel_drag_owned_by id wm = cancel id wm.pending_drag wm

-- Of `drop_ipc_client`, what concerns a drag.
abbrev pub finish_drag : PendingDrag → Option DragError → Wm → Wm
finish_drag drag result wm =
    cancel_drag_owned_by drag.client_id
      (record wm { trace = (wm.now, replied drag.client_id result) ∷ wm.trace })

-- `inserted` says whether the event loop takes the timer.
abbrev pub arm : Bool → Option PendingDrag → Wm → Wm
arm inserted none wm = wm
arm true (some drag) wm = record wm {
  pending_drag = some (record drag { timer = some (drag.last + gap drag.timing drag.next) });
}
arm false (some drag) wm =
    finish_drag drag (some not_scheduled)
      (inject_raw_button drag.path.held_button false (record wm { pending_drag = none }))

abbrev pub arm_drag : Bool → Wm → Wm
arm_drag inserted wm = arm inserted wm.pending_drag wm

abbrev pub started : ℕ → DragPath → DragTiming → Wm → PendingDrag
started id path timing wm = record {
  client_id = id;
  path = path;
  timing = timing;
  last = wm.now;
  next = 1;
  locked_at_start = wm.is_locked;
  timer = none;
}

abbrev pub begin :
    Bool → ℕ → DragPath → DragTiming → Option PendingDrag → Wm → Wm × Option DragError
begin inserted id path timing (some other) wm = (wm, some another_drag)
begin inserted id path timing none wm =
    let pressed = inject_raw_button path.held_button true (drag_motion start wm) in
    (arm_drag inserted (record pressed { pending_drag = some (started id path timing wm) }), none)

unfoldable pub start_drag : Bool → ℕ → DragPath → DragTiming → Wm → Wm × Option DragError
start_drag inserted id path timing wm = begin inserted id path timing wm.pending_drag wm

abbrev pub focus_gone : Wm → Option ℕ → Bool
focus_gone wm none = false
focus_gone wm (some s) = not (wm.alive s)

abbrev pub stop : Wm → PendingDrag → Option DragError
stop wm drag =
    if wm.is_locked && not drag.locked_at_start
    then some session_locked
    else if focus_gone wm drag.path.focus
    then some window_gone
    else none

abbrev pub sent : Wm → PendingDrag → PendingDrag
sent wm drag = record drag { last = wm.now; next = drag.next + 1 }

abbrev pub tick_unless : Bool → Option DragError → PendingDrag → Wm → Wm
tick_unless inserted (some message) drag wm =
    finish_drag drag (some message) (inject_raw_button drag.path.held_button false wm)
tick_unless inserted none drag wm =
    if leb drag.next drag.timing.steps
    then arm_drag inserted (record (drag_motion (along drag.next drag.timing.steps) wm) {
      pending_drag = some (sent wm drag);
    })
    else finish_drag drag none (inject_raw_button drag.path.held_button false wm)

abbrev pub tick : Bool → Option PendingDrag → Wm → Wm
tick inserted none wm = wm
tick inserted (some drag) wm =
    let taken = record wm { pending_drag = none } in
    if not wm.automation_enabled
    then finish_drag drag (some automation_disabled) taken
    else tick_unless inserted (stop wm drag) drag taken

unfoldable pub drag_tick : Bool → Wm → Wm
drag_tick inserted wm = tick inserted wm.pending_drag wm

-- The timer's callback, at the deadline or later.
abbrev pub fire : ℕ → Bool → Option PendingDrag → Wm → Wm
fire late inserted none wm = wm
fire late inserted (some drag) wm = elim drag.timer [
  | none ↦ wm
  | some due ↦
      drag_tick inserted
        (record wm { now = due + late; pending_drag = some (record drag { timer = none }) })
]

unfoldable pub timer_fires : ℕ → Bool → Wm → Wm
timer_fires late inserted wm = fire late inserted wm.pending_drag wm

-- The releases that go out for the buttons that a source held last.
unfoldable pub released_at : ℕ → List ℕ → Trace → Trace
released_at now [] trace = trace
released_at now (code ∷ codes) trace =
    released_at now codes ((now, button_changed code false) ∷ trace)

-- Of `set_automation`, the gate and the release of injected input.
unfoldable pub set_automation : Bool → Wm → Wm
set_automation enabled wm =
    let gated = record wm { automation_enabled = enabled } in
    if enabled then gated else record gated {
      desk = on_event (gone injected) wm.desk;
      trace = released_at wm.now (release wm.desk.held injected).1.buttons wm.trace;
    }

abbrev pub and_start :
    Bool → ℕ → DragError ⊎ DragTiming → DragError ⊎ DragPath → Wm → Wm × Option DragError
and_start inserted id (inl e) resolved wm = (wm, some e)
and_start inserted id (inr timing) (inl e) wm = (wm, some e)
and_start inserted id (inr timing) (inr path) wm = start_drag inserted id path timing wm

-- The request, with what `resolve_drag` makes of its window and its coordinates. What is refused is
-- answered at once.
unfoldable pub on_drag :
    Bool
    → ℕ
    → Bool
    → DragError ⊎ DragPath
    → Option ℕ
    → Option ℕ
    → Option ℕ
    → Wm
    → Wm × Option DragError
on_drag inserted id targeted resolved hold_ms duration_ms steps wm =
    if not wm.automation_enabled
    then (wm, some automation_disabled)
    else if targeted && wm.is_locked
    then (wm, some session_locked)
    else and_start inserted id (from_request hold_ms duration_ms steps) resolved wm

pub data Event : Type 0 where
  request : Bool → ℕ → Bool → DragError ⊎ DragPath → Option ℕ → Option ℕ → Option ℕ → Event
  fires : ℕ → Bool → Event
  disconnect : ℕ → Event
  gate : Bool → Event
  lock : Bool → Event
  unmap : ℕ → Event
  -- A key or a button of a physical device, or its removal.
  local_input : ℕ → Kind → ℕ → Bool → Event
  unplug : ℕ → Event
  wait : ℕ → Event

unfoldable pub on_drag_event : Event → Wm → Wm
on_drag_event (request inserted id targeted resolved hold_ms duration_ms steps) wm =
    (on_drag inserted id targeted resolved hold_ms duration_ms steps wm).0
on_drag_event (fires late inserted) wm = timer_fires late inserted wm
on_drag_event (disconnect id) wm = cancel_drag_owned_by id wm
on_drag_event (gate enabled) wm = set_automation enabled wm
on_drag_event (lock locked) wm = record wm { is_locked = locked }
on_drag_event (unmap s) wm = record wm { alive = λ x. not (x == s) && wm.alive x }
on_drag_event (local_input id kind code pressed) wm = record wm {
  desk = on_event (transition (physical id) kind code pressed) wm.desk;
}
on_drag_event (unplug id) wm = record wm { desk = on_event (gone (physical id)) wm.desk }
on_drag_event (wait n) wm = record wm { now = wm.now + n }

unfoldable pub on_drag_events : List Event → Wm → Wm
on_drag_events [] wm = wm
on_drag_events (e ∷ es) wm = on_drag_events es (on_drag_event e wm)
