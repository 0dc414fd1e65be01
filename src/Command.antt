-- ===== src/Command.antt =====
-- src/remote_command.rs: the commands that run for IPC clients, from the request, whose handler is in
-- src/ipc.rs, to the replies. The HashMap of pending commands is an association list, a pid a number,
-- an exit status its code if it has one, and a timer whether it is set. Tokens of the pipes are left
-- out: the event loop delivers nothing for a command that is gone, and the handlers would ignore it.
use shoestring_wm.Prelude.{
  ℕ, ◌+◌, ◌-◌, ◌==◌, ◌&&◌, not, Bool, true, false, Option, none, some, List, [], ◌∷◌, ◌++◌,
  if◌then◌else◌, ltb, length, take, u64, ℤ, pos, negsuc,
}
use shoestring_wm.Command.Text.{from_utf8_lossy}
pub mod Text
pub mod Keys
pub mod Waiting
pub mod Counting
pub mod Answered
pub mod Output
mod Examples

abbrev pub run_command_output_cap : ℕ
run_command_output_cap = 65536

pub data PipeKind : Type 0 where
  stdout stderr : PipeKind

pub record Pending : Type 0 where
  pub client_id : ℕ
  pub pid : ℕ
  pub exit_status : Option (Option ℤ)
  pub stdout_buf : List ℕ
  pub stderr_buf : List ℕ
  pub stdout_open : Bool
  pub stderr_open : Bool
  pub truncated : Bool
  -- Whether the timers of the timeout and of the grace period are set.
  pub timer : Bool
  pub grace : Bool

-- `Response::CommandResult`; a text is its UTF-8 bytes.
pub record CommandResult : Type 0 where
  pub exit_code : ℤ
  pub out : List ℕ
  pub err : List ℕ
  pub was_truncated : Bool

-- `Response::Error`, by what its message says, and the result of a command.
pub data Response : Type 0 where
  automation_off : Response
  empty_argv : Response
  spawn_failed : Response
  command_result : CommandResult → Response

abbrev pub Commands : Type 0
Commands = List (ℕ × Pending)

pub record Wm : Type 0 where
  pub pending_commands : Commands
  pub next_command_id : ℕ
  -- The replies to clients and the process groups killed, from the latest.
  pub replies : List (ℕ × Response)
  pub killed : List ℕ

unfoldable pub get : ℕ → Commands → Option Pending
get id [] = none
get id ((i, p) ∷ ps) = let rest = get id ps in if i == id then some p else rest

unfoldable pub remove : ℕ → Commands → Commands
remove id [] = []
remove id ((i, p) ∷ ps) = let rest = remove id ps in if i == id then rest else (i, p) ∷ rest

abbrev pub put : ℕ → Pending → Wm → Wm
put id p wm = record wm { pending_commands = (id, p) ∷ remove id wm.pending_commands }

-- The first command found with a pid.
unfoldable pub find_pid : ℕ → Commands → Option (ℕ × Pending)
find_pid pid [] = none
find_pid pid ((i, p) ∷ ps) =
    let rest = find_pid pid ps in if p.pid == pid then some (i, p) else rest

abbrev pub spawned : ℕ → ℕ → Pending
spawned client_id pid = record {
  client_id = client_id;
  pid = pid;
  exit_status = none;
  stdout_buf = [];
  stderr_buf = [];
  stdout_open = true;
  stderr_open = true;
  truncated = false;
  timer = false;
  grace = false;
}

-- With the pid of the child, if one was spawned; whether the event loop took its pipes; and whether a
-- timeout was asked for and its timer taken. Where the event loop refuses one of them, the call fails
-- with the command recorded.
unfoldable pub spawn_remote_command : ℕ → Option ℕ → Bool → Option Bool → Wm → Wm × Bool
spawn_remote_command client_id none registered timeout wm = (wm, false)
spawn_remote_command client_id (some pid) registered timeout wm =
    let id = wm.next_command_id in
    let counted = record wm { next_command_id = u64 (id + 1) } in
    let p = spawned client_id pid in
    if not registered then (put id p counted, false) else elim timeout [
      | none ↦ (put id p counted, true)
      | some taken ↦ (put id (record p { timer = taken }) counted, taken)
    ]

abbrev pub reply : ℕ → Response → Wm → Wm
reply client_id response wm = record wm { replies = (client_id, response) ∷ wm.replies }

abbrev pub or_failed : ℕ → Wm × Bool → Wm
or_failed client_id (wm, true) = wm
or_failed client_id (wm, false) = reply client_id spawn_failed wm

-- `Request::RunCommand`, attached: whether the automation gate is open and there is an argv, and then
-- as for `spawn_remote_command`, whose failure is answered at once.
unfoldable pub run_command : Bool → Bool → ℕ → Option ℕ → Bool → Option Bool → Wm → Wm
run_command automation_enabled has_argv client_id pid registered timeout wm =
    let spawned_or =
      or_failed client_id (spawn_remote_command client_id pid registered timeout wm) in
    if not automation_enabled
    then reply client_id automation_off wm
    else if not has_argv
    then reply client_id empty_argv wm
    else spawned_or

abbrev pub exit_code_of : Option (Option ℤ) → ℤ
exit_code_of none = negsuc 0
exit_code_of (some none) = negsuc 0
exit_code_of (some (some code)) = code

abbrev pub result_of : Pending → CommandResult
result_of p = record {
  exit_code = exit_code_of p.exit_status;
  out = from_utf8_lossy p.stdout_buf;
  err = from_utf8_lossy p.stderr_buf;
  was_truncated = p.truncated;
}

abbrev pub finalized : ℕ → Option Pending → Wm → Wm
finalized id none wm = wm
finalized id (some p) wm = record wm {
  pending_commands = remove id wm.pending_commands;
  replies = (p.client_id, command_result (result_of p)) ∷ wm.replies;
}

abbrev pub finalize_remote_command : ℕ → Wm → Wm
finalize_remote_command id wm = finalized id (get id wm.pending_commands) wm

abbrev pub is_some {ℓ} : {A : Type ℓ} → Option A → Bool
is_some none = false
is_some (some a) = true

abbrev pub ready : Pending → Bool
ready p = not p.stdout_open && (not p.stderr_open && is_some p.exit_status)

abbrev pub finalize_if_ready : ℕ → Option Pending → Wm → Wm
finalize_if_ready id none wm = wm
finalize_if_ready id (some p) wm = if ready p then finalize_remote_command id wm else wm

abbrev pub maybe_finalize_remote_command : ℕ → Wm → Wm
maybe_finalize_remote_command id wm = finalize_if_ready id (get id wm.pending_commands) wm

abbrev pub closed : PipeKind → Pending → Pending
closed stdout p = record p { stdout_open = false }
closed stderr p = record p { stderr_open = false }

abbrev pub close_pipe : ℕ → PipeKind → Option Pending → Wm → Wm
close_pipe id kind none wm = wm
close_pipe id kind (some p) wm = maybe_finalize_remote_command id (put id (closed kind p) wm)

unfoldable pub on_command_pipe_closed : ℕ → PipeKind → Wm → Wm
on_command_pipe_closed id kind wm = close_pipe id kind (get id wm.pending_commands) wm

-- `inserted` says whether the event loop takes the timer.
abbrev pub arm_grace : Bool → ℕ → Option Pending → Wm → Wm
arm_grace inserted id none wm = wm
arm_grace true id (some p) wm = put id (record p { grace = true }) wm
arm_grace false id (some p) wm = wm

abbrev pub arm_output_grace : Bool → ℕ → Wm → Wm
arm_output_grace inserted id wm = arm_grace inserted id (get id wm.pending_commands) wm

abbrev pub reap : Bool → Option ℤ → Option (ℕ × Pending) → Wm → Wm × Bool
reap inserted status none wm = (wm, false)
reap inserted status (some (id, p)) wm = (
  arm_output_grace inserted id
      (maybe_finalize_remote_command id (put id (record p { exit_status = some status }) wm)),
  true,
)

unfoldable pub note_command_reaped : Bool → ℕ → Option ℤ → Wm → Wm × Bool
note_command_reaped inserted pid status wm =
    reap inserted status (find_pid pid wm.pending_commands) wm

abbrev pub kill_group : ℕ → Wm → Wm
kill_group pgid wm = record wm { killed = pgid ∷ wm.killed }

abbrev pub end_grace : ℕ → Option Pending → Wm → Wm
end_grace id none wm = wm
end_grace id (some p) wm =
    finalize_remote_command id (kill_group p.pid (put id (record p { grace = false }) wm))

unfoldable pub on_output_grace_over : ℕ → Wm → Wm
on_output_grace_over id wm = end_grace id (get id wm.pending_commands) wm

-- What a buffer with so much room takes of a chunk.
abbrev pub capped : List ℕ → List ℕ → List ℕ
capped buf bytes = buf ++ take (run_command_output_cap - length buf) bytes

abbrev pub overflows : List ℕ → List ℕ → Bool
overflows buf bytes = ltb (run_command_output_cap - length buf) (length bytes)

abbrev pub with_output : PipeKind → List ℕ → Pending → Pending
with_output stdout bytes p = record p {
  stdout_buf = capped p.stdout_buf bytes;
  truncated = if overflows p.stdout_buf bytes then true else p.truncated;
}
with_output stderr bytes p = record p {
  stderr_buf = capped p.stderr_buf bytes;
  truncated = if overflows p.stderr_buf bytes then true else p.truncated;
}

abbrev pub take_output : ℕ → PipeKind → List ℕ → Option Pending → Wm → Wm
take_output id kind bytes none wm = wm
take_output id kind bytes (some p) wm = put id (with_output kind bytes p) wm

unfoldable pub on_command_output : ℕ → PipeKind → List ℕ → Wm → Wm
on_command_output id kind bytes wm = take_output id kind bytes (get id wm.pending_commands) wm

abbrev pub time_out : ℕ → Option Pending → Wm → Wm
time_out id none wm = wm
time_out id (some p) wm = kill_group p.pid (put id (record p { timer = false }) wm)

unfoldable pub on_command_timeout : ℕ → Wm → Wm
on_command_timeout id wm = time_out id (get id wm.pending_commands) wm

pub data Event : Type 0 where
  request : Bool → Bool → ℕ → Option ℕ → Bool → Option Bool → Event
  output : ℕ → PipeKind → List ℕ → Event
  eof : ℕ → PipeKind → Event
  reaped : Bool → ℕ → Option ℤ → Event
  grace_over : ℕ → Event
  timeout_over : ℕ → Event

unfoldable pub on_command_event : Event → Wm → Wm
on_command_event (request automation_enabled has_argv client_id pid registered timeout) wm =
    run_command automation_enabled has_argv client_id pid registered timeout wm
on_command_event (output id kind bytes) wm = on_command_output id kind bytes wm
on_command_event (eof id kind) wm = on_command_pipe_closed id kind wm
on_command_event (reaped inserted pid status) wm = (note_command_reaped inserted pid status wm).0
on_command_event (grace_over id) wm = on_output_grace_over id wm
on_command_event (timeout_over id) wm = on_command_timeout id wm

unfoldable pub on_command_events : List Event → Wm → Wm
on_command_events [] wm = wm
on_command_events (e ∷ es) wm = on_command_events es (on_command_event e wm)

abbrev pub at_start : Wm
at_start = record { pending_commands = []; next_command_id = 0; replies = []; killed = [] }
