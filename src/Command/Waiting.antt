-- ===== src/Command/Waiting.antt =====
-- The commands of src/remote_command.rs that are waited for, over every history of requests, output, ends
-- of pipes, reaped children and timers.
use shoestring_wm.Prelude.{
  ℕ, ◌*◌, zero, suc, ◌-◌, ◌≤◌, ◌≡◌, refl, sym, subst, ◌==◌, ==_refl, Bool, true, false, Bool-cases,
  inl, inr, Option, none, some, List, [], ◌∷◌, arith, if◌then◌else◌, length, length-append, take,
  All, ℤ,
}
use shoestring_wm.Command.{
  run_command_output_cap, PipeKind, stdout, stderr, Pending, Response, automation_off, empty_argv,
  spawn_failed, command_result, or_failed, run_command, Commands, Wm, get, remove, put, find_pid,
  spawned, spawn_remote_command, finalized, finalize_remote_command, ready, finalize_if_ready,
  maybe_finalize_remote_command, close_pipe, on_command_pipe_closed, arm_grace, reap,
  note_command_reaped, kill_group, end_grace, on_output_grace_over, capped, with_output,
  take_output, on_command_output, time_out, on_command_timeout, Event, request, output, eof, reaped,
  grace_over, timeout_over, on_command_event, on_command_events, at_start,
}
use shoestring_wm.Command.Text.{length-from_utf8_lossy}
use shoestring_wm.Command.Keys.{Found}

abbrev pub Bounded : Pending → Type 0
Bounded p =
    (length p.stdout_buf ≤ run_command_output_cap) × (length p.stderr_buf ≤ run_command_output_cap)

abbrev pub Waits : Pending → Type 0
Waits p = (ready p ≡ false) × Bounded p

-- A text takes three times the bytes it is made of at most.
abbrev pub Fits : Response → Type 0
Fits automation_off = Unit
Fits empty_argv = Unit
Fits spawn_failed = Unit
Fits (command_result r) =
    (length r.out ≤ 3 * run_command_output_cap) × (length r.err ≤ 3 * run_command_output_cap)

abbrev pub Inv : Wm → Type 0
Inv wm =
    All (λ (d : ℕ × Pending). Waits d.1) wm.pending_commands
    × All (λ (r : ℕ × Response). Fits r.1) wm.replies

length-take-le : (n : ℕ) (xs : List ℕ) → length (take n xs) ≤ n
length-take-le zero [] = omega arith
length-take-le (suc n) [] = omega arith
length-take-le zero (x ∷ xs) = omega arith
length-take-le (suc n) (x ∷ xs) = omega (arith, length-take-le n xs)

get-Found :
    (P : Pending → Type 0) (id : ℕ) (m : Commands)
    → All (λ (d : ℕ × Pending). P d.1) m
    → Found P (get id m)
unfolding get
get-Found P id [] a = tt
get-Found P id ((i, q) ∷ m) a = elim (Bool-cases (i == id)) [
  | inl same ↦ rw same a.0
  | inr other ↦ rw other (get-Found P id m a.1)
]

find_pid-Found :
    (P : Pending → Type 0) (pid : ℕ) (m : Commands)
    → All (λ (d : ℕ × Pending). P d.1) m
    → Found (λ (d : ℕ × Pending). P d.1) (find_pid pid m)
unfolding find_pid
find_pid-Found P pid [] a = tt
find_pid-Found P pid ((i, q) ∷ m) a = elim (Bool-cases (q.pid == pid)) [
  | inl same ↦ rw same a.0
  | inr other ↦ rw other (find_pid-Found P pid m a.1)
]

All-remove :
    (P : Pending → Type 0) (id : ℕ) (m : Commands)
    → All (λ (d : ℕ × Pending). P d.1) m
    → All (λ (d : ℕ × Pending). P d.1) (remove id m)
unfolding remove
All-remove P id [] a = tt
All-remove P id ((i, q) ∷ m) a = elim (Bool-cases (i == id)) [
  | inl same ↦ rw same (All-remove P id m a.1)
  | inr other ↦ rw other (a.0, All-remove P id m a.1)
]

pub get-put : (id : ℕ) (p : Pending) (wm : Wm) → get id (put id p wm).pending_commands ≡ some p
unfolding get
get-put id p wm = rw (==_refl id) refl

put-Inv : (id : ℕ) (p : Pending) (wm : Wm) → Waits p → Inv wm → Inv (put id p wm)
put-Inv id p wm w v = ((w, All-remove Waits id wm.pending_commands v.0), v.1)

pub remove-put :
    (id : ℕ) (p : Pending) (wm : Wm)
    → remove id (put id p wm).pending_commands ≡ remove id (remove id wm.pending_commands)
unfolding remove
remove-put id p wm = rw (==_refl id) refl

-- The command is answered with what it has, and no longer waited for.
finalize-Inv :
    (id : ℕ) (p : Pending) (wm : Wm)
    → Bounded p
    → Inv wm
    → Inv (finalize_remote_command id (put id p wm))
finalize-Inv id p wm b v =
    subst (λ o. Inv (finalized id o (put id p wm))) (sym (get-put id p wm))
      (
        subst (All (λ (d : ℕ × Pending). Waits d.1)) (sym (remove-put id p wm)) (
            All-remove Waits id (remove id wm.pending_commands)
              (All-remove Waits id wm.pending_commands v.0)),
        (
          (
            omega (arith, b.0, length-from_utf8_lossy p.stdout_buf),
            omega (arith, b.1, length-from_utf8_lossy p.stderr_buf),
          ),
          v.1,
        ),
      )

maybe_finalize-Inv :
    (id : ℕ) (p : Pending) (wm : Wm)
    → Bounded p
    → Inv wm
    → Inv (maybe_finalize_remote_command id (put id p wm))
maybe_finalize-Inv id p wm b v =
    subst (λ o. Inv (finalize_if_ready id o (put id p wm))) (sym (get-put id p wm))
      (elim (Bool-cases (ready p)) [
        | inl done ↦ subst after (sym done) (finalize-Inv id p wm b v)
        | inr more ↦ subst after (sym more) (put-Inv id p wm (more, b) v)
      ])
  where
    after : Bool → Type 0
    after r = Inv (if r then finalize_remote_command id (put id p wm) else put id p wm)

close_pipe-Inv :
    (id : ℕ) (kind : PipeKind) (o : Option Pending) (wm : Wm)
    → Found Waits o
    → Inv wm
    → Inv (close_pipe id kind o wm)
close_pipe-Inv id kind none wm w v = v
close_pipe-Inv id stdout (some p) wm w v = maybe_finalize-Inv id _ wm w.1 v
close_pipe-Inv id stderr (some p) wm w v = maybe_finalize-Inv id _ wm w.1 v

arm_grace-Inv :
    (inserted : Bool) (id : ℕ) (o : Option Pending) (wm : Wm)
    → Found Waits o
    → Inv wm
    → Inv (arm_grace inserted id o wm)
arm_grace-Inv inserted id none wm w v = v
arm_grace-Inv true id (some p) wm w v = put-Inv id (record p { grace = true }) wm w v
arm_grace-Inv false id (some p) wm w v = v

reap-Inv :
    (inserted : Bool) (status : Option ℤ) (o : Option (ℕ × Pending)) (wm : Wm)
    → Found (λ (d : ℕ × Pending). Waits d.1) o
    → Inv wm
    → Inv (reap inserted status o wm).0
reap-Inv inserted status none wm w v = v
reap-Inv inserted status (some (id, p)) wm w v =
    let settled : Inv
        (maybe_finalize_remote_command id (put id (record p { exit_status = some status }) wm)) =
      maybe_finalize-Inv id (record p { exit_status = some status }) wm w.1 v in
    arm_grace-Inv inserted id _ _ (get-Found Waits id _ settled.0) settled

end_grace-Inv :
    (id : ℕ) (o : Option Pending) (wm : Wm) → Found Waits o → Inv wm → Inv (end_grace id o wm)
end_grace-Inv id none wm w v = v
end_grace-Inv id (some p) wm w v =
    finalize-Inv id (record p { grace = false }) (kill_group p.pid wm) w.1 v

length-capped :
    (buf bytes : List ℕ)
    → length buf ≤ run_command_output_cap
    → length (capped buf bytes) ≤ run_command_output_cap
length-capped buf bytes h = omega (
  arith,
  length-append buf (take (run_command_output_cap - length buf) bytes),
  length-take-le (run_command_output_cap - length buf) bytes,
)

take_output-Inv :
    (id : ℕ) (kind : PipeKind) (bytes : List ℕ) (o : Option Pending) (wm : Wm)
    → Found Waits o
    → Inv wm
    → Inv (take_output id kind bytes o wm)
take_output-Inv id kind bytes none wm w v = v
take_output-Inv id stdout bytes (some p) wm w v =
    put-Inv id (with_output stdout bytes p) wm
      (w.0, (length-capped p.stdout_buf bytes w.1.0, w.1.1)) v
take_output-Inv id stderr bytes (some p) wm w v =
    put-Inv id (with_output stderr bytes p) wm
      (w.0, (w.1.0, length-capped p.stderr_buf bytes w.1.1)) v

time_out-Inv :
    (id : ℕ) (o : Option Pending) (wm : Wm) → Found Waits o → Inv wm → Inv (time_out id o wm)
time_out-Inv id none wm w v = v
time_out-Inv id (some p) wm w v = put-Inv id (record p { timer = false }) wm w v

spawn-Inv :
    (client_id : ℕ) (pid : Option ℕ) (registered : Bool) (timeout : Option Bool) (wm : Wm)
    → Inv wm
    → Inv (spawn_remote_command client_id pid registered timeout wm).0
unfolding spawn_remote_command
spawn-Inv client_id none registered timeout wm v = v
spawn-Inv client_id (some pid) false timeout wm v =
    put-Inv _ (spawned client_id pid) wm (refl, (omega arith, omega arith)) v
spawn-Inv client_id (some pid) true none wm v =
    put-Inv _ (spawned client_id pid) wm (refl, (omega arith, omega arith)) v
spawn-Inv client_id (some pid) true (some taken) wm v =
    put-Inv _ (spawned client_id pid) wm (refl, (omega arith, omega arith)) v

or_failed-Inv : (client_id : ℕ) (r : Wm × Bool) → Inv r.0 → Inv (or_failed client_id r)
or_failed-Inv client_id (wm, true) v = v
or_failed-Inv client_id (wm, false) v = (v.0, (tt, v.1))

run_command-Inv :
    (enabled has_argv : Bool) (client_id : ℕ) (pid : Option ℕ) (registered : Bool)
    (timeout : Option Bool) (wm : Wm)
    → Inv wm
    → Inv (run_command enabled has_argv client_id pid registered timeout wm)
unfolding run_command
run_command-Inv false has_argv client_id pid registered timeout wm v = (v.0, (tt, v.1))
run_command-Inv true false client_id pid registered timeout wm v = (v.0, (tt, v.1))
run_command-Inv true true client_id pid registered timeout wm v =
    or_failed-Inv client_id _ (spawn-Inv client_id pid registered timeout wm v)

on_command_event-Inv : (e : Event) (wm : Wm) → Inv wm → Inv (on_command_event e wm)
unfolding on_command_event on_command_output on_command_pipe_closed note_command_reaped
    on_output_grace_over on_command_timeout
on_command_event-Inv (request enabled has_argv client_id pid registered timeout) wm v =
    run_command-Inv enabled has_argv client_id pid registered timeout wm v
on_command_event-Inv (output id kind bytes) wm v =
    take_output-Inv id kind bytes _ wm (get-Found Waits id wm.pending_commands v.0) v
on_command_event-Inv (eof id kind) wm v =
    close_pipe-Inv id kind _ wm (get-Found Waits id wm.pending_commands v.0) v
on_command_event-Inv (reaped inserted pid status) wm v =
    reap-Inv inserted status _ wm (find_pid-Found Waits pid wm.pending_commands v.0) v
on_command_event-Inv (grace_over id) wm v =
    end_grace-Inv id _ wm (get-Found Waits id wm.pending_commands v.0) v
on_command_event-Inv (timeout_over id) wm v =
    time_out-Inv id _ wm (get-Found Waits id wm.pending_commands v.0) v

on_command_events-Inv : (es : List Event) (wm : Wm) → Inv wm → Inv (on_command_events es wm)
unfolding on_command_events
on_command_events-Inv [] wm v = v
on_command_events-Inv (e ∷ es) wm v =
    on_command_events-Inv es (on_command_event e wm) (on_command_event-Inv e wm v)

-- After any events, every command that is still pending has a pipe open or a child that has not been
-- reaped, so none that is done is still waited for; it has kept no more than the cap of either stream;
-- and no text of a result that was sent takes more than three times the cap.
pub events-Waits :
    (es : List Event)
    → All (λ (d : ℕ × Pending). Waits d.1) (on_command_events es at_start).pending_commands
      × All (λ (r : ℕ × Response). Fits r.1) (on_command_events es at_start).replies
events-Waits es = on_command_events-Inv es at_start (tt, tt)
