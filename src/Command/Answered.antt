-- ===== src/Command/Answered.antt =====
-- How often a request of src/ipc.rs for a command of src/remote_command.rs is answered.
use shoestring_wm.Prelude.{
  ℕ, suc, ◌+◌, ◌<◌, ◌≡◌, refl, subst, ◌∙◌, ◌==◌, Bool, true, false, Option, none, some, List, [],
  ◌∷◌, arith, if◌then◌else◌, not, ◌&&◌, to_nat, length, u64,
}
use shoestring_wm.Command.{
  Pending, Response, reply, spawn_failed, run_command, Commands, Wm, put, spawned,
  spawn_remote_command, on_command_pipe_closed, note_command_reaped, on_output_grace_over,
  on_command_output, on_command_timeout, Event, request, output, eof, reaped, grace_over,
  timeout_over, on_command_event, on_command_events, at_start,
}
use shoestring_wm.Command.Keys.{Keys, tally, find_pid-get}
use shoestring_wm.Command.Counting.{
  answers, Counted, close_pipe-Counted, reap-Counted, take_output-Counted, end_grace-Counted,
  time_out-Counted, later_Counted, fresh-Counted,
}

replied-Counted :
    (n c total client_id : ℕ) (response : Response) (wm : Wm)
    → Counted n c total wm
    → Counted n c (total + to_nat (client_id == c)) (reply client_id response wm)
replied-Counted n c total client_id response wm v = record {
  distinct = v.distinct;
  given = v.given;
  few = v.few;
  exact = omega (arith, v.exact);
}

-- Whether a request is of a client.
abbrev pub requests : ℕ → Event → ℕ
requests c (request enabled has_argv client_id pid registered timeout) = to_nat (client_id == c)
requests c _ = 0

-- Whether the event loop refuses a pipe, or the timeout.
abbrev pub refused : Bool → Option Bool → Bool
refused registered none = not registered
refused registered (some taken) = not (registered && taken)

-- Whether a request of a client fails with its child started and its command recorded.
abbrev pub late_failures : ℕ → Event → ℕ
late_failures c (request true true client_id (some pid) registered timeout) =
    if refused registered timeout then to_nat (client_id == c) else 0
late_failures c _ = 0

unfoldable pub total_of : (Event → ℕ) → List Event → ℕ
total_of f [] = 0
total_of f (e ∷ es) = f e + total_of f es

-- The command recorded, and the request answered too, or not.
start-Counted :
    (n c total : ℕ) (p : Pending) (wm : Wm)
    → suc n < 18446744073709551616
    → Counted n c total wm
    → Counted
        (suc n)
        c
        (total + (to_nat (p.client_id == c) + 0))
        (put wm.next_command_id p (record wm { next_command_id = u64 (wm.next_command_id + 1) }))
start-Counted n c total p wm h v =
    subst
      (λ t.
        Counted (suc n) c t
          (put wm.next_command_id p (record wm { next_command_id = u64 (wm.next_command_id + 1) })))
      (let e : total + to_nat (p.client_id == c) ≡ total + (to_nat (p.client_id == c) + 0) =
          omega arith in
        e)
      (fresh-Counted n c total p wm h v)

late-Counted :
    (n c total : ℕ) (p : Pending) (wm : Wm)
    → suc n < 18446744073709551616
    → Counted n c total wm
    → Counted (suc n) c (total + (to_nat (p.client_id == c) + to_nat (p.client_id == c))) (
        reply p.client_id spawn_failed
          (put wm.next_command_id p (record wm { next_command_id = u64 (wm.next_command_id + 1) })))
late-Counted n c total p wm h v =
    subst
      (λ t. Counted (suc n) c t (
        reply p.client_id spawn_failed (
          put wm.next_command_id p (record wm { next_command_id = u64 (wm.next_command_id + 1) }))))
      (let e : total + to_nat (p.client_id == c) + to_nat (p.client_id == c)
            ≡ total + (to_nat (p.client_id == c) + to_nat (p.client_id == c)) =
          omega arith in
        e)
      (replied-Counted (suc n) c _ p.client_id spawn_failed _ (fresh-Counted n c total p wm h v))

refusal-Counted :
    (n c total client_id : ℕ) (response : Response) (wm : Wm)
    → Counted n c total wm
    → Counted (suc n) c (total + (to_nat (client_id == c) + 0)) (reply client_id response wm)
refusal-Counted n c total client_id response wm v = record {
  distinct = v.distinct;
  given = v.given;
  few = omega (arith, v.few);
  exact = omega (arith, v.exact);
}

on_command_event-Counted :
    (n c total : ℕ) (e : Event) (wm : Wm)
    → suc n < 18446744073709551616
    → Counted n c total wm
    → Counted (suc n) c (total + (requests c e + late_failures c e)) (on_command_event e wm)
unfolding on_command_event run_command on_command_output on_command_pipe_closed note_command_reaped
    on_output_grace_over on_command_timeout spawn_remote_command
on_command_event-Counted n c total (request false has_argv client_id pid registered timeout) wm h
      v =
    refusal-Counted n c total client_id _ wm v
on_command_event-Counted n c total (request true false client_id pid registered timeout) wm h v =
    refusal-Counted n c total client_id _ wm v
on_command_event-Counted n c total (request true true client_id none registered timeout) wm h v =
    refusal-Counted n c total client_id _ wm v
on_command_event-Counted n c total (request true true client_id (some pid) false none) wm h v =
    late-Counted n c total (spawned client_id pid) wm h v
on_command_event-Counted n c total (request true true client_id (some pid) false (some taken)) wm h
      v =
    late-Counted n c total (spawned client_id pid) wm h v
on_command_event-Counted n c total (request true true client_id (some pid) true none) wm h v =
    start-Counted n c total (spawned client_id pid) wm h v
on_command_event-Counted n c total (request true true client_id (some pid) true (some true)) wm h
      v =
    start-Counted n c total (record (spawned client_id pid) { timer = true }) wm h v
on_command_event-Counted n c total (request true true client_id (some pid) true (some false)) wm h
      v =
    late-Counted n c total (record (spawned client_id pid) { timer = false }) wm h v
on_command_event-Counted n c total (output id kind bytes) wm h v =
    later_Counted n c total _ (take_output-Counted n c total id kind bytes _ wm refl v)
on_command_event-Counted n c total (eof id kind) wm h v =
    later_Counted n c total _ (close_pipe-Counted n c total id kind _ wm refl v)
on_command_event-Counted n c total (reaped inserted pid status) wm h v = later_Counted n c total _ (
    reap-Counted inserted status n c total _ wm
      (find_pid-get (λ k. Unit) pid wm.pending_commands v.distinct (all_units wm.pending_commands))
      v)
  where
    all_units : (m : Commands) → Keys (λ k. Unit) m
    all_units [] = tt
    all_units (d ∷ m) = (tt, all_units m)
on_command_event-Counted n c total (grace_over id) wm h v =
    later_Counted n c total _ (end_grace-Counted n c total id _ wm refl v)
on_command_event-Counted n c total (timeout_over id) wm h v =
    later_Counted n c total _ (time_out-Counted n c total id _ wm refl v)

on_command_events-Counted :
    (es : List Event) (n c total : ℕ) (wm : Wm)
    → n + length es < 18446744073709551616
    → Counted n c total wm
    → Counted
        (n + length es)
        c
        (total + total_of (λ e. requests c e + late_failures c e) es)
        (on_command_events es wm)
unfolding on_command_events total_of
on_command_events-Counted [] n c total wm h v =
    let here : n ≡ n + 0 = omega arith in
    let none_more : total ≡ total + 0 = omega arith in
    subst (λ k. Counted k c (total + 0) wm) here (subst (λ t. Counted n c t wm) none_more v)
on_command_events-Counted (e ∷ es) n c total wm h v =
    let here : suc n + length es ≡ n + length (e ∷ es) = omega arith in
    let all : total
          + (requests c e + late_failures c e)
          + total_of (λ e. requests c e + late_failures c e) es
        ≡ total
          + ((requests c e + late_failures c e)
              + total_of (λ e. requests c e + late_failures c e) es) =
      omega arith in
    subst
      (λ k.
        Counted k c
          (total
            + ((requests c e + late_failures c e)
                + total_of (λ e. requests c e + late_failures c e) es))
          (on_command_events es (on_command_event e wm)))
      here
      (subst (λ t. Counted (suc n + length es) c t (on_command_events es (on_command_event e wm)))
        all
        (on_command_events-Counted es (suc n) c (total + (requests c e + late_failures c e))
          (on_command_event e wm) (omega arith)
          (on_command_event-Counted n c total e wm (omega arith) v)))

total_of-add :
    (f g : Event → ℕ) (es : List Event)
    → total_of (λ e. f e + g e) es ≡ total_of f es + total_of g es
unfolding total_of
total_of-add f g [] = refl
total_of-add f g (e ∷ es) = omega (arith, total_of-add f g es)

-- After fewer than 2^64 events, the replies written for a client and its commands still pending are as
-- many as its requests, and one more for each request that failed after its child was started, because
-- the event loop refused a pipe or the timeout: that one is answered with the error, and its command
-- stays pending and is answered too. So of a client's only request, unless it failed in this way, either
-- its command is pending or exactly one reply was written.
pub answers_lem :
    (es : List Event) (c : ℕ)
    → length es < 18446744073709551616
    → answers c (on_command_events es at_start)
        + tally c (on_command_events es at_start).pending_commands
      ≡ total_of (requests c) es + total_of (late_failures c) es
answers_lem es c h =
    (on_command_events-Counted es 0 c 0 at_start (omega arith)
      (record { distinct = tt; given = tt; few = omega arith; exact = refl })).exact
    ∙ (let sum : total_of (λ e. requests c e + late_failures c e) es
            ≡ total_of (requests c) es + total_of (late_failures c) es =
          total_of-add (requests c) (late_failures c) es in
        omega (arith, sum))
