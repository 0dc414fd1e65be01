-- ===== src/Command/Examples.antt =====
-- Commands of src/remote_command.rs.
use shoestring_wm.Prelude.{
  ℕ, ◌+◌, ◌≡◌, refl, true, false, none, some, List, [], ◌∷◌, arith, pos, negsuc, All, ltb, ◌||◌,
  take, length,
}
use shoestring_wm.Command.{
  stdout, stderr, Response, spawn_failed, command_result, run_command, get, remove, find_pid,
  spawn_remote_command, on_command_pipe_closed, note_command_reaped, on_output_grace_over,
  on_command_output, Event, request, output, eof, reaped, grace_over, on_command_event,
  on_command_events, at_start, Pending, Wm, spawned, run_command_output_cap,
}
use shoestring_wm.Command.Output.{Chunks, outputs, written, output_kept}
use shoestring_wm.Command.Text.{from_utf8_lossy, lossy_from}
use shoestring_wm.Command.Keys.{tally}
use shoestring_wm.Command.Waiting.{Waits, Fits, events-Waits}
use shoestring_wm.Command.Counting.{answers}
use shoestring_wm.Command.Answered.{requests, late_failures, total_of, answers_lem}

-- Two commands: the first exits while something holds its output, which is no text, and the timeout of
-- the second cannot be set.
abbrev two_commands : List Event
two_commands =
    request true true 7 (some 100) true none
    ∷ request true true 8 (some 101) true (some false)
    ∷ output 0 stdout (104 ∷ 255 ∷ [])
    ∷ eof 0 stderr
    ∷ reaped true 100 (some (pos 3))
    ∷ grace_over 0
    ∷ reaped true 101 none
    ∷ eof 1 stdout
    ∷ eof 1 stderr
    ∷ []

-- The second is answered with the error, and then with its result.
answered_twice :
    (on_command_events two_commands at_start).replies
    ≡ (
      8,
      command_result (record { exit_code = negsuc 0; out = []; err = []; was_truncated = false }),
    )
      ∷ (
        7,
        command_result (record {
          exit_code = pos 3;
          out = 104 ∷ 239 ∷ 191 ∷ 189 ∷ [];
          err = [];
          was_truncated = false;
        }),
      )
      ∷ (8, spawn_failed)
      ∷ []
unfolding on_command_events on_command_event run_command spawn_remote_command on_command_output
    on_command_pipe_closed note_command_reaped on_output_grace_over get remove find_pid
    from_utf8_lossy lossy_from
answered_twice = refl

events-Waits_example :
    All (λ (d : ℕ × Pending). Waits d.1) (on_command_events two_commands at_start).pending_commands
    × All (λ (r : ℕ × Response). Fits r.1) (on_command_events two_commands at_start).replies
events-Waits_example = events-Waits two_commands

answers_lem_example :
    answers 8 (on_command_events two_commands at_start)
      + tally 8 (on_command_events two_commands at_start).pending_commands
    ≡ total_of (requests 8) two_commands + total_of (late_failures 8) two_commands
answers_lem_example = answers_lem two_commands 8 (omega arith)

-- A command that has just been spawned, with some output on both streams.
abbrev chunks : Chunks
chunks = (stdout, 104 ∷ []) ∷ (stderr, 33 ∷ []) ∷ (stdout, 105 ∷ []) ∷ []

abbrev one_command : Wm
one_command = record at_start { pending_commands = (0, spawned 7 100) ∷ [] }

output_kept_example :
    (q : Pending) × (get 0 (outputs 0 chunks one_command).pending_commands ≡ some q)
    × (q.stdout_buf ≡ take run_command_output_cap (written stdout chunks))
    × (q.stderr_buf ≡ take run_command_output_cap (written stderr chunks))
    × (q.truncated ≡ (
        ltb run_command_output_cap (length (written stdout chunks))
        || ltb run_command_output_cap (length (written stderr chunks))))
unfolding get
output_kept_example = output_kept 0 (spawned 7 100) chunks one_command refl refl refl refl
