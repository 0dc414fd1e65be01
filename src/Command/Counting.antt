-- ===== src/Command/Counting.antt =====
-- The commands of a client that are pending or answered, around each event of src/remote_command.rs.
use shoestring_wm.Prelude.{
  ℕ, suc, ◌+◌, ◌≤◌, ◌<◌, ◌≡◌, ◌≢◌, refl, sym, ap, subst, ◌==◌, Bool, true, false, Bool-cases, inl,
  inr, Option, none, some, List, arith, if◌then◌else◌, count_if, to_nat, u64, ℤ,
}
use shoestring_wm.Command.{
  PipeKind, stdout, stderr, Pending, Response, Wm, get, put, finalized, finalize_remote_command,
  ready, finalize_if_ready, closed, close_pipe, arm_grace, reap, kill_group, end_grace, with_output,
  take_output, time_out,
}
use shoestring_wm.Command.Keys.{
  Found, Keys, Distinct, tally, Keys-remove, remove-Keys, Distinct-remove, remove_absent,
  tally_found, tally-remove, get-Keys, Keys-weaken,
}

-- How many replies a client has had.
abbrev pub answers : ℕ → Wm → ℕ
answers c wm = count_if (λ (r : ℕ × Response). r.0 == c) wm.replies

-- A client's commands: so many are answered or pending, each under a key of its own that was given out.
pub record Counted (n c total : ℕ) (wm : Wm) : Type 0 where
  pub distinct : Distinct wm.pending_commands
  pub given : Keys (λ k. k < wm.next_command_id) wm.pending_commands
  pub few : wm.next_command_id ≤ n
  pub exact : answers c wm + tally c wm.pending_commands ≡ total

pub put-Counted :
    (n c total id : ℕ) (p p' : Pending) (wm : Wm)
    → get id wm.pending_commands ≡ some p
    → p'.client_id ≡ p.client_id
    → Counted n c total wm
    → Counted n c total (put id p' wm)
put-Counted n c total id p p' wm e same v = record {
  distinct =
      (remove-Keys id wm.pending_commands, Distinct-remove id wm.pending_commands v.distinct);
  given = (
    subst (Found (λ p. id < wm.next_command_id)) e
        (get-Keys (λ k. k < wm.next_command_id) id wm.pending_commands v.given),
    Keys-remove (λ k. k < wm.next_command_id) id wm.pending_commands v.given,
  );
  few = v.few;
  exact = omega (
    arith,
    v.exact,
    tally-remove c id wm.pending_commands v.distinct,
    ap (tally_found c) e,
    ap (λ k. to_nat (k == c)) same,
  );
}

finalized-Counted :
    (n c total id : ℕ) (o : Option Pending) (wm : Wm)
    → get id wm.pending_commands ≡ o
    → Counted n c total wm
    → Counted n c total (finalized id o wm)
finalized-Counted n c total id none wm e v = v
finalized-Counted n c total id (some p) wm e v = record {
  distinct = Distinct-remove id wm.pending_commands v.distinct;
  given = Keys-remove (λ k. k < wm.next_command_id) id wm.pending_commands v.given;
  few = v.few;
  exact =
      omega
        (arith, v.exact, tally-remove c id wm.pending_commands v.distinct, ap (tally_found c) e);
}

finalize_if_ready-Counted :
    (n c total id : ℕ) (o : Option Pending) (wm : Wm)
    → Counted n c total wm
    → Counted n c total (finalize_if_ready id o wm)
finalize_if_ready-Counted n c total id none wm v = v
finalize_if_ready-Counted n c total id (some p) wm v = elim (Bool-cases (ready p)) [
  | inl done ↦ subst after (sym done) (finalized-Counted n c total id _ wm refl v)
  | inr more ↦ subst after (sym more) v
]
  where
    after : Bool → Type 0
    after r = Counted n c total (if r then finalize_remote_command id wm else wm)

pub close_pipe-Counted :
    (n c total id : ℕ) (kind : PipeKind) (o : Option Pending) (wm : Wm)
    → get id wm.pending_commands ≡ o
    → Counted n c total wm
    → Counted n c total (close_pipe id kind o wm)
close_pipe-Counted n c total id kind none wm e v = v
close_pipe-Counted n c total id stdout (some p) wm e v =
    finalize_if_ready-Counted n c total id _ _
      (put-Counted n c total id p (closed stdout p) wm e refl v)
close_pipe-Counted n c total id stderr (some p) wm e v =
    finalize_if_ready-Counted n c total id _ _
      (put-Counted n c total id p (closed stderr p) wm e refl v)

arm_grace-Counted :
    (inserted : Bool) (n c total id : ℕ) (o : Option Pending) (wm : Wm)
    → get id wm.pending_commands ≡ o
    → Counted n c total wm
    → Counted n c total (arm_grace inserted id o wm)
arm_grace-Counted inserted n c total id none wm e v = v
arm_grace-Counted true n c total id (some p) wm e v =
    put-Counted n c total id p (record p { grace = true }) wm e refl v
arm_grace-Counted false n c total id (some p) wm e v = v

pub reap-Counted :
    (inserted : Bool) (status : Option ℤ) (n c total : ℕ) (o : Option (ℕ × Pending)) (wm : Wm)
    → Found (λ (d : ℕ × Pending). (get d.0 wm.pending_commands ≡ some d.1) × Unit) o
    → Counted n c total wm
    → Counted n c total (reap inserted status o wm).0
reap-Counted inserted status n c total none wm f v = v
reap-Counted inserted status n c total (some (id, p)) wm f v =
    arm_grace-Counted inserted n c total id _ _ refl (
      finalize_if_ready-Counted n c total id _ _
        (put-Counted n c total id p (record p { exit_status = some status }) wm f.0 refl v))

pub take_output-Counted :
    (n c total id : ℕ) (kind : PipeKind) (bytes : List ℕ) (o : Option Pending) (wm : Wm)
    → get id wm.pending_commands ≡ o
    → Counted n c total wm
    → Counted n c total (take_output id kind bytes o wm)
take_output-Counted n c total id kind bytes none wm e v = v
take_output-Counted n c total id stdout bytes (some p) wm e v =
    put-Counted n c total id p (with_output stdout bytes p) wm e refl v
take_output-Counted n c total id stderr bytes (some p) wm e v =
    put-Counted n c total id p (with_output stderr bytes p) wm e refl v

pub end_grace-Counted :
    (n c total id : ℕ) (o : Option Pending) (wm : Wm)
    → get id wm.pending_commands ≡ o
    → Counted n c total wm
    → Counted n c total (end_grace id o wm)
end_grace-Counted n c total id none wm e v = v
end_grace-Counted n c total id (some p) wm e v =
    finalized-Counted n c total id _ (kill_group p.pid (put id (record p { grace = false }) wm))
      refl (killed (put-Counted n c total id p (record p { grace = false }) wm e refl v))
  where
    killed : {w : Wm} → Counted n c total w → Counted n c total (kill_group p.pid w)
    killed v = record { distinct = v.distinct; given = v.given; few = v.few; exact = v.exact }

pub time_out-Counted :
    (n c total id : ℕ) (o : Option Pending) (wm : Wm)
    → get id wm.pending_commands ≡ o
    → Counted n c total wm
    → Counted n c total (time_out id o wm)
time_out-Counted n c total id none wm e v = v
time_out-Counted n c total id (some p) wm e v =
    let u : Counted n c total (put id (record p { timer = false }) wm) =
      put-Counted n c total id p (record p { timer = false }) wm e refl v in
    record { distinct = u.distinct; given = u.given; few = u.few; exact = u.exact }

pub later_Counted :
    (n c total : ℕ) (wm : Wm) → Counted n c total wm → Counted (suc n) c (total + 0) wm
later_Counted n c total wm v = record {
  distinct = v.distinct;
  given = v.given;
  few = omega (arith, v.few);
  exact = omega (arith, v.exact);
}

-- A new command gets a key that no pending one has.
pub fresh-Counted :
    (n c total : ℕ) (p : Pending) (wm : Wm)
    → suc n < 18446744073709551616
    → Counted n c total wm
    → Counted
        (suc n)
        c
        (total + to_nat (p.client_id == c))
        (put wm.next_command_id p (record wm { next_command_id = u64 (wm.next_command_id + 1) }))
fresh-Counted n c total p wm h v = record {
  distinct = (
    remove-Keys wm.next_command_id wm.pending_commands,
    Distinct-remove wm.next_command_id wm.pending_commands v.distinct,
  );
  given = (
    omega (arith, next),
    Keys-remove (λ k. k < u64 (wm.next_command_id + 1)) wm.next_command_id wm.pending_commands
        (Keys-weaken (λ k. k < wm.next_command_id) (λ k. k < u64 (wm.next_command_id + 1))
          wm.pending_commands (λ k l. omega (arith, next, l)) v.given),
  );
  few = omega (arith, next, v.few);
  exact =
      omega (
        arith,
        v.exact,
        ap (tally c) (remove_absent wm.next_command_id wm.pending_commands absent),
      );
}
  where
    next : u64 (wm.next_command_id + 1) ≡ wm.next_command_id + 1
    next = omega (arith, v.few)

    absent : Keys (λ k. k ≢ wm.next_command_id) wm.pending_commands
    absent =
        Keys-weaken (λ k. k < wm.next_command_id) (λ k. k ≢ wm.next_command_id) wm.pending_commands
          (λ k l. omega (arith, l)) v.given
