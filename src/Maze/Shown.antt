-- ===== src/Maze/Shown.antt =====
-- The animation of crates/shoestring-lock/src/main.rs shows each maze solved to its end.
use shoestring_wm.Prelude.{
  ℕ, zero, suc, ◌+◌, ◌-◌, ◌*◌, ◌<◌, ◌≡◌, refl, sym, ap, subst, ◌∙◌, ◌⊎◌, true, false, Bool-cases,
  inl, inr, some, List, [], ◌∷◌, ◌++◌, arith, if◌then◌else◌, length,
}
use shoestring_wm.Maze.Rng.{Rng}
use shoestring_wm.Maze.Carve.{Maze, generate_dfs}
use shoestring_wm.Maze.Paths.{IsPerfect}
use shoestring_wm.Maze.Perfect.{generate_dfs-IsPerfect}
use shoestring_wm.Maze.Solve.{Solver, head, new, solve}
use shoestring_wm.Maze.Solved.{generated_solved}
use shoestring_wm.Maze.Animation.{
  solving, post_solve, Animation, fresh_solver, solver_step, steps_per_frame, frame, tick, ticks,
  post_solve_delay,
}

abbrev run : Maze → ℕ → Solver → Solver
run m n s = solve m.width m.height (m.width - 1, m.height - 1) true n s m.cells

run_over : (m : Maze) (n : ℕ) (s : Solver) → s.finished ≡ true → run m n s ≡ s
unfolding solve
run_over m zero s h = refl
run_over m (suc n) s h = rw h refl

run_on :
    (m : Maze) (n : ℕ) (s : Solver)
    → s.finished ≡ false
    → run m (suc n) s ≡ run m n (solver_step m s).0
unfolding solve
run_on m n s h = ap (λ b. if b then s else run m n (solver_step m s).0) h

-- Once the solver has ended, more steps change nothing.
run_stable :
    (m : Maze) (n : ℕ) (s : Solver) → (run m n s).finished ≡ true → run m (suc n) s ≡ run m n s
unfolding solve
run_stable m zero s h = run_over m 1 s h
run_stable m (suc n) s h = elim (Bool-cases s.finished) [
  | inl over ↦ run_over m (suc (suc n)) s over ∙ sym (run_over m (suc n) s over)
  | inr more ↦
      run_on m (suc n) s more
      ∙ run_stable m n (solver_step m s).0 (subst (λ t. t.finished ≡ true) (run_on m n s more) h)
      ∙ sym (run_on m n s more)
]

-- A frame ends the solver, or brings it on by a step at least.
abbrev Brought : Maze → ℕ → Solver → Solver → Type 0
Brought m n s t =
    ((t.finished ≡ true) × (t ≡ run m (suc n) s))
    ⊎ ((t.finished ≡ false) × (run m n t ≡ run m (suc n) s))

frame_over :
    (k : ℕ) (m : Maze) (s : Solver)
    → (solver_step m s).0.finished ≡ true
    → (frame (suc k) m s).0 ≡ (solver_step m s).0
unfolding frame
frame_over k m s h = rw h refl

frame_on :
    (k : ℕ) (m : Maze) (s : Solver)
    → (solver_step m s).0.finished ≡ false
    → (frame (suc k) m s).0 ≡ (frame k m (solver_step m s).0).0
unfolding frame
frame_on k m s h = rw h refl

run_end :
    (m : Maze) (n : ℕ) (s : Solver)
    → s.finished ≡ false
    → (run m (suc n) s).finished ≡ true
    → (run m n (solver_step m s).0).finished ≡ true
run_end m n s more h = subst (λ t. t.finished ≡ true) (run_on m n s more) h

-- By one step, and then the rest of the frame.
step-Brought :
    (n : ℕ) (m : Maze) (s t : Solver)
    → s.finished ≡ false
    → (run m (suc (suc n)) s).finished ≡ true
    → Brought m n (solver_step m s).0 t
    → Brought m (suc n) s t
step-Brought n m s t more h (inl (f, e)) = inl (f, e ∙ sym (run_on m (suc n) s more))
step-Brought n m s t more h (inr (f, e)) = inr (
  f,
  run_stable m n t (subst (λ u. u.finished ≡ true) (sym e) (run_end m (suc n) s more h))
      ∙ e
      ∙ sym (run_on m (suc n) s more),
)

over-Brought :
    (k n : ℕ) (m : Maze) (s : Solver)
    → s.finished ≡ false
    → (solver_step m s).0.finished ≡ true
    → Brought m n s (frame (suc k) m s).0
over-Brought k n m s more over =
    subst (Brought m n s) (sym (frame_over k m s over))
      (inl (over, sym (run_on m n s more ∙ run_over m n (solver_step m s).0 over)))

frame-Brought :
    (k n : ℕ) (m : Maze) (s : Solver)
    → s.finished ≡ false
    → (run m (suc n) s).finished ≡ true
    → Brought m n s (frame (suc k) m s).0
unfolding frame solve
frame-Brought zero n m s more h = elim (Bool-cases (solver_step m s).0.finished) [
  | inl over ↦ over-Brought zero n m s more over
  | inr on ↦ subst (Brought m n s) (sym (frame_on zero m s on)) (inr (on, sym (run_on m n s more)))
]
frame-Brought (suc k) zero m s more h = elim (Bool-cases (solver_step m s).0.finished) [
  | inl over ↦ over-Brought (suc k) zero m s more over
  | inr on ↦ absurd (cc (on, run_end m 0 s more h))
]
frame-Brought (suc k) (suc n) m s more h = elim (Bool-cases (solver_step m s).0.finished) [
  | inl over ↦ over-Brought (suc k) (suc n) m s more over
  | inr on ↦ subst (Brought m (suc n) s) (sym (frame_on (suc k) m s on)) (
      step-Brought n m s _ more h
        (frame-Brought k n m (solver_step m s).0 on (run_end m (suc n) s more h)))
]

-- While the maze is being solved, and once it is.
abbrev pub showing : Maze → Rng → Solver → Animation
showing m rng s = record { maze = m; solver = s; phase = solving; rng = rng }

abbrev pub shown_solved : Maze → Rng → Solver → ℕ → Animation
shown_solved m rng s until = record { maze = m; solver = s; phase = post_solve until; rng = rng }

tick_over :
    (now : ℕ) (m : Maze) (rng : Rng) (s : Solver)
    → (frame steps_per_frame m s).0.finished ≡ true
    → (tick now (showing m rng s)).0
      ≡ shown_solved m rng (frame steps_per_frame m s).0 (now + post_solve_delay)
unfolding tick
tick_over now m rng s h =
    ap
      (λ b.
        let a : Animation = record {
          maze = m;
          solver = (frame steps_per_frame m s).0;
          phase = if b then post_solve (now + post_solve_delay) else solving;
          rng = rng;
        } in
        a)
      h

tick_on :
    (now : ℕ) (m : Maze) (rng : Rng) (s : Solver)
    → (frame steps_per_frame m s).0.finished ≡ false
    → (tick now (showing m rng s)).0 ≡ showing m rng (frame steps_per_frame m s).0
unfolding tick
tick_on now m rng s h =
    ap
      (λ b.
        let a : Animation = record {
          maze = m;
          solver = (frame steps_per_frame m s).0;
          phase = if b then post_solve (now + post_solve_delay) else solving;
          rng = rng;
        } in
        a)
      h

-- Some first ticks show the maze solved.
abbrev pub Shows : List ℕ → Animation → Maze → Rng → Solver → Type 0
Shows times a m rng s =
    (before : List ℕ) × (after : List ℕ) × (until : ℕ) × (before ++ after ≡ times)
    × (ticks before a ≡ shown_solved m rng s until)

Shows-run :
    (n : ℕ) (times : List ℕ) (m : Maze) (rng : Rng) (s : Solver)
    → length times ≡ n
    → s.finished ≡ false
    → (run m n s).finished ≡ true
    → Shows times (showing m rng s) m rng (run m n s)
unfolding ticks solve
Shows-run zero times m rng s l more h = absurd (cc (more, h))
Shows-run (suc n) [] m rng s l more h = absurd (omega (arith, l))
Shows-run (suc n) (now ∷ times) m rng s l more h = elim (frame-Brought 2 n m s more h) [
  | inl (f, e) ↦ (
    now ∷ [],
    times,
    now + post_solve_delay,
    refl,
    tick_over now m rng s f ∙ ap (λ t. shown_solved m rng t (now + post_solve_delay)) e,
  )
  | inr (f, e) ↦
      (let later : Shows times (showing m rng (frame steps_per_frame m s).0) m rng
            (run m n (frame steps_per_frame m s).0) =
          Shows-run n times m rng (frame steps_per_frame m s).0 (omega (arith, l)) f
            (subst (λ t. t.finished ≡ true) (sym e) h) in
        (
          now ∷ later.0,
          later.1,
          later.2,
          ap (◌∷◌ now) later.3,
          ap (ticks later.0) (tick_on now m rng s f)
              ∙ later.4
              ∙ ap (λ t. shown_solved m rng t later.2) e,
        ))
]

-- A generated maze that starts to be solved is shown solved, the solver at its last cell, after some of
-- the next ticks, of which there are enough with two for each cell, whenever they come.
pub maze_shown_solved :
    (width height : ℕ) (rng rng' : Rng) (m : Maze) (times : List ℕ)
    → 0 < width
    → 0 < height
    → generate_dfs width height rng ≡ some (m, rng')
    → length times ≡ 2 * (width * height)
    → (s : Solver) × (head s.stack ≡ some (width - 1, height - 1))
      × Shows times (showing m rng' (fresh_solver m)) m rng' s
maze_shown_solved width height rng rng' m times wide high made l =
    let (is_wide, is_high, _) : (m.width ≡ width)
        × (m.height ≡ height)
        × IsPerfect width height m.cells =
      generate_dfs-IsPerfect width height rng m rng' wide high made in
    let (over, at, _) = generated_solved width height rng rng' m true wide high made in
    let ended : Ended m.width m.height =
      subst (λ h. Ended m.width h) (sym is_high)
        (subst (λ w. Ended w height) (sym is_wide) (over, at)) in
    let enough : length times ≡ 2 * (m.width * m.height) =
      l ∙ ap (λ w. 2 * (w * height)) (sym is_wide) ∙ ap (λ h. 2 * (m.width * h)) (sym is_high) in
    (
      run m (2 * (m.width * m.height)) (fresh_solver m),
      ended.1
          ∙ ap (λ w. some (w - 1, m.height - 1)) is_wide
          ∙ ap (λ h. some (width - 1, h - 1)) is_high,
      Shows-run (2 * (m.width * m.height)) times m rng' (fresh_solver m) enough refl ended.0,
    )
  where
    Ended : ℕ → ℕ → Type 0
    Ended w h =
        ((solve w h (w - 1, h - 1) true (2 * (w * h)) (new w h (w - 1, h - 1) true (0, 0))
            m.cells).finished
          ≡ true)
        × (head
              (solve w h (w - 1, h - 1) true (2 * (w * h)) (new w h (w - 1, h - 1) true (0, 0))
                m.cells).stack
            ≡ some (w - 1, h - 1))
