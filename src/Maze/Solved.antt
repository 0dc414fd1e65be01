-- ===== src/Maze/Solved.antt =====
-- The solver of crates/shoestring-lock/src/maze.rs reaches the target of a perfect maze.
use shoestring_wm.Prelude.{
  ℕ, zero, suc, ◌+◌, ◌-◌, ◌*◌, ◌≤◌, ◌<◌, ◌≡◌, ◌≢◌, refl, ap, sym, subst, ◌∙◌, inl, inr, Bool, true,
  false, not, Option, none, some, List, [], ◌∷◌, arith, if◌then◌else◌, length-set, Bool-cases,
  to_nat,
}
use shoestring_wm.Maze.Array.{
  replicate, total-set, total-replicate, length-replicate, get_or-replicate,
}
use shoestring_wm.Maze.Rng.{Rng}
use shoestring_wm.Maze.Grid.{
  Cell, Dir, Walls, all_walls, beside, beside-IsCell, IsCell, look, put, look-put, idx, idx-lt,
  same, same_self, eq_of_same,
}
use shoestring_wm.Maze.Walls.{has_place}
use shoestring_wm.Maze.Invariant.{On}
use shoestring_wm.Maze.Paths.{Reach, here, step, IsPerfect, Reach-IsCell}
use shoestring_wm.Maze.Carve.{Maze, generate_dfs}
use shoestring_wm.Maze.Perfect.{generate_dfs-IsPerfect}
use shoestring_wm.Maze.Choice.{chosen-IsWay, none_chosen}
use shoestring_wm.Maze.Solve.{
  CellState, untouched, live, dead, DrawEvent, solved, Solver, is_untouched, head, new, ordered,
  first_untouched, go_on, step_from, solve,
}
use shoestring_wm.Maze.Solve as Solve
use shoestring_wm.Maze.Solving.{
  touched, IsTrail, IsSolving, work, advance-IsSolving, retreat-IsSolving,
}

module _ (width height : ℕ) (target : Cell) (smart : Bool) (cells : List Walls) (start : Cell)
    (hs : IsCell width height start) where
  Keeps : Solver → Solver → Type 0
  Keeps s after =
      IsSolving width height target smart cells start hs after
      × (work width height target smart cells start hs after + 1
          ≤ work width height target smart cells start hs s)

  way-Keeps :
      (s : Solver) (c : Cell) (rest : List Cell) (way : Option Dir)
      → s.stack ≡ c ∷ rest
      → IsSolving width height target smart cells start hs s
      → s.finished ≡ false
      → same c target ≡ false
      → first_untouched width height target smart s.state c
          (ordered width height target smart (look width cells all_walls c) c)
        ≡ way
      → Keeps s (go_on width height target smart s c rest way).0
  unfolding Keeps
  way-Keeps s c rest none is inv running apart e =
      retreat-IsSolving width height target smart cells start hs s c rest is inv running apart
        (none_chosen width height target smart s.state (look width cells all_walls c) c e)
  way-Keeps s c rest (some d) is inv running apart e =
      let (way, fresh) =
        chosen-IsWay width height target smart s.state (look width cells all_walls c) c d e in
      let (inv', less) =
        advance-IsSolving width height target smart cells start hs s c rest is inv running apart d
          way.0 way.1 fresh in
      (inv', omega arith)

  arrive-Keeps :
      (s : Solver) (c : Cell) (rest : List Cell)
      → s.stack ≡ c ∷ rest
      → IsSolving width height target smart cells start hs s
      → s.finished ≡ false
      → same c target ≡ true
      → Keeps s (record s { finished = true })
  unfolding Keeps
  arrive-Keeps s c rest is inv running there = (
    record {
      size = inv.size;
      stacked = inv.stacked;
      trail = inv.trail;
      source = inv.source;
      closed = inv.closed;
      ended = λ h. inr (ap head is ∙ ap some (eq_of_same c target there));
      going = λ h. absurd (cc h);
    },
    omega (arith, ap (λ b. to_nat (not b)) running),
  )

  step_from-Keeps :
      (s : Solver) (stack : List Cell)
      → s.stack ≡ stack
      → IsSolving width height target smart cells start hs s
      → s.finished ≡ false
      → Keeps s (step_from width height target smart s cells stack).0
  step_from-Keeps s [] is inv running = absurd (inv.going running is)
  step_from-Keeps s (c ∷ rest) is inv running =
      let way =
        first_untouched width height target smart s.state c
          (ordered width height target smart (look width cells all_walls c) c) in
      elim (Bool-cases (same c target)) [
        | inl there ↦
            subst
              (λ b.
                Keeps s
                  (if b
                    then (record s { finished = true }, some solved)
                    else go_on width height target smart s c rest way).0)
              (sym there) (arrive-Keeps s c rest is inv running there)
        | inr apart ↦
            subst
              (λ b.
                Keeps s
                  (if b
                    then (record s { finished = true }, some solved)
                    else go_on width height target smart s c rest way).0)
              (sym apart) (way-Keeps s c rest way is inv running apart refl)
      ]

  abbrev Ends : Solver → Type 0
  Ends s = IsSolving width height target smart cells start hs s × (s.finished ≡ true)

  stopped : (b : Bool) → to_nat (not b) ≤ 0 → b ≡ true
  stopped true h = refl
  stopped false h = absurd (omega (arith, h))

  -- While the work fits the rounds, the solver ends.
  solve-ends :
      (n : ℕ) (s : Solver)
      → IsSolving width height target smart cells start hs s
      → work width height target smart cells start hs s ≤ n
      → IsSolving width height target smart cells start hs
          (solve width height target smart n s cells)
        × ((solve width height target smart n s cells).finished ≡ true)
  unfolding solve Solve.step Keeps
  solve-ends zero s inv enough = (inv, stopped s.finished (omega arith))
  solve-ends (suc n) s inv enough = elim (Bool-cases s.finished) [
    | inl over ↦
        subst
          (λ b. Ends (
            if b
            then s
            else solve width height target smart n
                (if b then (s, none) else step_from width height target smart s cells s.stack).0
                cells))
          (sym over) (inv, over)
    | inr running ↦
        let (inv', less) = step_from-Keeps s s.stack refl inv running in
        subst
          (λ b. Ends (
            if b
            then s
            else solve width height target smart n
                (if b then (s, none) else step_from width height target smart s cells s.stack).0
                cells))
          (sym running)
          (solve-ends n (step_from width height target smart s cells s.stack).0 inv' (omega arith))
  ]

  new-IsSolving :
      IsSolving width height target smart cells start hs (new width height target smart start)
  new-IsSolving = record {
    size = length-set blank (idx width start) live ∙ length-replicate (width * height) untouched;
    stacked = ((hs, marked), tt);
    trail = refl;
    source = marked;
    closed = λ j hj v. inl (
        inl (
          eq_of_same j start (
            first_touched (same j start) (sym (ap (λ t. not (is_untouched t)) (first j hj)) ∙ v))));
    ended = λ h. absurd (cc h);
    going = λ h e. absurd (cc e);
  }
    where
      blank : List CellState
      blank = replicate (width * height) untouched

      first :
          (j : Cell)
          → IsCell width height j
          → look width (put width blank start live) untouched j
            ≡ (if same j start then live else untouched)
      first j hj =
          look-put width height blank start j live untouched
            (length-replicate (width * height) untouched) hs hj
          ∙ ap (λ b. if same j start then live else b)
              (get_or-replicate (width * height) untouched (idx width j))

      marked :
          touched width height target smart cells start hs (put width blank start live) start ≡ true
      marked =
          ap (λ t. not (is_untouched t))
            (first start hs ∙ ap (λ b. if b then live else untouched) (same_self start))

      first_touched :
          (b : Bool) → not (is_untouched (if b then live else untouched)) ≡ true → b ≡ true
      first_touched true h = refl
      first_touched false h = absurd (cc h)

  work-new :
      work width height target smart cells start hs (new width height target smart start)
      ≤ 2 * (width * height)
  work-new =
      let n = width * height in
      let size = length-replicate n untouched in
      omega (
        arith,
        total-replicate (λ t. to_nat (is_untouched t)) n untouched,
        total-set (λ t. to_nat (is_untouched t)) (replicate n untouched) (idx width start) live
            untouched (has_place width height (replicate n untouched) start size hs),
        ap (λ t. to_nat (is_untouched t)) (get_or-replicate n untouched (idx width start)),
        idx-lt width height start hs,
      )

  settled :
      (s : Solver)
      → IsSolving width height target smart cells start hs s
      → s.stack ≡ []
      → (b : Cell) → IsCell width height b
      → touched width height target smart cells start hs s.state b ≡ true
      → (b ≢ target) × (touched width height target smart cells start hs s.state b ≡ true)
  settled s inv empty b hb t = elim (inv.closed b hb t) [
    | inl on ↦ absurd (subst (On b) empty on)
    | inr (other, _) ↦ (other, t)
  ]

  -- With an empty stack, all that is reached from the start was touched.
  exhausted :
      (s : Solver)
      → IsSolving width height target smart cells start hs s
      → s.stack ≡ []
      → {b : Cell} → Reach width height cells start b
      → (b ≢ target) × (touched width height target smart cells start hs s.state b ≡ true)
  exhausted s inv empty here = settled s inv empty start hs inv.source
  exhausted s inv empty (step {b} {c} r d has gone e) =
      let hb = Reach-IsCell width height cells start hs r in
      let (_, before) = exhausted s inv empty r in
      let now : touched width height target smart cells start hs s.state (beside b d) ≡ true =
        elim (inv.closed b hb before) [
          | inl on ↦ absurd (subst (On b) empty on)
          | inr (_, done) ↦ done d has gone
        ] in
      let hc = beside-IsCell width height b d hb has in
      subst
        (λ x. (x ≢ target) × (touched width height target smart cells start hs s.state x ≡ true))
        (sym e) (settled s inv empty (beside b d) hc now)

  -- On a perfect maze the solver ends within two rounds for each cell, at the target, and the cells
  -- of its stack are a way from the start to the target that crosses no wall.
  pub solver_reaches :
      IsPerfect width height cells
      → IsCell width height target
      → let s =
          solve width height target smart
            (2 * (width * height))
            (new width height target smart start)
            cells in
        (s.finished ≡ true)
        × (head s.stack ≡ some target)
        × IsTrail width height target smart cells start hs s.stack
  solver_reaches perfect ht =
      let s =
        solve width height target smart (2 * (width * height)) (new width height target smart start)
          cells in
      let (inv, over) =
        solve-ends (2 * (width * height)) (new width height target smart start) new-IsSolving
          work-new in
      (
        over,
        elim (inv.ended over) [
          | inl empty ↦
              absurd ((exhausted s inv empty (perfect.connected start target hs ht)).0 refl)
          | inr at ↦ at
        ],
        inv.trail,
      )

-- The lock screen's maze, from its first cell to its last, is solved, whatever the random numbers.
pub generated_solved :
    (width height : ℕ) (rng rng' : Rng) (m : Maze) (smart : Bool)
    → (wide : 0 < width) → (high : 0 < height) → generate_dfs width height rng ≡ some (m, rng')
    → let target : Cell = (width - 1, height - 1) in
      let s =
        solve width height target smart
          (2 * (width * height))
          (new width height target smart (0, 0))
          m.cells in
      (s.finished ≡ true)
      × (head s.stack ≡ some target)
      × IsTrail width height target smart m.cells (0, 0) (wide, high) s.stack
generated_solved width height rng rng' m smart wide high h =
    let (_, _, perfect) = generate_dfs-IsPerfect width height rng m rng' wide high h in
    solver_reaches width height (width - 1, height - 1) smart m.cells (0, 0) (wide, high) perfect
      (omega arith, omega arith)
