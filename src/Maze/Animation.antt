-- ===== src/Maze/Animation.antt =====
-- `Animation` of crates/shoestring-lock/src/main.rs, which shows one maze after another being solved.
-- Times are nanoseconds. Where the maze is drawn and its first seed, which comes from the clock, are
-- left out.
use shoestring_wm.Prelude.{
  ℕ, zero, suc, ◌+◌, ◌-◌, ◌/◌, ◌%◌, true, Option, none, some, List, [], ◌∷◌, ◌++◌, if◌then◌else◌,
  leb, ltb,
}
use shoestring_wm.Maze.Rng.{Rng}
use shoestring_wm.Maze.Grid.{Cell}
use shoestring_wm.Maze.Carve.{Maze, generate_dfs}
use shoestring_wm.Maze.Solve.{DrawEvent, entered_live, marked_dead, solved, Solver, new, step}

abbrev pub steps_per_frame : ℕ
steps_per_frame = 3

abbrev pub pre_solve_delay : ℕ
pre_solve_delay = 800000000

abbrev pub post_solve_delay : ℕ
post_solve_delay = 1800000000

abbrev pub target_cell_px : ℕ
target_cell_px = 24

abbrev pub min_cell_px : ℕ
min_cell_px = 12

abbrev pub min_cells : ℕ
min_cells = 12

abbrev pub min : ℕ → ℕ → ℕ
min a b = if leb a b then a else b

abbrev pub max : ℕ → ℕ → ℕ
max a b = if ltb a b then b else a

unfoldable pub pick_cell_size : ℕ → ℕ → ℕ
pick_cell_size surface_w surface_h =
    let max_by_w = max (surface_w / min_cells) min_cell_px in
    let max_by_h = max (surface_h / min_cells) min_cell_px in
    max (min (min target_cell_px max_by_w) max_by_h) min_cell_px

pub data Phase : Type 0 where
  pre_solve : ℕ → Phase
  solving : Phase
  post_solve : ℕ → Phase

pub record Animation : Type 0 where
  pub maze : Maze
  pub solver : Solver
  pub phase : Phase
  pub rng : Rng

pub data Change : Type 0 where
  unchanged : Change
  changed_cells : List Cell → Change
  everything : Change

abbrev pub fresh_solver : Maze → Solver
fresh_solver m = new m.width m.height (m.width - 1, m.height - 1) true (0, 0)

abbrev pub shown : ℕ → Option (Maze × Rng) → Option Animation
shown now none = none
shown now (some (maze, rng)) = some (record {
  maze = maze;
  solver = fresh_solver maze;
  phase = pre_solve (now + pre_solve_delay);
  rng = rng;
})

-- How many cells a side of the surface has, as a u16.
abbrev pub cells_across : ℕ → ℕ → ℕ
cells_across side cell_px = max (side / cell_px) min_cells % 65536

unfoldable pub new_animation : ℕ → ℕ → ℕ → Rng → Option Animation
new_animation now surface_w surface_h rng =
    let cell_px = pick_cell_size surface_w surface_h in
    shown now (generate_dfs (cells_across surface_w cell_px) (cells_across surface_h cell_px) rng)

abbrev pub shown_or : Animation → Option Animation → Animation
shown_or a none = a
shown_or a (some b) = b

-- The generator always makes a maze, since the sides are positive.
unfoldable pub regenerate : ℕ → Animation → Animation
regenerate now a = shown_or a (shown now (generate_dfs a.maze.width a.maze.height a.rng))

abbrev pub cells_of : Option DrawEvent → List Cell
cells_of (some (entered_live c)) = c ∷ []
cells_of (some (marked_dead c)) = c ∷ []
cells_of (some solved) = []
cells_of none = []

abbrev pub solver_step : Maze → Solver → Solver × Option DrawEvent
solver_step m s = step m.width m.height (m.width - 1, m.height - 1) true s m.cells

-- At most so many steps, and the cells that they changed.
unfoldable pub frame : ℕ → Maze → Solver → Solver × List Cell
frame zero m s = (s, [])
frame (suc n) m s =
    let (s', event) = solver_step m s in
    let rest = frame n m s' in
    if s'.finished then (s', cells_of event) else (rest.0, cells_of event ++ rest.1)

abbrev pub changes : List Cell → Change
changes [] = unchanged
changes (c ∷ cs) = changed_cells (c ∷ cs)

abbrev pub tick_in : Phase → ℕ → Animation → Animation × Change
tick_in (pre_solve until) now a =
    (if leb until now then record a { phase = solving } else a, unchanged)
tick_in solving now a =
    let (s, cells) = frame steps_per_frame a.maze a.solver in
    (
      record a {
        solver = s;
        phase = if s.finished then post_solve (now + post_solve_delay) else a.phase;
      },
      changes cells,
    )
tick_in (post_solve until) now a =
    if leb until now then (regenerate now a, everything) else (a, unchanged)

unfoldable pub tick : ℕ → Animation → Animation × Change
tick now a = tick_in a.phase now a

unfoldable pub ticks : List ℕ → Animation → Animation
ticks [] a = a
ticks (now ∷ times) a = ticks times (tick now a).0
