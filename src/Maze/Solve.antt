-- ===== src/Maze/Solve.antt =====
-- `Solver` of crates/shoestring-lock/src/maze.rs. Its fields that never change, the sides of the maze,
-- the target and the mode, are parameters.
use shoestring_wm.Prelude.{
  ℕ, zero, suc, ◌+◌, ◌-◌, ◌*◌, ◌&&◌, not, Bool, true, false, Option, none, some, List, [], ◌∷◌,
  if◌then◌else◌, ltb,
}
use shoestring_wm.Maze.Array.{replicate}
use shoestring_wm.Maze.Grid.{
  Cell, Dir, north, east, south, west, Walls, all_walls, stands, beside, has_beside, same, look,
  put,
}

pub data CellState : Type 0 where
  untouched live dead : CellState

pub data DrawEvent : Type 0 where
  entered_live : Cell → DrawEvent
  marked_dead : Cell → DrawEvent
  solved : DrawEvent

-- The head of the list is the top of the stack.
pub record Solver : Type 0 where
  pub stack : List Cell
  pub state : List CellState
  pub finished : Bool

abbrev pub is_untouched : CellState → Bool
is_untouched untouched = true
is_untouched live = false
is_untouched dead = false

abbrev pub distance : ℕ → ℕ → ℕ
distance a b = (a - b) + (b - a)

-- The inner loop of the sort: a candidate moves towards the front while it is closer than the one
-- before it. The sorted ones come last first.
abbrev pub moved_up : (Dir → ℕ) → Dir → List Dir → List Dir
moved_up key d [] = d ∷ []
moved_up key d (e ∷ es) = if ltb (key d) (key e) then e ∷ moved_up key d es else d ∷ e ∷ es

abbrev pub sort_onto : (Dir → ℕ) → List Dir → List Dir → List Dir
sort_onto key sorted [] = sorted
sort_onto key sorted (d ∷ ds) = sort_onto key (moved_up key d sorted) ds

abbrev pub reverse_onto : List Dir → List Dir → List Dir
reverse_onto acc [] = acc
reverse_onto acc (d ∷ ds) = reverse_onto (d ∷ acc) ds

unfoldable pub sorted_by : (Dir → ℕ) → List Dir → List Dir
sorted_by key ds = reverse_onto [] (sort_onto key [] ds)

abbrev pub is_nil : List Cell → Bool
is_nil [] = true
is_nil (c ∷ cs) = false

abbrev pub head : List Cell → Option Cell
head [] = none
head (c ∷ cs) = some c

module _ (width height : ℕ) (target : Cell) (smart : Bool) where
  abbrev pub cell_state : List CellState → Cell → CellState
  cell_state state c = look width state untouched c

  abbrev pub new : Cell → Solver
  new start = record {
    stack = start ∷ [];
    state = put width (replicate (width * height) untouched) start live;
    finished = false;
  }

  abbrev pub pass : Walls → Cell → Dir → List Dir → List Dir
  pass walls c d rest =
      if not (stands d walls) && has_beside width height c d then d ∷ rest else rest

  unfoldable pub candidates : Walls → Cell → List Dir
  candidates walls c =
      pass walls c north (pass walls c east (pass walls c south (pass walls c west [])))

  abbrev pub to_target : Cell → Dir → ℕ
  to_target c d = distance (beside c d).0 target.0 + distance (beside c d).1 target.1

  unfoldable pub ordered : Walls → Cell → List Dir
  ordered walls c =
      if smart then sorted_by (to_target c) (candidates walls c) else candidates walls c

  unfoldable pub first_untouched : List CellState → Cell → List Dir → Option Dir
  first_untouched state c [] = none
  first_untouched state c (d ∷ ds) =
      let later = first_untouched state c ds in
      if is_untouched (cell_state state (beside c d)) then some d else later

  -- With the top of the stack, what is below it, and the way to go.
  unfoldable pub go_on : Solver → Cell → List Cell → Option Dir → Solver × Option DrawEvent
  go_on s c rest (some d) = (
    record s { state = put width s.state (beside c d) live; stack = beside c d ∷ s.stack },
    some (entered_live (beside c d)),
  )
  go_on s c rest none = (
    record {
      stack = rest;
      state = put width s.state c dead;
      finished = if is_nil rest then true else s.finished;
    },
    some (marked_dead c),
  )

  abbrev pub step_from : Solver → List Walls → List Cell → Solver × Option DrawEvent
  step_from s cells [] = (s, none)
  step_from s cells (c ∷ rest) =
      let onward =
        go_on s c rest (first_untouched s.state c (ordered (look width cells all_walls c) c)) in
      if same c target then (record s { finished = true }, some solved) else onward

  unfoldable pub step : Solver → List Walls → Solver × Option DrawEvent
  step s cells = let next = step_from s cells s.stack in if s.finished then (s, none) else next

  -- `while !solver.finished() { solver.step(maze); }`, for at most so many rounds.
  unfoldable pub solve : ℕ → Solver → List Walls → Solver
  solve zero s cells = s
  solve (suc n) s cells =
      let next = solve n (step s cells).0 cells in if s.finished then s else next
