-- ===== src/Maze/Carve.antt =====
-- `Maze::generate_dfs` of crates/shoestring-lock/src/maze.rs.
use shoestring_wm.Prelude.{
  ℕ, zero, suc, ◌*◌, ◌==◌, ◌||◌, ◌&&◌, not, Bool, true, false, Option, none, some, List, [], ◌∷◌,
  if◌then◌else◌, length,
}
use shoestring_wm.Maze.Array.{get_or, replicate}
use shoestring_wm.Maze.Rng.{Rng, gen_range}
use shoestring_wm.Maze.Grid.{
  Cell, Dir, north, east, south, west, opposite, Walls, all_walls, cleared, beside, has_beside,
  look, put,
}

pub record Maze : Type 0 where
  pub width : ℕ
  pub height : ℕ
  pub cells : List Walls

abbrev pub walls : Maze → Cell → Walls
walls m c = look m.width m.cells all_walls c

-- The variables of the loop; the head of the list is the top of the stack.
pub record Carving : Type 0 where
  pub cells : List Walls
  pub visited : List Bool
  pub stack : List Cell
  pub rng : Rng

module _ (width height : ℕ) where
  abbrev pub was_visited : List Bool → Cell → Bool
  was_visited visited c = look width visited false c

  -- One of the four guarded writes to `neighbors`.
  abbrev pub offer : List Bool → Cell → Dir → List Dir → List Dir
  offer visited c d rest =
      if has_beside width height c d && not (was_visited visited (beside c d))
      then d ∷ rest
      else rest

  -- A neighbour is given by its direction, which also says what walls stand between.
  unfoldable pub neighbours : List Bool → Cell → List Dir
  neighbours visited c =
      offer visited c north (offer visited c east (offer visited c south (offer visited c west [])))

  unfoldable pub carve : Carving → Cell → Dir → Carving
  carve s c d =
      let n = beside c d in
      let out = put width s.cells c (cleared d (look width s.cells all_walls c)) in
      record s {
        cells = put width out n (cleared (opposite d) (look width out all_walls n));
        visited = put width s.visited n true;
        stack = n ∷ s.stack;
      }

  -- With the top of the stack, what is below it, and the neighbours that are left.
  abbrev pub carve_step_at : Carving → Cell → List Cell → List Dir → Carving
  carve_step_at s c rest [] = record s { stack = rest }
  carve_step_at s c rest (d ∷ ds) =
      let (pick, rng) = gen_range s.rng (length (d ∷ ds)) in
      carve (record s { rng = rng }) c (get_or (d ∷ ds) pick d)

  -- The `while let` loop, `none` where the fuel is too little.
  unfoldable pub carve_all : ℕ → Carving → Option Carving
  carve_all zero s = elim s.stack [ [] ↦ some s | _ ∷ _ ↦ none ]
  carve_all (suc fuel) s = elim s.stack [
    | [] ↦ some s
    | c ∷ rest ↦ carve_all fuel (carve_step_at s c rest (neighbours s.visited c))
  ]

  abbrev pub begun : Cell → Rng → Carving
  begun start rng = record {
    cells = replicate (width * height) all_walls;
    visited = put width (replicate (width * height) false) start true;
    stack = start ∷ [];
    rng = rng;
  }

  abbrev pub carved_maze : Option Carving → Option (Maze × Rng)
  carved_maze none = none
  carved_maze (some s) = some (record { width = width; height = height; cells = s.cells }, s.rng)

  -- Each cell is entered once and left once, so two rounds for each are enough. A side of 0 fails the
  -- assertion.
  unfoldable pub generate_dfs : Rng → Option (Maze × Rng)
  generate_dfs rng =
      let (x, rng1) = gen_range rng width in
      let (y, rng2) = gen_range rng1 height in
      if width == 0 || height == 0
      then none
      else carved_maze (carve_all (2 * (width * height)) (begun (x, y) rng2))
