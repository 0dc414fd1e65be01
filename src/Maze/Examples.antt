-- ===== src/Maze/Examples.antt =====
-- The theorems about crates/shoestring-lock/src/maze.rs at a concrete maze.
use shoestring_wm.Prelude.{◌≡◌, ◌≢◌, ◌≤◌, ◌*◌, refl, true, false, none, some, [], ◌∷◌, arith}
use shoestring_wm.Maze.Rng.{advanced, next_u32, gen_range}
use shoestring_wm.Maze.Grid.{Cell, IsCell}
use shoestring_wm.Maze.Paths.{IsPerfect}
use shoestring_wm.Maze.Perfect.{generate_dfs_ends, generate_dfs-IsPerfect}
use shoestring_wm.Maze.Array.{replicate}
use shoestring_wm.Maze.Animation.{fresh_solver, pick_cell_size, cells_across}
use shoestring_wm.Maze.CellSize.{cells_fit}
use shoestring_wm.Maze.Shown.{Shows, showing, maze_shown_solved}
use shoestring_wm.Maze.Solve.{
  Solver, head, new, solve, step, ordered, sorted_by, candidates, first_untouched, go_on,
}
use shoestring_wm.Maze.Solving.{IsTrail}
use shoestring_wm.Maze.Solved.{generated_solved}
use shoestring_wm.Maze.Carve.{Maze, carve, carve_all, neighbours, generate_dfs}

abbrev sample : Maze
sample = record {
  width = 2;
  height = 2;
  cells =
      record { on_north = true; on_east = false; on_south = true; on_west = true }
      ∷ record { on_north = true; on_east = true; on_south = false; on_west = false }
      ∷ record { on_north = true; on_east = false; on_south = true; on_west = true }
      ∷ record { on_north = false; on_east = true; on_south = true; on_west = false }
      ∷ [];
}

sample_generated : generate_dfs 2 2 42 ≡ some (sample, 5661411637479084162)
unfolding generate_dfs carve_all carve neighbours gen_range next_u32 advanced
sample_generated = refl

generate_dfs_ends_example : generate_dfs 60 40 7 ≢ none
generate_dfs_ends_example = generate_dfs_ends 60 40 7 (omega arith) (omega arith)

generate_dfs-IsPerfect_example :
    (sample.width ≡ 2) × (sample.height ≡ 2) × IsPerfect 2 2 sample.cells
generate_dfs-IsPerfect_example =
    generate_dfs-IsPerfect 2 2 42 sample 5661411637479084162 (omega arith) (omega arith)
      sample_generated

abbrev corner : Cell
corner = (1, 1)

abbrev in_sample : IsCell 2 2 (0, 0)
in_sample = (omega arith, omega arith)

generated_solved_example :
    let s = solve 2 2 corner true 8 (new 2 2 corner true (0, 0)) sample.cells in
    (s.finished ≡ true)
    × (head s.stack ≡ some corner)
    × IsTrail 2 2 corner true sample.cells (0, 0) in_sample s.stack
generated_solved_example =
    generated_solved 2 2 42 5661411637479084162 sample true (omega arith) (omega arith)
      sample_generated

-- The way that is shown: down the second column.
sample_way :
    (solve 2 2 corner true 8 (new 2 2 corner true (0, 0)) sample.cells).stack
    ≡ (1, 1) ∷ (1, 0) ∷ (0, 0) ∷ []
unfolding solve step ordered sorted_by candidates first_untouched go_on
sample_way = refl

maze_shown_solved_example :
    (s : Solver) × (head s.stack ≡ some corner)
    × Shows
        (replicate 8 0)
        (showing sample 5661411637479084162 (fresh_solver sample))
        sample
        5661411637479084162
        s
maze_shown_solved_example =
    maze_shown_solved 2 2 42 5661411637479084162 sample (replicate 8 0) (omega arith) (omega arith)
      sample_generated refl

cells_fit_example :
    (12 ≤ pick_cell_size 1920 1080)
    × (pick_cell_size 1920 1080 ≤ 24)
    × (cells_across 1920 (pick_cell_size 1920 1080) * pick_cell_size 1920 1080 ≤ 1920)
    × (cells_across 1080 (pick_cell_size 1920 1080) * pick_cell_size 1920 1080 ≤ 1080)
cells_fit_example = cells_fit 1920 1080 (omega arith) (omega arith)
