-- ===== src/Maze.antt =====
-- crates/shoestring-lock/src/maze.rs: the maze of the lock screen and its solver. `Maze.Grid` has the
-- cells and their walls, `Maze.Carve` the generator, `Maze.Solve` the solver.
pub mod Array
pub mod Rng
pub mod Grid
pub mod Carve
pub mod Walls
pub mod Ends
pub mod Paths
pub mod Invariant
pub mod Perfect
pub mod Solve
pub mod Choice
pub mod Solving
pub mod Solved
pub mod Animation
pub mod CellSize
pub mod Shown
mod Examples
