-- ===== src/Maze/Paths.antt =====
-- What a perfect maze is, for crates/shoestring-lock/src/maze.rs.
use shoestring_wm.Prelude.{
  ℕ, zero, suc, ◌+◌, ◌-◌, ◌*◌, ◌≡◌, sym, subst, ◌∙◌, true, false, List, arith, length,
}
use shoestring_wm.Maze.Array.{total}
use shoestring_wm.Maze.Grid.{
  Cell, Dir, north, east, south, west, opposite, Walls, all_walls, stands, beside, has_beside,
  beside-IsCell, beside_back, IsCell, look,
}
use shoestring_wm.Maze.Walls.{openings}

module _ (width height : ℕ) where
  -- The walks from `a`: each step goes to a cell beside, where no wall stands.
  pub data Reach (cells : List Walls) (a : Cell) : Cell → Type 0 where
    here : Reach cells a a
    step :
        {b c : Cell}
        → Reach cells a b
        → (d : Dir) → has_beside width height b d ≡ true
        → stands d (look width cells all_walls b) ≡ false
        → c ≡ beside b d
        → Reach cells a c

  -- The two sides of a wall agree.
  abbrev pub IsMirrored : List Walls → Type 0
  IsMirrored cells =
      (j : Cell) (e : Dir)
      → IsCell width height j
      → has_beside width height j e ≡ true
      → stands e (look width cells all_walls j)
        ≡ stands (opposite e) (look width cells all_walls (beside j e))

  -- The maze is closed to the outside.
  abbrev pub IsEnclosed : List Walls → Type 0
  IsEnclosed cells =
      (j : Cell) (e : Dir)
      → IsCell width height j
      → has_beside width height j e ≡ false
      → stands e (look width cells all_walls j) ≡ true

  -- A spanning tree: all cells are connected, by one passage less than there are cells, each seen
  -- from its two ends.
  pub record IsPerfect (cells : List Walls) : Type 0 where
    pub size : length cells ≡ width * height
    pub mirrored : IsMirrored cells
    pub enclosed : IsEnclosed cells
    pub tree : total openings cells + 2 ≡ 2 * (width * height)
    pub connected : (a b : Cell) → IsCell width height a → IsCell width height b → Reach cells a b

  pub Reach-IsCell :
      (cells : List Walls) (a : Cell) {b : Cell}
      → IsCell width height a
      → Reach cells a b
      → IsCell width height b
  Reach-IsCell cells a h here = h
  Reach-IsCell cells a h (step {b} {c} r d has open_wall e) =
      rw e (beside-IsCell width height b d (Reach-IsCell cells a h r) has)

  pub Reach-append :
      (cells : List Walls) (a : Cell) {b c : Cell}
      → Reach cells a b
      → Reach cells b c
      → Reach cells a c
  Reach-append cells a r here = r
  Reach-append cells a r (step q d has open_wall e) =
      step (Reach-append cells a r q) d has open_wall e

  pub Reach-sym :
      (cells : List Walls) (a : Cell) {b : Cell}
      → IsMirrored cells
      → IsCell width height a
      → Reach cells a b
      → Reach cells b a
  Reach-sym cells a mirrored h here = here
  Reach-sym cells a mirrored h (step {b} {c} r d has open_wall e) =
      let hb = Reach-IsCell cells a h r in
      let (back, has_back) = beside_back width height b d hb has in
      rw e (
        Reach-append cells (beside b d)
          (step here (opposite d) has_back (sym (mirrored b d hb has) ∙ open_wall) (sym back))
          (Reach-sym cells a mirrored h r))

  -- Walls that were gone stay so.
  pub Reach-mono :
      (cells more : List Walls) (a : Cell) {b : Cell}
      → ((j : Cell) (e : Dir)
          → IsCell width height j
          → stands e (look width cells all_walls j) ≡ false
          → stands e (look width more all_walls j) ≡ false)
      → IsCell width height a
      → Reach cells a b
      → Reach more a b
  Reach-mono cells more a keep h here = here
  Reach-mono cells more a keep h (step {b} {c} r d has open_wall e) =
      step (Reach-mono cells more a keep h r) d has (keep b d (Reach-IsCell cells a h r) open_wall)
        e

  module _ (P : Cell → Type 0)
      (keep : (j : Cell) (e : Dir)
        → IsCell width height j
        → has_beside width height j e ≡ true
        → P j
        → P (beside j e)) where
    to_west : (x y : ℕ) → IsCell width height (x, y) → P (x, y) → P (0, y)
    to_west zero y h p = p
    to_west (suc x) y h p =
        let e : suc x - 1 ≡ x = omega arith in
        to_west x y (omega arith)
          (subst (λ t. P (t, y)) e (keep (suc x, y) west (omega arith) (ground arith) p))

    to_north : (x y : ℕ) → IsCell width height (x, y) → P (x, y) → P (x, 0)
    to_north x zero h p = p
    to_north x (suc y) h p =
        let e : suc y - 1 ≡ y = omega arith in
        to_north x y (omega arith)
          (subst (λ t. P (x, t)) e (keep (x, suc y) north (omega arith) (ground arith) p))

    to_east : (x y : ℕ) → IsCell width height (x, y) → P (0, y) → P (x, y)
    to_east zero y h p = p
    to_east (suc x) y h p =
        let e : x + 1 ≡ suc x = omega arith in
        subst (λ t. P (t, y)) e
          (keep (x, y) east (omega arith) (ground arith) (to_east x y (omega arith) p))

    to_south : (x y : ℕ) → IsCell width height (x, y) → P (x, 0) → P (x, y)
    to_south x zero h p = p
    to_south x (suc y) h p =
        let e : y + 1 ≡ suc y = omega arith in
        subst (λ t. P (x, t)) e
          (keep (x, y) south (omega arith) (ground arith) (to_south x y (omega arith) p))

    -- What holds of a cell and of the cells beside any for which it holds, holds of all cells.
    pub every_cell : (a b : Cell) → IsCell width height a → P a → IsCell width height b → P b
    every_cell (x, y) (u, v) ha pa hb =
        to_south u v hb (to_north u y (hb.0, ha.1) (to_east u y (hb.0, ha.1) (to_west x y ha pa)))
