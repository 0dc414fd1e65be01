-- ===== src/Maze/Invariant.antt =====
-- What the generator of crates/shoestring-lock/src/maze.rs keeps true.
use shoestring_wm.Prelude.{
  ℕ, ◌+◌, ◌*◌, ◌≡◌, refl, ap, sym, ◌∙◌, ◌⊎◌, inl, inr, Bool, true, false, not, ◌&&◌, ◌||◌, List, [],
  ◌∷◌, arith, if◌then◌else◌, length, length-set, All, Bool-cases, to_nat,
}
use shoestring_wm.Maze.Array.{total, total-set}
use shoestring_wm.Maze.Grid.{
  Cell, Dir, north, east, south, west, opposite, all_walls, stands, beside, has_beside,
  beside-IsCell, IsCell, look, look-put, idx, same, same_self, eq_of_same,
}
use shoestring_wm.Maze.Walls.{openings, is_between, stands-carve, openings-carve, has_place}
use shoestring_wm.Maze.Ends.{Leads, is_between_mirrored, has_beside_between}
use shoestring_wm.Maze.Paths.{Reach, step, IsMirrored, IsEnclosed, Reach-mono}
use shoestring_wm.Maze.Carve.{Carving, carve, was_visited}

-- The cell is on the stack.
abbrev pub On : Cell → List Cell → Type 0
On c [] = ⊥
On c (d ∷ ds) = (c ≡ d) ⊎ On c ds

and_not : (a b : Bool) → a ≡ true → b ≡ false → (a && not b) ≡ true
and_not a b h k = ap (λ t. t && not b) h ∙ ap not k

true_or : (b v : Bool) → (if b then true else v) ≡ false → (b ≡ false) × (v ≡ false)
true_or true v h = absurd (cc h)
true_or false v h = (refl, h)

neither : (a b x y : Bool) → a ≡ false → b ≡ false → ((a && x) || (b && y)) ≡ false
neither a b x y h k = ap (λ t. (t && x) || (b && y)) h ∙ ap (λ t. t && y) k

and_not-true : (a b : Bool) → b ≡ true → (a && not b) ≡ false
and_not-true true b h = ap not h
and_not-true false b h = refl

own_passage : (c : Cell) (d : Dir) → is_between c d c d ≡ true
own_passage c north = ground (arith, same_self c)
own_passage c east = ground (arith, same_self c)
own_passage c south = ground (arith, same_self c)
own_passage c west = ground (arith, same_self c)

module _ (width height : ℕ) where
  -- How many cells were not visited.
  abbrev pub unvisited : List Bool → ℕ
  unvisited visited = total (λ b. to_nat (not b)) visited

  pub record IsCarving (start : Cell) (s : Carving) : Type 0 where
    pub size : length s.cells ≡ width * height
    pub size_visited : length s.visited ≡ width * height
    pub stacked :
        All (λ c. IsCell width height c × (was_visited width height s.visited c ≡ true)) s.stack
    pub source : was_visited width height s.visited start ≡ true
    pub mirrored : IsMirrored width height s.cells
    pub enclosed : IsEnclosed width height s.cells
    -- A cell that was not visited has all its walls.
    pub intact :
        (j : Cell) (e : Dir)
        → IsCell width height j
        → was_visited width height s.visited j ≡ false
        → stands e (look width s.cells all_walls j) ≡ true
    pub tree : total openings s.cells + 2 * unvisited s.visited + 2 ≡ 2 * (width * height)
    pub reached :
        (j : Cell)
        → IsCell width height j
        → was_visited width height s.visited j ≡ true
        → Reach width height s.cells start j
    -- Off the stack, nothing is left to visit.
    pub closed :
        (j : Cell)
        → IsCell width height j
        → was_visited width height s.visited j ≡ true
        → On j s.stack
          ⊎ ((e : Dir)
              → has_beside width height j e ≡ true
              → was_visited width height s.visited (beside j e) ≡ true)

  module _ (start : Cell) (hs : IsCell width height start) (s : Carving) (c : Cell) (d : Dir)
      (inv : IsCarving start s) (hc : IsCell width height c)
      (seen : was_visited width height s.visited c ≡ true)
      (leads : Leads width height s.visited c d) where
    open inv use {
      size, size_visited, stacked, source, mirrored, enclosed, intact, tree, reached, closed,
    }

    next_cell : IsCell width height (beside c d)
    next_cell = beside-IsCell width height c d hc leads.0

    visited-carve :
        (j : Cell)
        → IsCell width height j
        → was_visited width height (carve width height s c d).visited j
          ≡ (if same j (beside c d) then true else was_visited width height s.visited j)
    unfolding carve
    visited-carve j hj =
        look-put width height s.visited (beside c d) j true false size_visited next_cell hj

    still_visited :
        (j : Cell)
        → IsCell width height j
        → was_visited width height s.visited j ≡ true
        → was_visited width height (carve width height s c d).visited j ≡ true
    still_visited j hj v = visited-carve j hj ∙ elim (Bool-cases (same j (beside c d))) [
      | inl there ↦ rw there
      | inr elsewhere ↦ rw elsewhere v
    ]

    walls-carve :
        (j : Cell) (e : Dir)
        → IsCell width height j
        → stands e (look width (carve width height s c d).cells all_walls j)
          ≡ (stands e (look width s.cells all_walls j) && not (is_between c d j e))
    walls-carve j e hj = stands-carve width height s c d j size hc leads.0 hj e

    carve-IsMirrored : IsMirrored width height (carve width height s c d).cells
    carve-IsMirrored j e hj he =
        let n : Cell = beside j e in
        let far = opposite e in
        walls-carve j e hj
        ∙ ap (λ b. b && not (is_between c d j e)) (mirrored j e hj he)
        ∙ ap (λ b. stands far (look width s.cells all_walls n) && not b)
            (is_between_mirrored width height c d j e leads.0 he)
        ∙ sym (walls-carve n far (beside-IsCell width height j e hj he))

    carve-IsEnclosed : IsEnclosed width height (carve width height s c d).cells
    carve-IsEnclosed j e hj he = walls-carve j e hj ∙ and_not _ _ (enclosed j e hj he) outside
      where
        outside : is_between c d j e ≡ false
        outside = elim (Bool-cases (is_between c d j e)) [
          | inl passes ↦ absurd (cc (has_beside_between width height c d j e hc leads.0 passes, he))
          | inr apart ↦ apart
        ]

    apart : (j : Cell) → was_visited width height s.visited j ≡ false → same j c ≡ false
    apart j fresh = elim (Bool-cases (same j c)) [
      | inl here_too ↦
          absurd
            (cc (ap (was_visited width height s.visited) (eq_of_same j c here_too), seen, fresh))
      | inr other ↦ other
    ]

    pub unvisited-carve : unvisited (carve width height s c d).visited + 1 ≡ unvisited s.visited
    unfolding carve
    unvisited-carve =
        let i = idx width (beside c d) in
        let swap =
          total-set (λ b. to_nat (not b)) s.visited i true false
            (has_place width height s.visited (beside c d) size_visited next_cell) in
        omega (arith, swap, ap (λ b. to_nat (not b)) leads.1)

    carve-intact :
        (j : Cell) (e : Dir)
        → IsCell width height j
        → was_visited width height (carve width height s c d).visited j ≡ false
        → stands e (look width (carve width height s c d).cells all_walls j) ≡ true
    carve-intact j e hj v =
        let (elsewhere, fresh) =
          true_or (same j (beside c d)) (was_visited width height s.visited j)
            (sym (visited-carve j hj) ∙ v) in
        walls-carve j e hj
        ∙ and_not _ _ (intact j e hj fresh)
            (neither (same j c) (same j (beside c d)) _ _ (apart j fresh) elsewhere)

    carve-tree :
        total openings (carve width height s c d).cells
          + 2 * unvisited (carve width height s c d).visited
          + 2
        ≡ 2 * (width * height)
    carve-tree =
        let wall_n = intact (beside c d) (opposite d) next_cell leads.1 in
        let wall_c = mirrored c d hc leads.0 ∙ wall_n in
        omega (
          arith,
          tree,
          unvisited-carve,
          openings-carve width height s c d size hc leads.0 wall_c wall_n,
        )

    Reach-carve :
        {b : Cell}
        → Reach width height s.cells start b
        → Reach width height (carve width height s c d).cells start b
    Reach-carve r =
        Reach-mono width height s.cells (carve width height s c d).cells start
          (λ j e hj gone. walls-carve j e hj ∙ ap (λ b. b && not (is_between c d j e)) gone) hs r

    opened : stands d (look width (carve width height s c d).cells all_walls c) ≡ false
    opened = walls-carve c d hc ∙ and_not-true _ _ (own_passage c d)

    was :
        (j : Cell)
        → IsCell width height j
        → same j (beside c d) ≡ false
        → was_visited width height (carve width height s c d).visited j ≡ true
        → was_visited width height s.visited j ≡ true
    was j hj elsewhere v =
        sym (ap (λ b. if b then true else was_visited width height s.visited j) elsewhere)
        ∙ sym (visited-carve j hj)
        ∙ v

    carve-reached :
        (j : Cell)
        → IsCell width height j
        → was_visited width height (carve width height s c d).visited j ≡ true
        → Reach width height (carve width height s c d).cells start j
    carve-reached j hj v = elim (Bool-cases (same j (beside c d))) [
      | inl there ↦
          step (Reach-carve (reached c hc seen)) d leads.0 opened (eq_of_same j (beside c d) there)
      | inr elsewhere ↦ Reach-carve (reached j hj (was j hj elsewhere v))
    ]

    pushed : (j : Cell) → On j (beside c d ∷ s.stack) → On j (carve width height s c d).stack
    unfolding carve
    pushed j on = on

    carve-closed :
        (j : Cell)
        → IsCell width height j
        → was_visited width height (carve width height s c d).visited j ≡ true
        → On j (carve width height s c d).stack
          ⊎ ((e : Dir)
              → has_beside width height j e ≡ true
              → was_visited width height (carve width height s c d).visited (beside j e) ≡ true)
    carve-closed j hj v = elim (Bool-cases (same j (beside c d))) [
      | inl there ↦ inl (pushed j (inl (eq_of_same j (beside c d) there)))
      | inr elsewhere ↦ elim (closed j hj (was j hj elsewhere v)) [
        | inl on ↦ inl (pushed j (inr on))
        | inr done ↦
            inr (λ e he.
              still_visited (beside j e) (beside-IsCell width height j e hj he) (done e he))
      ]
    ]

    carve_size : length (carve width height s c d).cells ≡ width * height
    unfolding carve
    carve_size = length-set _ _ _ ∙ length-set s.cells _ _ ∙ size

    carve_size_visited : length (carve width height s c d).visited ≡ width * height
    unfolding carve
    carve_size_visited = length-set s.visited _ _ ∙ size_visited

    still_stacked :
        (cs : List Cell)
        → All (λ j. IsCell width height j × (was_visited width height s.visited j ≡ true)) cs
        → All
            (λ j.
              IsCell width height j
              × (was_visited width height (carve width height s c d).visited j ≡ true))
            cs
    still_stacked [] a = tt
    still_stacked (j ∷ js) a = ((a.0.0, still_visited j a.0.0 a.0.1), still_stacked js a.1)

    entered : was_visited width height (carve width height s c d).visited (beside c d) ≡ true
    entered =
        visited-carve (beside c d) next_cell
        ∙ ap (λ b. if b then true else was_visited width height s.visited (beside c d))
            (same_self (beside c d))

    carve_stacked :
        All
          (λ j.
            IsCell width height j
            × (was_visited width height (carve width height s c d).visited j ≡ true))
          (carve width height s c d).stack
    unfolding carve
    carve_stacked = ((next_cell, entered), still_stacked s.stack stacked)

    pub carve-IsCarving : IsCarving start (carve width height s c d)
    carve-IsCarving = record {
      size = carve_size;
      size_visited = carve_size_visited;
      stacked = carve_stacked;
      source = still_visited start hs source;
      mirrored = carve-IsMirrored;
      enclosed = carve-IsEnclosed;
      intact = carve-intact;
      tree = carve-tree;
      reached = carve-reached;
      closed = carve-closed;
    }
