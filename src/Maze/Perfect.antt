-- ===== src/Maze/Perfect.antt =====
-- `Maze::generate_dfs` of crates/shoestring-lock/src/maze.rs ends, with a perfect maze.
use native.Mathlib.Nat.{mod-lt, div-lt_iff_lt-mul, div-add-mod'}
use shoestring_wm.Prelude.{
  ℕ, zero, suc, ◌+◌, ◌*◌, ◌/◌, ◌%◌, ◌≤◌, ◌<◌, ◌≡◌, ◌≢◌, refl, ap, sym, subst, ◌∙◌, ◌⊎◌, inl, inr,
  Bool, true, false, not, ◌||◌, none, some, List, [], ◌∷◌, arith, if◌then◌else◌, ◌==◌, length,
  length-set, All, to_nat,
}
use mathlib.Core.Option.{some-injective}
use shoestring_wm.Maze.Array.{
  get_or, replicate, total, total-set, total-replicate, length-replicate, get_or-replicate,
}
use shoestring_wm.Maze.Rng.{Rng, gen_range, gen_range-lt}
use shoestring_wm.Maze.Grid.{
  Cell, Dir, north, east, south, west, opposite, all_walls, stands, beside, has_beside, IsCell,
  look, put, look-put, idx, idx-lt, same, same_self, eq_of_same,
}
use shoestring_wm.Maze.Walls.{openings, has_place}
use shoestring_wm.Maze.Ends.{Leads, get_or-All, neighbours-Leads, neighbours_none}
use shoestring_wm.Maze.Paths.{Reach, here, IsPerfect, Reach-append, Reach-sym, every_cell}
use shoestring_wm.Maze.Invariant.{On, IsCarving, unvisited, carve-IsCarving, unvisited-carve}
use shoestring_wm.Maze.Carve.{
  Maze, Carving, carve, was_visited, neighbours, begun, carve_step_at, carve_all, carved_maze,
  generate_dfs,
}

List-cases {ℓ} :
    {A : Type ℓ} (xs : List A) → (xs ≡ []) ⊎ ((x : A) × (rest : List A) × (xs ≡ x ∷ rest))
List-cases [] = inl refl
List-cases (x ∷ xs) = inr (x, xs, refl)

stands-all_walls : (d : Dir) → stands d all_walls ≡ true
stands-all_walls north = refl
stands-all_walls east = refl
stands-all_walls south = refl
stands-all_walls west = refl

all_visited :
    (xs : List Bool)
    → ((i : ℕ) → i < length xs → get_or xs i false ≡ true)
    → total (λ b. to_nat (not b)) xs ≡ 0
all_visited [] h = refl
all_visited (x ∷ xs) h = omega (
  arith,
  ap (λ b. to_nat (not b)) (h 0 (omega arith)),
  all_visited xs (λ i less. h (suc i) (omega arith)),
)

-- The cell of an index.
cell_at : ℕ → ℕ → Cell
cell_at width i = (i % width, i / width)

idx-cell_at : (width i : ℕ) → idx width (cell_at width i) ≡ i
unfolding cell_at
idx-cell_at width i = div-add-mod' i width

cell_at-IsCell :
    (width height i : ℕ) → 0 < width → i < width * height → IsCell width height (cell_at width i)
unfolding cell_at
cell_at-IsCell width height i pos h = (mod-lt i pos, (div-lt_iff_lt-mul pos).1 (omega arith))

truth : (b : Bool) → (if b then true else false) ≡ true → b ≡ true
truth b h = ground (arith, h)

module _ (width height : ℕ) (start : Cell) (hs : IsCell width height start) where
  -- What is still to be done: to enter a cell and to leave it again.
  work : Carving → ℕ
  work s = 2 * unvisited width height s.visited + length s.stack

  -- With the generator's next state in place, nothing of the invariant changes.
  reseeded :
      (s : Carving) (rng : Rng)
      → IsCarving width height start s
      → IsCarving width height start (record s { rng = rng })
  reseeded s rng inv = record {
    size = inv.size;
    size_visited = inv.size_visited;
    stacked = inv.stacked;
    source = inv.source;
    mirrored = inv.mirrored;
    enclosed = inv.enclosed;
    intact = inv.intact;
    tree = inv.tree;
    reached = inv.reached;
    closed = inv.closed;
  }

  length-stack-carve :
      (s : Carving) (c : Cell) (d : Dir)
      → length (carve width height s c d).stack ≡ length s.stack + 1
  unfolding carve
  length-stack-carve s c d = omega arith

  step-IsCarving :
      (s : Carving) (c : Cell) (rest : List Cell) (ds : List Dir)
      → s.stack ≡ c ∷ rest
      → ds ≡ neighbours width height s.visited c
      → IsCarving width height start s
      → IsCarving width height start (carve_step_at width height s c rest ds)
        × (work (carve_step_at width height s c rest ds) + 1 ≡ work s)
  unfolding work
  step-IsCarving s c rest [] e none_left inv =
      let top = λ (j : Cell). λ (on : On j s.stack). subst (On j) e on in
      (
        record {
          size = inv.size;
          size_visited = inv.size_visited;
          stacked =
              (subst
                (All (λ j. IsCell width height j × (was_visited width height s.visited j ≡ true))) e
                inv.stacked).1;
          source = inv.source;
          mirrored = inv.mirrored;
          enclosed = inv.enclosed;
          intact = inv.intact;
          tree = inv.tree;
          reached = inv.reached;
          closed = λ j hj v. elim (inv.closed j hj v) [
            | inl on ↦ elim (top j on) [
              | inl is_c ↦ inr (
                  subst
                    (λ t.
                      (d : Dir)
                      → has_beside width height t d ≡ true
                      → was_visited width height s.visited (beside t d) ≡ true)
                    (sym is_c) (neighbours_none width height s.visited c (sym none_left)))
              | inr below ↦ inl below
            ]
            | inr done ↦ inr done
          ];
        },
        omega (arith, ap length e),
      )
  step-IsCarving s c rest (d ∷ ds) e offered inv =
      let (pick, rng) = gen_range s.rng (length (d ∷ ds)) in
      let chosen = get_or (d ∷ ds) pick d in
      let s' : Carving = record s { rng = rng } in
      let top =
        (subst (All (λ j. IsCell width height j × (was_visited width height s.visited j ≡ true))) e
          inv.stacked).0 in
      let all_lead =
        subst (All (Leads width height s.visited c)) (sym offered)
          (neighbours-Leads width height s.visited c) in
      let leads =
        get_or-All (Leads width height s.visited c) (d ∷ ds) pick d all_lead
          (gen_range-lt s.rng (length (d ∷ ds)) (omega arith)) in
      let inv' = reseeded s rng inv in
      (
        carve-IsCarving width height start hs s' c chosen inv' top.0 top.1 leads,
        omega (
          arith,
          unvisited-carve width height start hs s' c chosen inv' top.0 top.1 leads,
          length-stack-carve s' c chosen,
        ),
      )

  carve_all-ends :
      (fuel : ℕ) (s : Carving)
      → IsCarving width height start s
      → work s ≤ fuel
      → (t : Carving) × (carve_all width height fuel s ≡ some t)
        × IsCarving width height start t
        × (t.stack ≡ [])
  unfolding carve_all work
  carve_all-ends zero s inv enough = elim (List-cases s.stack) [
    | inl empty ↦ (s, simp (empty, carve_all), inv, empty)
    | inr (c, rest, e) ↦ absurd (omega (arith, ap length e))
  ]
  carve_all-ends (suc fuel) s inv enough = elim (List-cases s.stack) [
    | inl empty ↦ (s, simp (empty, carve_all), inv, empty)
    | inr (c, rest, e) ↦
        let ds = neighbours width height s.visited c in
        let (inv', less) = step-IsCarving s c rest ds e refl inv in
        let (t, ends, inv_t, empty) =
          carve_all-ends fuel (carve_step_at width height s c rest ds) inv' (omega arith) in
        (t, rw (e, carve_all) ends, inv_t, empty)
  ]

  begun-IsCarving : (rng : Rng) → IsCarving width height start (begun width height start rng)
  begun-IsCarving rng = record {
    size = length-replicate (width * height) all_walls;
    size_visited =
        length-set blank (idx width start) true ∙ length-replicate (width * height) false;
    stacked = ((hs, marked), tt);
    source = marked;
    mirrored = λ j e hj he.
        ap (stands e) (whole j)
        ∙ stands-all_walls e
        ∙ sym (stands-all_walls (opposite e))
        ∙ sym (ap (stands (opposite e)) (whole (beside j e)));
    enclosed = λ j e hj he. ap (stands e) (whole j) ∙ stands-all_walls e;
    intact = λ j e hj v. ap (stands e) (whole j) ∙ stands-all_walls e;
    tree = omega (
      arith,
      total-replicate openings (width * height) all_walls,
      total-replicate (λ b. to_nat (not b)) (width * height) false,
      total-set (λ b. to_nat (not b)) blank (idx width start) true false place,
      ap (λ b. to_nat (not b)) (get_or-replicate (width * height) false (idx width start)),
      idx-lt width height start hs,
    );
    reached = λ j hj v.
        subst (Reach width height (replicate (width * height) all_walls) start) (sym (only j hj v))
          here;
    closed = λ j hj v. inl (inl (only j hj v));
  }
    where
      blank : List Bool
      blank = replicate (width * height) false

      place : idx width start < length blank
      place = has_place width height blank start (length-replicate (width * height) false) hs

      first :
          (j : Cell)
          → IsCell width height j
          → was_visited width height (put width blank start true) j
            ≡ (if same j start then true else false)
      first j hj =
          look-put width height blank start j true false (length-replicate (width * height) false)
            hs hj
          ∙ ap (λ b. if same j start then true else b)
              (get_or-replicate (width * height) false (idx width j))

      marked : was_visited width height (put width blank start true) start ≡ true
      marked = first start hs ∙ ap (λ b. if b then true else false) (same_self start)

      only :
          (j : Cell)
          → IsCell width height j
          → was_visited width height (put width blank start true) j ≡ true
          → j ≡ start
      only j hj v = eq_of_same j start (truth (same j start) (sym (first j hj) ∙ v))

      whole : (j : Cell) → look width (replicate (width * height) all_walls) all_walls j ≡ all_walls
      whole j = get_or-replicate (width * height) all_walls (idx width j)

  work-begun : (rng : Rng) → work (begun width height start rng) ≤ 2 * (width * height)
  unfolding work
  work-begun rng = omega (arith, (begun-IsCarving rng).tree)

  finished-IsPerfect :
      (t : Carving) → IsCarving width height start t → t.stack ≡ [] → IsPerfect width height t.cells
  finished-IsPerfect t inv empty =
      let all_seen = λ (b : Cell). λ (hb : IsCell width height b).
        every_cell width height (λ j. was_visited width height t.visited j ≡ true)
          (λ j e hj he v. elim (inv.closed j hj v) [
            | inl on ↦ absurd (subst (On j) empty on)
            | inr done ↦ done e he
          ])
          start b hs inv.source hb in
      let all_at = λ (i : ℕ). λ (h : i < width * height).
        ap (λ k. get_or t.visited k false) (sym (idx-cell_at width i))
        ∙ all_seen (cell_at width i) (cell_at-IsCell width height i (omega (arith, hs.0)) h) in
      let from_start =
        λ (b : Cell). λ (hb : IsCell width height b). inv.reached b hb (all_seen b hb) in
      record {
        size = inv.size;
        mirrored = inv.mirrored;
        enclosed = inv.enclosed;
        tree = omega (
          arith,
          inv.tree,
          all_visited t.visited (λ i h. all_at i (omega (arith, h, inv.size_visited))),
        );
        connected = λ a b ha hb.
            Reach-append width height t.cells a
              (Reach-sym width height t.cells start inv.mirrored hs (from_start a ha))
              (from_start b hb);
      }

module _ (width height : ℕ) (rng : Rng) where
  -- What the generator makes, with the state of its random numbers.
  made :
      0 < width
      → 0 < height
      → (m : Maze) × (rng' : Rng) × (generate_dfs width height rng ≡ some (m, rng'))
        × (m.width ≡ width)
        × (m.height ≡ height)
        × IsPerfect width height m.cells
  unfolding generate_dfs
  made wide high =
      let (x, rng1) = gen_range rng width in
      let (y, rng2) = gen_range rng1 height in
      let hs : IsCell width height (x, y) =
        (gen_range-lt rng width wide, gen_range-lt rng1 height high) in
      let first = begun-IsCarving width height (x, y) hs rng2 in
      let (t, ends, inv, empty) =
        carve_all-ends width height (x, y) hs (2 * (width * height))
          (begun width height (x, y) rng2) first (work-begun width height (x, y) hs rng2) in
      let positive : (width == 0 || height == 0) ≡ false = ground arith in
      (
        record { width = width; height = height; cells = t.cells },
        t.rng,
        ap
              (λ b.
                if b
                then none
                else carved_maze width height (
                    carve_all width height (2 * (width * height)) (begun width height (x, y) rng2)))
              positive
            ∙ ap (carved_maze width height) ends,
        refl,
        refl,
        finished-IsPerfect width height (x, y) hs t inv empty,
      )

  -- The generator ends, within two rounds of its loop for each cell, whatever the random numbers,
  -- where there is a cell.
  pub generate_dfs_ends : 0 < width → 0 < height → generate_dfs width height rng ≢ none
  generate_dfs_ends wide high none_made =
      let (m, rng', is, w, t, perfect) = made wide high in absurd (cc (is, none_made))

  -- What the generator makes, where there is a cell, is a perfect maze of the given size: a wall is on both of its sides or on neither,
  -- the outside is closed, every cell is connected with every other, and there is one passage less
  -- than there are cells, so that no passage closes a circle.
  pub generate_dfs-IsPerfect :
      (m : Maze) (rng' : Rng)
      → 0 < width
      → 0 < height
      → generate_dfs width height rng ≡ some (m, rng')
      → (m.width ≡ width) × (m.height ≡ height) × IsPerfect width height m.cells
  generate_dfs-IsPerfect m rng' wide high h =
      let (m', rng'', is, w, t, perfect) = made wide high in
      let e : m' ≡ m = ap (λ p. p.0) (some-injective _ _ (sym is ∙ h)) in
      (
        ap (λ x. x.width) (sym e) ∙ w,
        ap (λ x. x.height) (sym e) ∙ t,
        subst (λ x. IsPerfect width height x.cells) e perfect,
      )
