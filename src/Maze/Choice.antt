-- ===== src/Maze/Choice.antt =====
-- Which way the solver of crates/shoestring-lock/src/maze.rs goes.
use mathlib.Core.Option.{some-injective}
use shoestring_wm.Prelude.{
  ℕ, ◌≡◌, ap, sym, ◌∙◌, Bool, true, false, not, ◌&&◌, inl, inr, none, some, List, [], ◌∷◌, arith,
  if◌then◌else◌, ltb, All, Bool-cases, subst,
}
use shoestring_wm.Maze.Grid.{Cell, Dir, north, east, south, west, Walls, stands, beside, has_beside}
use shoestring_wm.Maze.Ends.{every}
use shoestring_wm.Maze.Solve.{
  CellState, is_untouched, moved_up, sort_onto, reverse_onto, sorted_by, cell_state, pass,
  candidates, ordered, to_target, first_untouched,
}

module _ (P : Dir → Type 0) where
  All-moved_up :
      (key : Dir → ℕ) (d : Dir) (ds : List Dir) → All P (moved_up key d ds) → P d × All P ds
  All-moved_up key d [] a = a
  All-moved_up key d (e ∷ es) a = elim (Bool-cases (ltb (key d) (key e))) [
    | inl closer ↦
        let b : P e × All P (moved_up key d es) = rw closer at a in
        let (p, rest) = All-moved_up key d es b.1 in (p, (b.0, rest))
    | inr far ↦ rw far at a
  ]

  All-sort_onto :
      (key : Dir → ℕ) (sorted ds : List Dir)
      → All P (sort_onto key sorted ds)
      → All P sorted × All P ds
  All-sort_onto key sorted [] a = (a, tt)
  All-sort_onto key sorted (d ∷ ds) a =
      let (front, back) = All-sort_onto key (moved_up key d sorted) ds a in
      let (p, rest) = All-moved_up key d sorted front in (rest, (p, back))

  All-reverse_onto : (acc ds : List Dir) → All P (reverse_onto acc ds) → All P acc × All P ds
  All-reverse_onto acc [] a = (a, tt)
  All-reverse_onto acc (d ∷ ds) a =
      let (front, back) = All-reverse_onto (d ∷ acc) ds a in (front.1, (front.0, back))

  -- What holds of all sorted directions holds of all.
  All-sorted_by : (key : Dir → ℕ) (ds : List Dir) → All P (sorted_by key ds) → All P ds
  unfolding sorted_by
  All-sorted_by key ds a =
      (All-sort_onto key [] ds (All-reverse_onto [] (sort_onto key [] ds) a).1).1

  moved_up-All :
      (key : Dir → ℕ) (d : Dir) (ds : List Dir) → P d → All P ds → All P (moved_up key d ds)
  moved_up-All key d [] p a = (p, tt)
  moved_up-All key d (e ∷ es) p a = elim (Bool-cases (ltb (key d) (key e))) [
    | inl closer ↦ rw closer (a.0, moved_up-All key d es p a.1)
    | inr far ↦ rw far (p, a)
  ]

  sort_onto-All :
      (key : Dir → ℕ) (sorted ds : List Dir)
      → All P sorted
      → All P ds
      → All P (sort_onto key sorted ds)
  sort_onto-All key sorted [] a b = a
  sort_onto-All key sorted (d ∷ ds) a b =
      sort_onto-All key (moved_up key d sorted) ds (moved_up-All key d sorted b.0 a) b.1

  reverse_onto-All : (acc ds : List Dir) → All P acc → All P ds → All P (reverse_onto acc ds)
  reverse_onto-All acc [] a b = a
  reverse_onto-All acc (d ∷ ds) a b = reverse_onto-All (d ∷ acc) ds (b.0, a) b.1

  sorted_by-All : (key : Dir → ℕ) (ds : List Dir) → All P ds → All P (sorted_by key ds)
  unfolding sorted_by
  sorted_by-All key ds a =
      reverse_onto-All [] (sort_onto key [] ds) tt (sort_onto-All key [] ds tt a)

module _ (width height : ℕ) (target : Cell) (smart : Bool) where
  All-ordered :
      (P : Dir → Type 0) (walls : Walls) (c : Cell)
      → All P (ordered width height target smart walls c)
      → All P (candidates width height target smart walls c)
  unfolding ordered
  All-ordered P walls c a = from smart a
    where
      from :
          (b : Bool)
          → All P (
              if b
              then sorted_by
                  (to_target width height target smart c)
                  (candidates width height target smart walls c)
              else candidates width height target smart walls c)
          → All P (candidates width height target smart walls c)
      from true a =
          All-sorted_by P (to_target width height target smart c)
            (candidates width height target smart walls c) a
      from false a = a

  All-pass :
      (P : Dir → Type 0) (walls : Walls) (c : Cell) (d : Dir) (rest : List Dir)
      → All P (pass width height target smart walls c d rest)
      → (stands d walls ≡ false → has_beside width height c d ≡ true → P d) × All P rest
  All-pass P walls c d rest a =
      elim (Bool-cases (not (stands d walls) && has_beside width height c d)) [
        | inl free ↦ let b : P d × All P rest = rw free at a in (λ gone has. b.0, b.1)
        | inr blocked ↦
            let b : All P rest = rw blocked at a in
            (
              λ gone has.
                  absurd
                    (cc (sym (ap (λ t. not t && has_beside width height c d) gone ∙ has), blocked)),
              b,
            )
      ]

  All-candidates :
      (P : Dir → Type 0) (walls : Walls) (c : Cell)
      → All P (candidates width height target smart walls c)
      → (d : Dir) → stands d walls ≡ false
      → has_beside width height c d ≡ true
      → P d
  unfolding candidates
  All-candidates P walls c a =
      let toward = λ (d : Dir) (rest : List Dir). pass width height target smart walls c d rest in
      let w = toward west [] in
      let s = toward south w in
      let e = toward east s in
      let (at_north, a1) = All-pass P walls c north e a in
      let (at_east, a2) = All-pass P walls c east s a1 in
      let (at_south, a3) = All-pass P walls c south w a2 in
      let (at_west, a4) = All-pass P walls c west [] a3 in
      every (λ d. stands d walls ≡ false → has_beside width height c d ≡ true → P d) at_north
        at_east at_south at_west

  no_untouched :
      (state : List CellState) (c : Cell) (ds : List Dir)
      → first_untouched width height target smart state c ds ≡ none
      → All (λ d. is_untouched (cell_state width height target smart state (beside c d)) ≡ false) ds
  unfolding first_untouched
  no_untouched state c [] h = tt
  no_untouched state c (d ∷ ds) h =
      elim (Bool-cases (is_untouched (cell_state width height target smart state (beside c d)))) [
        | inl fresh ↦ absurd (cc (rw fresh at h))
        | inr old ↦ (old, no_untouched state c ds (rw old at h))
      ]

  -- A way that is offered leads to a cell, through no wall.
  abbrev pub IsWay : Walls → Cell → Dir → Type 0
  IsWay walls c d = (has_beside width height c d ≡ true) × (stands d walls ≡ false)

  pass-IsWay :
      (walls : Walls) (c : Cell) (d : Dir) (rest : List Dir)
      → All (IsWay walls c) rest
      → All (IsWay walls c) (pass width height target smart walls c d rest)
  pass-IsWay walls c d rest a = ground (arith, a)

  candidates-IsWay :
      (walls : Walls) (c : Cell)
      → All (IsWay walls c) (candidates width height target smart walls c)
  unfolding candidates
  candidates-IsWay walls c =
      let toward = λ (d : Dir) (rest : List Dir). pass width height target smart walls c d rest in
      let w = toward west [] in
      let s = toward south w in
      let e = toward east s in
      pass-IsWay walls c north e
        (pass-IsWay walls c east s (pass-IsWay walls c south w (pass-IsWay walls c west [] tt)))

  ordered-IsWay :
      (walls : Walls) (c : Cell) → All (IsWay walls c) (ordered width height target smart walls c)
  unfolding ordered
  ordered-IsWay walls c = from smart
    where
      ways : All (IsWay walls c) (candidates width height target smart walls c)
      ways = candidates-IsWay walls c

      from :
          (b : Bool)
          → All (IsWay walls c) (
              if b
              then sorted_by
                  (to_target width height target smart c)
                  (candidates width height target smart walls c)
              else candidates width height target smart walls c)
      from true =
          sorted_by-All (IsWay walls c) (to_target width height target smart c)
            (candidates width height target smart walls c) ways
      from false = ways

  first_untouched-some :
      (P : Dir → Type 0) (state : List CellState) (c : Cell) (ds : List Dir) (d : Dir)
      → All P ds
      → first_untouched width height target smart state c ds ≡ some d
      → P d × (is_untouched (cell_state width height target smart state (beside c d)) ≡ true)
  unfolding first_untouched
  first_untouched-some P state c [] d a h = absurd (cc h)
  first_untouched-some P state c (e ∷ es) d a h =
      elim (Bool-cases (is_untouched (cell_state width height target smart state (beside c e)))) [
        | inl fresh ↦
            let is : some e ≡ some d = rw fresh at h in
            subst
              (λ t.
                P t
                × (is_untouched (cell_state width height target smart state (beside c t)) ≡ true))
              (some-injective _ _ is) (a.0, fresh)
        | inr old ↦ first_untouched-some P state c es d a.1 (rw old at h)
      ]

  -- The way that is taken leads through no wall to a cell that was untouched.
  pub chosen-IsWay :
      (state : List CellState) (walls : Walls) (c : Cell) (d : Dir)
      → first_untouched width height target smart state c
          (ordered width height target smart walls c)
        ≡ some d
      → IsWay walls c d
        × (is_untouched (cell_state width height target smart state (beside c d)) ≡ true)
  chosen-IsWay state walls c d h =
      first_untouched-some (IsWay walls c) state c (ordered width height target smart walls c) d
        (ordered-IsWay walls c) h

  -- Where none is taken, every way leads to a cell that was touched.
  pub none_chosen :
      (state : List CellState) (walls : Walls) (c : Cell)
      → first_untouched width height target smart state c
          (ordered width height target smart walls c)
        ≡ none
      → (d : Dir) → stands d walls ≡ false
      → has_beside width height c d ≡ true
      → is_untouched (cell_state width height target smart state (beside c d)) ≡ false
  none_chosen state walls c h =
      let P = λ (d : Dir).
        is_untouched (cell_state width height target smart state (beside c d)) ≡ false in
      All-candidates P walls c
        (All-ordered P walls c (no_untouched state c (ordered width height target smart walls c) h))
