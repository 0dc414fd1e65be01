-- ===== src/Maze/Walls.antt =====
-- What one carving of crates/shoestring-lock/src/maze.rs does to the walls.
use shoestring_wm.Prelude.{
  ℕ, ◌+◌, ◌*◌, ◌<◌, ◌≡◌, ap, sym, ◌∙◌, Bool, true, false, not, ◌&&◌, ◌||◌, inl, inr, List, arith,
  if◌then◌else◌, length, length-set, Bool-cases, to_nat,
}
use shoestring_wm.Maze.Array.{total, total-set}
use shoestring_wm.Maze.Grid.{
  Cell, Dir, north, east, south, west, opposite, Walls, all_walls, stands, cleared, idx, beside,
  has_beside, same, same_dir, IsCell, eq_of_same, idx-lt, beside-IsCell, look, put, look-put,
}
use shoestring_wm.Maze.Carve.{Carving, carve}

stands-cleared :
    (d e : Dir) (w : Walls) → stands d (cleared e w) ≡ (stands d w && not (same_dir d e))
stands-cleared north north w = ground arith
stands-cleared north east w = ground arith
stands-cleared north south w = ground arith
stands-cleared north west w = ground arith
stands-cleared east north w = ground arith
stands-cleared east east w = ground arith
stands-cleared east south w = ground arith
stands-cleared east west w = ground arith
stands-cleared south north w = ground arith
stands-cleared south east w = ground arith
stands-cleared south south w = ground arith
stands-cleared south west w = ground arith
stands-cleared west north w = ground arith
stands-cleared west east w = ground arith
stands-cleared west south w = ground arith
stands-cleared west west w = ground arith

-- How many of a cell's walls are gone.
abbrev pub openings : Walls → ℕ
openings w =
    to_nat (not w.on_north)
    + to_nat (not w.on_east)
    + to_nat (not w.on_south)
    + to_nat (not w.on_west)

openings-cleared :
    (d : Dir) (w : Walls) → stands d w ≡ true → openings (cleared d w) ≡ openings w + 1
openings-cleared north w h = ground arith
openings-cleared east w h = ground arith
openings-cleared south w h = ground arith
openings-cleared west w h = ground arith

-- The passage from `c` in direction `d`, seen from either of its ends.
abbrev pub is_between : Cell → Dir → Cell → Dir → Bool
is_between c d j e = (same j c && same_dir e d) || (same j (beside c d) && same_dir e (opposite d))

not_beside :
    (width height : ℕ) (c : Cell) (d : Dir)
    → has_beside width height c d ≡ true
    → same (beside c d) c ≡ false
not_beside width height c north h = ground arith
not_beside width height c east h = ground arith
not_beside width height c south h = ground arith
not_beside width height c west h = ground arith

if_true : {A : Type 0} (b : Bool) (x y : A) → b ≡ true → (if b then x else y) ≡ x
if_true b x y h = ap (λ t. if t then x else y) h

if_false : {A : Type 0} (b : Bool) (x y : A) → b ≡ false → (if b then x else y) ≡ y
if_false b x y h = ap (λ t. if t then x else y) h

stands-chosen :
    (at_n at_c : Bool) (d e : Dir) (w : Walls)
    → (at_n && at_c) ≡ false
    → stands e (if at_n then cleared (opposite d) w else if at_c then cleared d w else w)
      ≡ (stands e w && not ((at_c && same_dir e d) || (at_n && same_dir e (opposite d))))
stands-chosen true true d e w h = absurd (cc h)
stands-chosen true false d e w h = stands-cleared e (opposite d) w
stands-chosen false true d e w h = stands-cleared e d w ∙ ground arith
stands-chosen false false d e w h = ground arith

module _ (width height : ℕ) where
  pub has_place :
      {A : Type 0} (xs : List A) (c : Cell)
      → length xs ≡ width * height
      → IsCell width height c
      → idx width c < length xs
  has_place xs c size hc = omega (arith, size, idx-lt width height c hc)

  module _ (s : Carving) (c : Cell) (d : Dir) (j : Cell) (size : length s.cells ≡ width * height)
      (hc : IsCell width height c) (hd : has_beside width height c d ≡ true)
      (hj : IsCell width height j) where
    walls-carve : look width (carve width height s c d).cells all_walls j ≡ (
        if same j (beside c d)
        then cleared (opposite d) (look width s.cells all_walls j)
        else if same j c
        then cleared d (look width s.cells all_walls j)
        else look width s.cells all_walls j)
    unfolding carve
    walls-carve =
        let n : Cell = beside c d in
        let hn = beside-IsCell width height c d hc hd in
        let out = put width s.cells c (cleared d (look width s.cells all_walls c)) in
        let at = λ (x : Cell). λ (hx : IsCell width height x).
          look-put width height s.cells c x (cleared d (look width s.cells all_walls c)) all_walls
            size hc hx in
        let final =
          look-put width height out n j (cleared (opposite d) (look width out all_walls n))
            all_walls
            (length-set s.cells (idx width c) (cleared d (look width s.cells all_walls c)) ∙ size)
            hn hj in
        final ∙ elim (Bool-cases (same j n)) [
          | inl there ↦
              let e = eq_of_same j n there in
              if_true (same j n) _ _ there
              ∙ ap (cleared (opposite d)) (
                  at n hn
                  ∙ if_false (same n c) _ _ (not_beside width height c d hd)
                  ∙ ap (look width s.cells all_walls) (sym e))
              ∙ sym (if_true (same j n) _ _ there)
          | inr elsewhere ↦
              if_false (same j n) _ _ elsewhere ∙ at j hj ∙ elim (Bool-cases (same j c)) [
                | inl here ↦
                    if_true (same j c) _ _ here
                    ∙ ap (λ x. cleared d (look width s.cells all_walls x))
                        (sym (eq_of_same j c here))
                    ∙ sym (if_true (same j c) _ _ here)
                    ∙ sym (if_false (same j n) _ _ elsewhere)
                | inr apart ↦
                    if_false (same j c) _ _ apart
                    ∙ sym (if_false (same j c) _ _ apart)
                    ∙ sym (if_false (same j n) _ _ elsewhere)
              ]
        ]

    at_one_end : (same j (beside c d) && same j c) ≡ false
    at_one_end = elim (Bool-cases (same j (beside c d))) [
      | inl there ↦
          ap (λ b. b && same j c) there
          ∙ ap (λ x. same x c) (eq_of_same j (beside c d) there)
          ∙ not_beside width height c d hd
      | inr elsewhere ↦ ap (λ b. b && same j c) elsewhere
    ]

    pub stands-carve :
        (e : Dir)
        → stands e (look width (carve width height s c d).cells all_walls j)
          ≡ (stands e (look width s.cells all_walls j) && not (is_between c d j e))
    stands-carve e =
        ap (stands e) walls-carve
        ∙ stands-chosen (same j (beside c d)) (same j c) d e (look width s.cells all_walls j)
            at_one_end

  -- Carving into a cell that stands apart takes one wall from each of the two cells.
  pub openings-carve :
      (s : Carving) (c : Cell) (d : Dir)
      → length s.cells ≡ width * height
      → IsCell width height c
      → has_beside width height c d ≡ true
      → stands d (look width s.cells all_walls c) ≡ true
      → stands (opposite d) (look width s.cells all_walls (beside c d)) ≡ true
      → total openings (carve width height s c d).cells ≡ total openings s.cells + 2
  unfolding carve
  openings-carve s c d size hc hd wall_c wall_n =
      let n : Cell = beside c d in
      let hn = beside-IsCell width height c d hc hd in
      let w = look width s.cells all_walls c in
      let out = put width s.cells c (cleared d w) in
      let at_n =
        look-put width height s.cells c n (cleared d w) all_walls size hc hn
        ∙ if_false (same n c) _ _ (not_beside width height c d hd) in
      let size_out = length-set s.cells (idx width c) (cleared d w) ∙ size in
      let first =
        total-set openings s.cells (idx width c) (cleared d w) all_walls
          (has_place s.cells c size hc) in
      let second =
        total-set openings out (idx width n) (cleared (opposite d) (look width out all_walls n))
          all_walls (has_place out n size_out hn) in
      let more =
        openings-cleared (opposite d) (look width out all_walls n)
          (ap (stands (opposite d)) at_n ∙ wall_n) in
      omega (arith, first, second, more, openings-cleared d w wall_c)
