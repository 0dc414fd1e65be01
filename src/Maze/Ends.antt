-- ===== src/Maze/Ends.antt =====
-- Facts about the two ends of a passage, crates/shoestring-lock/src/maze.rs.
use shoestring_wm.Prelude.{
  ℕ, zero, suc, ◌<◌, ◌≡◌, refl, Bool, true, false, not, ◌&&◌, List, [], ◌∷◌, arith, if◌then◌else◌,
  length, All,
}
use shoestring_wm.Maze.Array.{get_or}
use shoestring_wm.Maze.Grid.{
  Cell, Dir, north, east, south, west, opposite, beside, has_beside, IsCell,
}
use shoestring_wm.Maze.Walls.{is_between}
use shoestring_wm.Maze.Carve.{offer, neighbours, was_visited}

pub get_or-All :
    {A : Type 0} (P : A → Type 0) (xs : List A) (i : ℕ) (d : A)
    → All P xs
    → i < length xs
    → P (get_or xs i d)
get_or-All P [] i d a h = absurd (omega (arith, h))
get_or-All P (x ∷ xs) zero d a h = a.0
get_or-All P (x ∷ xs) (suc i) d a h = get_or-All P xs i d a.1 (omega arith)

taken_none :
    (a b : Bool) (d : Dir) (rest : List Dir)
    → (if a && not b then d ∷ rest else rest) ≡ []
    → (rest ≡ []) × (a ≡ true → b ≡ true)
taken_none true true d rest h = (h, λ e. refl)
taken_none true false d rest h = absurd (cc h)
taken_none false b d rest h = (h, λ e. absurd (cc e))

pub every : (P : Dir → Type 0) → P north → P east → P south → P west → (d : Dir) → P d
every P n e s w north = n
every P n e s w east = e
every P n e s w south = s
every P n e s w west = w

module _ (width height : ℕ) where
  -- Both ends of a passage see the same.
  pub is_between_mirrored :
      (c : Cell) (d : Dir) (j : Cell) (e : Dir)
      → has_beside width height c d ≡ true
      → has_beside width height j e ≡ true
      → is_between c d j e ≡ is_between c d (beside j e) (opposite e)
  is_between_mirrored c north j north hd he = ground arith
  is_between_mirrored c north j east hd he = ground arith
  is_between_mirrored c north j south hd he = ground arith
  is_between_mirrored c north j west hd he = ground arith
  is_between_mirrored c east j north hd he = ground arith
  is_between_mirrored c east j east hd he = ground arith
  is_between_mirrored c east j south hd he = ground arith
  is_between_mirrored c east j west hd he = ground arith
  is_between_mirrored c south j north hd he = ground arith
  is_between_mirrored c south j east hd he = ground arith
  is_between_mirrored c south j south hd he = ground arith
  is_between_mirrored c south j west hd he = ground arith
  is_between_mirrored c west j north hd he = ground arith
  is_between_mirrored c west j east hd he = ground arith
  is_between_mirrored c west j south hd he = ground arith
  is_between_mirrored c west j west hd he = ground arith

  -- A passage leads to a cell.
  pub has_beside_between :
      (c : Cell) (d : Dir) (j : Cell) (e : Dir)
      → IsCell width height c
      → has_beside width height c d ≡ true
      → is_between c d j e ≡ true
      → has_beside width height j e ≡ true
  has_beside_between c north j north hc hd h = ground arith
  has_beside_between c north j east hc hd h = ground arith
  has_beside_between c north j south hc hd h = ground arith
  has_beside_between c north j west hc hd h = ground arith
  has_beside_between c east j north hc hd h = ground arith
  has_beside_between c east j east hc hd h = ground arith
  has_beside_between c east j south hc hd h = ground arith
  has_beside_between c east j west hc hd h = ground arith
  has_beside_between c south j north hc hd h = ground arith
  has_beside_between c south j east hc hd h = ground arith
  has_beside_between c south j south hc hd h = ground arith
  has_beside_between c south j west hc hd h = ground arith
  has_beside_between c west j north hc hd h = ground arith
  has_beside_between c west j east hc hd h = ground arith
  has_beside_between c west j south hc hd h = ground arith
  has_beside_between c west j west hc hd h = ground arith

  -- An offered direction leads to a cell that was not visited.
  abbrev pub Leads : List Bool → Cell → Dir → Type 0
  Leads visited c d =
      (has_beside width height c d ≡ true) × (was_visited width height visited (beside c d) ≡ false)

  offer-Leads :
      (visited : List Bool) (c : Cell) (d : Dir) (rest : List Dir)
      → All (Leads visited c) rest
      → All (Leads visited c) (offer width height visited c d rest)
  offer-Leads visited c d rest a = ground (arith, a)

  pub neighbours-Leads :
      (visited : List Bool) (c : Cell) → All (Leads visited c) (neighbours width height visited c)
  unfolding neighbours
  neighbours-Leads visited c =
      let w = offer width height visited c west [] in
      let s = offer width height visited c south w in
      let e = offer width height visited c east s in
      offer-Leads visited c north e (
        offer-Leads visited c east s
          (offer-Leads visited c south w (offer-Leads visited c west [] tt)))

  offer_none :
      (visited : List Bool) (c : Cell) (d : Dir) (rest : List Dir)
      → offer width height visited c d rest ≡ []
      → (rest ≡ [])
        × (has_beside width height c d ≡ true
            → was_visited width height visited (beside c d) ≡ true)
  offer_none visited c d rest h =
      taken_none (has_beside width height c d) (was_visited width height visited (beside c d)) d
        rest h

  pub neighbours_none :
      (visited : List Bool) (c : Cell)
      → neighbours width height visited c ≡ []
      → (d : Dir) → has_beside width height c d ≡ true
      → was_visited width height visited (beside c d) ≡ true
  unfolding neighbours
  neighbours_none visited c h =
      let w = offer width height visited c west [] in
      let s = offer width height visited c south w in
      let e = offer width height visited c east s in
      let (he, at_north) = offer_none visited c north e h in
      let (hs, at_east) = offer_none visited c east s he in
      let (hw, at_south) = offer_none visited c south w hs in
      let (_, at_west) = offer_none visited c west [] hw in
      every
        (λ d.
          has_beside width height c d ≡ true → was_visited width height visited (beside c d) ≡ true)
        at_north at_east at_south at_west
