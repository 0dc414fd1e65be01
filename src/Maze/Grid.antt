-- ===== src/Maze/Grid.antt =====
-- The cells of a maze and the walls between them, crates/shoestring-lock/src/maze.rs. A cell is its
-- column and row, with the origin at the top left. The four bits of a cell's mask are four flags.
use native.Mathlib.Nat.{mul-le-mul_right}
use shoestring_wm.Prelude.{
  ℕ, ◌+◌, ◌-◌, ◌*◌, ◌≤◌, ◌<◌, ◌≡◌, Bool, true, false, ◌&&◌, inl, inr, List, arith, if◌then◌else◌,
  ltb, ◌==◌, length, set, Bool-cases,
}
use shoestring_wm.Maze.Array.{get_or, get_or-set}

abbrev pub Cell : Type 0
Cell = ℕ × ℕ

pub data Dir : Type 0 where
  north east south west : Dir

abbrev pub opposite : Dir → Dir
opposite north = south
opposite east = west
opposite south = north
opposite west = east

pub record Walls : Type 0 where
  pub on_north : Bool
  pub on_east : Bool
  pub on_south : Bool
  pub on_west : Bool

abbrev pub all_walls : Walls
all_walls = record { on_north = true; on_east = true; on_south = true; on_west = true }

-- `walls & d != 0`.
abbrev pub stands : Dir → Walls → Bool
stands north w = w.on_north
stands east w = w.on_east
stands south w = w.on_south
stands west w = w.on_west

-- `walls &= !d`.
abbrev pub cleared : Dir → Walls → Walls
cleared north w = record w { on_north = false }
cleared east w = record w { on_east = false }
cleared south w = record w { on_south = false }
cleared west w = record w { on_west = false }

abbrev pub idx : ℕ → Cell → ℕ
idx width c = c.1 * width + c.0

-- The cell beside one, where there is one.
abbrev pub beside : Cell → Dir → Cell
beside c north = (c.0, c.1 - 1)
beside c east = (c.0 + 1, c.1)
beside c south = (c.0, c.1 + 1)
beside c west = (c.0 - 1, c.1)

abbrev pub has_beside : ℕ → ℕ → Cell → Dir → Bool
has_beside width height c north = ltb 0 c.1
has_beside width height c east = ltb (c.0 + 1) width
has_beside width height c south = ltb (c.1 + 1) height
has_beside width height c west = ltb 0 c.0

abbrev pub same : Cell → Cell → Bool
same a b = a.0 == b.0 && a.1 == b.1

abbrev pub same_dir : Dir → Dir → Bool
same_dir north north = true
same_dir east east = true
same_dir south south = true
same_dir west west = true
same_dir _ _ = false

abbrev pub IsCell : ℕ → ℕ → Cell → Type 0
IsCell width height c = (c.0 < width) × (c.1 < height)

pub same_self : (c : Cell) → same c c ≡ true
same_self c = ground arith

pub eq_of_same : (a b : Cell) → same a b ≡ true → a ≡ b
eq_of_same (x, y) (u, v) h = ground (arith, h)

scale-le : (m n k : ℕ) → m ≤ n → m * k ≤ n * k
scale-le m n k le = mul-le-mul_right k le

pub idx-lt : (width height : ℕ) (c : Cell) → IsCell width height c → idx width c < width * height
idx-lt width height (x, y) h = omega (arith, scale-le (y + 1) height width (omega arith))

idx-same :
    (width height : ℕ) (a b : Cell)
    → IsCell width height a
    → IsCell width height b
    → (idx width a == idx width b) ≡ same a b
idx-same width height (x, y) (u, v) ha hb = elim (Bool-cases (ltb y v)) [
  | inl above ↦ ground (arith, above, scale-le (y + 1) v width (ground (arith, above)))
  | inr level ↦ elim (Bool-cases (ltb v y)) [
    | inl below ↦ ground (arith, below, scale-le (v + 1) y width (ground (arith, below)))
    | inr equal ↦ let e : y ≡ v = ground (arith, level, equal) in rw e (ground arith)
  ]
]

pub beside-IsCell :
    (width height : ℕ) (c : Cell) (d : Dir)
    → IsCell width height c
    → has_beside width height c d ≡ true
    → IsCell width height (beside c d)
beside-IsCell width height c north h e = ground arith
beside-IsCell width height c east h e = ground arith
beside-IsCell width height c south h e = ground arith
beside-IsCell width height c west h e = ground arith

pub beside_back :
    (width height : ℕ) (c : Cell) (d : Dir)
    → IsCell width height c
    → has_beside width height c d ≡ true
    → (beside (beside c d) (opposite d) ≡ c)
      × (has_beside width height (beside c d) (opposite d) ≡ true)
beside_back width height c north h e = ground arith
beside_back width height c east h e = ground arith
beside_back width height c south h e = ground arith
beside_back width height c west h e = ground arith

module _ {ℓ} {A : Type ℓ} where
  -- An array by cells.
  abbrev pub look : ℕ → List A → A → Cell → A
  look width xs d c = get_or xs (idx width c) d

  abbrev pub put : ℕ → List A → Cell → A → List A
  put width xs c v = set xs (idx width c) v

  pub look-put :
      (width height : ℕ) (xs : List A) (c j : Cell) (v d : A)
      → length xs ≡ width * height
      → IsCell width height c
      → IsCell width height j
      → look width (put width xs c v) d j ≡ (if same j c then v else look width xs d j)
  look-put width height xs c j v d size hc hj = rw (← idx-same width height j c hj hc) (
      get_or-set xs (idx width c) (idx width j) v d (omega (arith, size, idx-lt width height c hc)))
