-- ===== src/Maze/CellSize.antt =====
-- The size of the cells of the animation, `pick_cell_size` of crates/shoestring-lock/src/main.rs.
use native.Mathlib.Nat.{le_trans, mul-le-mul_right}
use shoestring_wm.Prelude.{
  ℕ, ◌+◌, ◌*◌, ◌/◌, ◌%◌, ◌≤◌, ◌≡◌, subst, sym, Bool-cases, inl, inr, arith, if◌then◌else◌, ltb,
}
use shoestring_wm.Maze.Animation.{pick_cell_size, cells_across, min_cells, min, max}

div_mod : (n d : ℕ) → n ≡ n / d * d + n % d
div_mod n d = grind arith

mod-le : (n : ℕ) → n % 65536 ≤ n
mod-le n = omega arith

across-fits : (side cell_px : ℕ) → 12 * cell_px ≤ side → cells_across side cell_px * cell_px ≤ side
across-fits side cell_px h =
    le_trans (mul-le-mul_right cell_px (mod-le (max (side / cell_px) min_cells)))
      (elim (Bool-cases (ltb (side / cell_px) min_cells)) [
        | inl few ↦
            subst (λ b. (if b then min_cells else side / cell_px) * cell_px ≤ side) (sym few) h
        | inr many ↦
            subst (λ b. (if b then min_cells else side / cell_px) * cell_px ≤ side) (sym many)
              (omega (arith, div_mod side cell_px))
      ])

capped_size :
    (by_w by_h : ℕ)
    → 12 ≤ by_w
    → 12 ≤ by_h
    → let px = max (min (min 24 (max by_w 12)) (max by_h 12)) 12 in
      (12 ≤ px) × (px ≤ 24) × (px ≤ by_w) × (px ≤ by_h)
capped_size by_w by_h w h = (ground arith, ground arith, ground arith, ground arith)

pick-bounds :
    (surface_w surface_h : ℕ)
    → 144 ≤ surface_w
    → 144 ≤ surface_h
    → (12 ≤ pick_cell_size surface_w surface_h)
      × (pick_cell_size surface_w surface_h ≤ 24)
      × (12 * pick_cell_size surface_w surface_h ≤ surface_w)
      × (12 * pick_cell_size surface_w surface_h ≤ surface_h)
unfolding pick_cell_size
pick-bounds surface_w surface_h wide high =
    let (least, most, by_w, by_h) =
      capped_size (surface_w / 12) (surface_h / 12) (omega arith) (omega arith) in
    (least, most, omega (arith, by_w), omega (arith, by_h))

-- On a surface of at least 144 pixels a side, the cells of the size that is picked, from 12 to 24 pixels,
-- all fit: as many as are shown across take no more than the side.
pub cells_fit :
    (surface_w surface_h : ℕ)
    → 144 ≤ surface_w
    → 144 ≤ surface_h
    → (12 ≤ pick_cell_size surface_w surface_h)
      × (pick_cell_size surface_w surface_h ≤ 24)
      × (cells_across surface_w (pick_cell_size surface_w surface_h)
            * pick_cell_size surface_w surface_h
          ≤ surface_w)
      × (cells_across surface_h (pick_cell_size surface_w surface_h)
            * pick_cell_size surface_w surface_h
          ≤ surface_h)
cells_fit surface_w surface_h wide high =
    let (least, most, by_w, by_h) = pick-bounds surface_w surface_h wide high in
    (
      least,
      most,
      across-fits surface_w (pick_cell_size surface_w surface_h) by_w,
      across-fits surface_h (pick_cell_size surface_w surface_h) by_h,
    )
