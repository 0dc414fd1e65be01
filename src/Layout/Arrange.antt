-- ===== src/Layout/Arrange.antt =====
-- The one-shot arrangements of src/layout.rs. The number of windows is below 2^31, where the cast to
-- i32 and the square root in f64 are exact: `isqrt` is the root's floor.
use shoestring_wm.Prelude.{
  ℕ, zero, suc, ◌+◌, ◌*◌, ◌/◌, ◌%◌, Bool, true, false, List, [], ◌∷◌, ◌++◌, map, if◌then◌else◌, ltb,
  leb, ◌==◌, not, ◌||◌, ℤ, pos, ltb_ℤ, quot, rem, add_i32,
}
use shoestring_wm.Layout.Rect.{Rect, halves}

pub data ArrangeKind : Type 0 where
  grid spiral bsp : ArrangeKind

-- The loop of `even_spans`, with `left` rounds to go at index `i`.
unfoldable pub spans_from : ℕ → ℕ → ℤ → ℤ → ℤ → List (ℤ × ℤ)
spans_from zero i off base extra = []
spans_from (suc left) i off base extra =
    let len = add_i32 base (if ltb_ℤ (pos i) extra then pos 1 else pos 0) in
    (off, len) ∷ spans_from left (i + 1) (add_i32 off len) base extra

unfoldable pub even_spans : ℤ → ℕ → List (ℤ × ℤ)
unfolding spans_from
even_spans total parts = spans_from parts 0 (pos 0) (quot total parts) (rem total parts)

-- floor(sqrt(n)).
unfoldable pub isqrt : ℕ → ℕ
isqrt zero = 0
isqrt (suc n) = let r = isqrt n in if leb ((r + 1) * (r + 1)) (suc n) then r + 1 else r

-- `.max(1.0)`.
unfoldable pub grid_row_count : ℕ → ℕ
unfolding isqrt
grid_row_count n = let r = isqrt n in if r == 0 then 1 else r

abbrev pub grid_cell : Rect → ℤ → ℤ → ℤ × ℤ → Rect
grid_cell usable y h (x_off, w) = record { x = add_i32 usable.x x_off; y = y; w = w; h = h }

unfoldable pub grid_row : Rect → ℕ → ℤ × ℤ → List Rect
unfolding even_spans
grid_row usable cols (y_off, h) =
    map (grid_cell usable (add_i32 usable.y y_off) h) (even_spans usable.w cols)

-- The loop over the rows, from row `r`.
unfoldable pub grid_rows : Rect → ℕ → ℕ → ℕ → List (ℤ × ℤ) → List Rect
unfolding grid_row
grid_rows usable base_cols extra r [] = []
grid_rows usable base_cols extra r (row ∷ rows) =
    let cols = base_cols + (if ltb r extra then 1 else 0) in
    (if cols == 0 then [] else grid_row usable cols row)
    ++ grid_rows usable base_cols extra (r + 1) rows

unfoldable pub grid_rects : Rect → ℕ → List Rect
grid_rects usable zero = []
grid_rects usable (suc m) =
    let n = suc m in
    let rows = grid_row_count n in
    grid_rows usable (n / rows) (n % rows) 0 (even_spans usable.h rows)

-- One round of `split_rects`: the window's piece, and the remainder.
unfoldable pub split_once : ℕ → Bool → Rect → Rect × Rect
unfolding halves
split_once i rotate r =
    let keep_first = not rotate || ltb (i % 4) 2 in
    let (lw, rw) = halves r.w in
    let (th, bh) = halves r.h in
    let left = record r { w = lw } in
    let right = record r { x = add_i32 r.x lw; w = rw } in
    let top = record r { h = th } in
    let bottom = record r { y = add_i32 r.y th; h = bh } in
    if i % 2 == 0
    then (if keep_first then (left, right) else (right, left))
    else if keep_first
    then (top, bottom)
    else (bottom, top)

-- The loop of `split_rects`, with `left` rounds to go at index `i`: the last takes the remainder.
unfoldable pub split_from : ℕ → ℕ → Bool → Rect → List Rect
unfolding split_once
split_from zero i rotate r = []
split_from (suc zero) i rotate r = r ∷ []
split_from (suc (suc left)) i rotate r =
    let (mine, next) = split_once i rotate r in mine ∷ split_from (suc left) (i + 1) rotate next

unfoldable pub split_rects : Rect → ℕ → Bool → List Rect
unfolding split_from
split_rects usable n rotate = split_from n 0 rotate usable

unfoldable pub arrange_rects : Rect → ℕ → ArrangeKind → List Rect
unfolding grid_rects split_rects
arrange_rects usable n grid = grid_rects usable n
arrange_rects usable n spiral = split_rects usable n true
arrange_rects usable n bsp = split_rects usable n false
