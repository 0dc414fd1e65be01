-- ===== src/Layout/Grid.antt =====
-- The grid arrangement of src/layout.rs partitions the usable rectangle.
use shoestring_wm.Prelude.{
  ℕ, zero, suc, ◌+◌, ◌-◌, ◌*◌, ◌/◌, ◌%◌, ◌≤◌, ◌<◌, ◌≡◌, refl, Bool, List, [], ◌∷◌, map, arith, ◌&&◌,
  to_nat, count_if, count_if-append, length, length-append, length-map, ℤ, ap, sym, ◌∙◌, ltb,
  add_i32, if◌then◌else◌, ◌==◌,
}
use shoestring_wm.Layout.Rect.{Point, Rect, rect_contains}
use shoestring_wm.Layout.Span.{in_span}
use shoestring_wm.Layout.Arrange.{
  isqrt, grid_row_count, grid_cell, grid_row, grid_rows, grid_rects, even_spans,
}
use shoestring_wm.Layout.EvenSpans.{even_spans_hits, length-even_spans}
use shoestring_wm.Layout.Split.{FitsRect, hits, rect_contains-in_span}

module _ (usable : Rect) (p : Point) where
  -- The cells of one row hold a point as often as the spans hold its column, in the row's band.
  cells_hits :
      (y h : ℤ) (spans : List (ℤ × ℤ))
      → hits p (map (grid_cell usable y h) spans)
        ≡ to_nat (in_span y h p.y)
          * count_if (λ (s : ℤ × ℤ). in_span (add_i32 usable.x s.0) s.1 p.x) spans
  cells_hits y h [] = omega arith
  cells_hits y h ((x_off, w) ∷ spans) =
      ground
        (arith, cells_hits y h spans, rect_contains-in_span (grid_cell usable y h (x_off, w)) p)

  hits-grid_row :
      (cols : ℕ) (row : ℤ × ℤ)
      → FitsRect usable
      → 0 < cols
      → hits p (grid_row usable cols row)
        ≡ to_nat (in_span (add_i32 usable.y row.0) row.1 p.y)
          * to_nat (in_span usable.x usable.w p.x)
  unfolding grid_row
  hits-grid_row cols (y_off, h) f c =
      cells_hits (add_i32 usable.y y_off) h (even_spans usable.w cols)
      ∙ ap (λ t. to_nat (in_span (add_i32 usable.y y_off) h p.y) * t)
          (even_spans_hits usable.x usable.w cols p.x f.across c)

  hits-grid_rows :
      (base_cols extra r : ℕ) (rows : List (ℤ × ℤ))
      → FitsRect usable
      → 0 < base_cols
      → hits p (grid_rows usable base_cols extra r rows)
        ≡ count_if (λ (s : ℤ × ℤ). in_span (add_i32 usable.y s.0) s.1 p.y) rows
          * to_nat (in_span usable.x usable.w p.x)
  unfolding grid_rows
  hits-grid_rows base_cols extra r [] f c = omega arith
  hits-grid_rows base_cols extra r (row ∷ rows) f c =
      let cols = base_cols + (if ltb r extra then 1 else 0) in
      let here = if cols == 0 then [] else grid_row usable cols row in
      let some_cols : 0 < cols = omega arith in
      let at_row : hits p here
          ≡ to_nat (in_span (add_i32 usable.y row.0) row.1 p.y)
            * to_nat (in_span usable.x usable.w p.x) =
        ground (arith, hits-grid_row cols row f some_cols) in
      count_if-append (λ s. rect_contains s p) here _
      ∙ omega (arith, at_row, hits-grid_rows base_cols extra (r + 1) rows f c)

-- The root's square does not exceed the number.
isqrt-le : (n : ℕ) → isqrt n * isqrt n ≤ n
unfolding isqrt
isqrt-le zero = omega arith
isqrt-le (suc n) = ground (arith, isqrt-le n)

isqrt_pos : (n : ℕ) → 0 < n → 0 < isqrt n
unfolding isqrt
isqrt_pos zero h = elim h [ ]
isqrt_pos (suc zero) h = omega arith
isqrt_pos (suc (suc n)) h = ground (arith, isqrt_pos (suc n))

grid_row_count-le : (n : ℕ) → 0 < n → grid_row_count n ≤ n
unfolding grid_row_count
grid_row_count-le n h = grind (arith, isqrt-le n, isqrt_pos n h)

grid_row_count_pos : (n : ℕ) → 0 < grid_row_count n
unfolding grid_row_count
grid_row_count_pos n = ground arith

div_pos : (n k : ℕ) → 0 < k → k ≤ n → 0 < n / k
div_pos n k h e = grind arith

mul-to_nat : (a b : Bool) → to_nat a * to_nat b ≡ to_nat (b && a)
mul-to_nat a b = ground arith

pub hits-grid_rects :
    (usable : Rect) (n : ℕ) (p : Point)
    → FitsRect usable
    → 0 < n
    → hits p (grid_rects usable n) ≡ to_nat (rect_contains usable p)
unfolding grid_rects
hits-grid_rects usable zero p f h = elim h [ ]
hits-grid_rects usable (suc n) p f h =
    let rows = grid_row_count (suc n) in
    hits-grid_rows usable p (suc n / rows) (suc n % rows) 0 (even_spans usable.h rows) f
      (div_pos (suc n) rows (grid_row_count_pos (suc n)) (grid_row_count-le (suc n) h))
    ∙ ap (λ t. t * to_nat (in_span usable.x usable.w p.x))
        (even_spans_hits usable.y usable.h rows p.y f.down (grid_row_count_pos (suc n)))
    ∙ mul-to_nat _ _
    ∙ ap to_nat (sym (rect_contains-in_span usable p))

length-grid_row :
    (usable : Rect) (cols : ℕ) (row : ℤ × ℤ) → length (grid_row usable cols row) ≡ cols
unfolding grid_row
length-grid_row usable cols (y_off, h) =
    length-map (even_spans usable.w cols) _ ∙ length-even_spans usable.w cols

length-grid_rows :
    (usable : Rect) (base_cols extra r : ℕ) (rows : List (ℤ × ℤ))
    → 0 < base_cols
    → extra ≤ r + length rows
    → length (grid_rows usable base_cols extra r rows) ≡ base_cols * length rows + (extra - r)
unfolding grid_rows
length-grid_rows usable base_cols extra r [] c h = omega arith
length-grid_rows usable base_cols extra r (row ∷ rows) c h =
    let cols = base_cols + (if ltb r extra then 1 else 0) in
    let here = if cols == 0 then [] else grid_row usable cols row in
    let at_row : length here ≡ cols = ground (arith, length-grid_row usable cols row) in
    length-append here _
    ∙ ground (arith, at_row, length-grid_rows usable base_cols extra (r + 1) rows c)

pub length-grid_rects : (usable : Rect) (n : ℕ) → length (grid_rects usable n) ≡ n
unfolding grid_rects
length-grid_rects usable zero = refl
length-grid_rects usable (suc n) =
    let rows = grid_row_count (suc n) in
    let some_rows = grid_row_count_pos (suc n) in
    let base = div_pos (suc n) rows some_rows (grid_row_count-le (suc n) (omega arith)) in
    let len = length-even_spans usable.h rows in
    length-grid_rows usable (suc n / rows) (suc n % rows) 0 (even_spans usable.h rows) base
      (rw len (grind arith))
    ∙ rw len (grind arith)
