-- ===== src/Layout/Partition.antt =====
-- What src/layout.rs says of the rectangles it computes: they partition the usable rectangle.
use shoestring_wm.Prelude.{true, false, ℕ, ◌<◌, ◌≡◌, some, [], ◌∷◌, arith, to_nat, length, quot}
use shoestring_wm.Layout.Rect.{
  Point, Rect, rect_contains, tiled_left, tiled_right, tiled_rect, halves,
}
use shoestring_wm.Layout.Span.{halves-IsCut}
use shoestring_wm.Layout.Arrange.{ArrangeKind, grid, spiral, bsp, arrange_rects}
use shoestring_wm.Layout.Grid.{hits-grid_rects, length-grid_rects}
use shoestring_wm.Layout.Split.{FitsRect, hits, hits_across, hits-split_rects, length-split_rects}

-- Under every arrangement of at least one window, a point of the usable rectangle lies in exactly
-- one of the computed rectangles and any other point in none, where the usable rectangle's sides
-- are not negative and its edges are i32 numbers.
pub arrange_rects_partition :
    (usable : Rect) (n : ℕ) (kind : ArrangeKind) (p : Point)
    → FitsRect usable
    → 0 < n
    → hits p (arrange_rects usable n kind) ≡ to_nat (rect_contains usable p)
unfolding arrange_rects
arrange_rects_partition usable n grid p f h = hits-grid_rects usable n p f h
arrange_rects_partition usable n spiral p f h = hits-split_rects usable n true p f h
arrange_rects_partition usable n bsp p f h = hits-split_rects usable n false p f h

-- Every arrangement computes as many rectangles as there are windows.
pub length-arrange_rects :
    (usable : Rect) (n : ℕ) (kind : ArrangeKind) → length (arrange_rects usable n kind) ≡ n
unfolding arrange_rects
length-arrange_rects usable n grid = length-grid_rects usable n
length-arrange_rects usable n spiral = length-split_rects usable n true
length-arrange_rects usable n bsp = length-split_rects usable n false

-- The left and the right tile share the usable rectangle: each of its points lies in exactly one of
-- them and no other point in either, where the rectangle's sides are not negative and its edges are
-- i32 numbers.
pub tiles_partition :
    (usable l r : Rect) (p : Point)
    → FitsRect usable
    → tiled_rect usable tiled_left ≡ some l
    → tiled_rect usable tiled_right ≡ some r
    → hits p (l ∷ r ∷ []) ≡ to_nat (rect_contains usable p)
unfolding tiled_rect halves
tiles_partition usable l r p f a b = ground (
  arith,
  hits_across usable (quot usable.w 2) p f.across (halves-IsCut usable.x usable.w f.across),
)
