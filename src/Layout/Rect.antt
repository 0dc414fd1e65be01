-- ===== src/Layout/Rect.antt =====
-- The geometry of src/layout.rs: points and rectangles with i32 coordinates, whose sums wrap, and the
-- functions that read or cut one rectangle.
use shoestring_wm.Prelude.{Bool, Option, none, some, ◌&&◌, ℤ, leb_ℤ, ltb_ℤ, quot, add_i32, sub_i32}

pub record Point : Type 0 where
  pub x : ℤ
  pub y : ℤ

-- `Rectangle<i32, Logical>`, its `loc` and `size` spelled out.
pub record Rect : Type 0 where
  pub x : ℤ
  pub y : ℤ
  pub w : ℤ
  pub h : ℤ

pub data LayoutState : Type 0 where
  floating tiled_left tiled_right maximized fullscreen : LayoutState

unfoldable pub rect_contains : Rect → Point → Bool
rect_contains r p =
    leb_ℤ r.x p.x && ltb_ℤ p.x (add_i32 r.x r.w) && leb_ℤ r.y p.y && ltb_ℤ p.y (add_i32 r.y r.h)

unfoldable pub halves : ℤ → ℤ × ℤ
halves len = let first = quot len 2 in (first, sub_i32 len first)

unfoldable pub tiled_rect : Rect → LayoutState → Option Rect
tiled_rect usable tiled_left = some (record usable { w = quot usable.w 2 })
tiled_rect usable tiled_right =
    let half_w = quot usable.w 2 in
    some (record usable { x = add_i32 usable.x half_w; w = sub_i32 usable.w half_w })
tiled_rect usable maximized = some usable
tiled_rect usable floating = none
tiled_rect usable fullscreen = none
