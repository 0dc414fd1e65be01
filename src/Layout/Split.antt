-- ===== src/Layout/Split.antt =====
-- The spiral and dwindle arrangements of src/layout.rs partition the usable rectangle.
use shoestring_wm.Prelude.{
  ℕ, zero, suc, ◌+◌, ◌<◌, ◌≡◌, refl, Bool, List, arith, ◌&&◌, to_nat, count_if, length, ℤ, add_i32,
  sub_i32, ap,
}
use shoestring_wm.Layout.Rect.{Point, Rect, rect_contains, halves}
use shoestring_wm.Layout.Span.{
  in_span, FitsSpan, IsCut, halves-IsCut, in_span_split, first_FitsSpan, rest_FitsSpan,
}
use shoestring_wm.Layout.Arrange.{split_once, split_from, split_rects}

-- A rectangle whose edges all are i32 numbers, with no negative side.
pub record FitsRect (r : Rect) : Type 0 where
  pub across : FitsSpan r.x r.w
  pub down : FitsSpan r.y r.h

-- How many of the rectangles hold a point.
abbrev pub hits : Point → List Rect → ℕ
hits p = count_if (λ r. rect_contains r p)

pub rect_contains-in_span :
    (r : Rect) (p : Point) → rect_contains r p ≡ (in_span r.x r.w p.x && in_span r.y r.h p.y)
unfolding rect_contains in_span
rect_contains-in_span r p = ground arith

-- Cutting a rectangle across or down puts each of its points in one of the pieces.
pub hits_across :
    (r : Rect) (a : ℤ) (p : Point)
    → FitsSpan r.x r.w
    → IsCut r.w a
    → to_nat (rect_contains (record r { w = a }) p)
        + to_nat (rect_contains (record r { x = add_i32 r.x a; w = sub_i32 r.w a }) p)
      ≡ to_nat (rect_contains r p)
hits_across r a p f c =
    let lo = record r { w = a } in
    let hi = record r { x = add_i32 r.x a; w = sub_i32 r.w a } in
    ground (
      arith,
      rect_contains-in_span r p,
      rect_contains-in_span lo p,
      rect_contains-in_span hi p,
      in_span_split r.x r.w a f c p.x,
    )

pub hits_down :
    (r : Rect) (a : ℤ) (p : Point)
    → FitsSpan r.y r.h
    → IsCut r.h a
    → to_nat (rect_contains (record r { h = a }) p)
        + to_nat (rect_contains (record r { y = add_i32 r.y a; h = sub_i32 r.h a }) p)
      ≡ to_nat (rect_contains r p)
hits_down r a p f c =
    let lo = record r { h = a } in
    let hi = record r { y = add_i32 r.y a; h = sub_i32 r.h a } in
    ground (
      arith,
      rect_contains-in_span r p,
      rect_contains-in_span lo p,
      rect_contains-in_span hi p,
      in_span_split r.y r.h a f c p.y,
    )

-- A round keeps both pieces in range, and each point of the rectangle in one of them.
split_once-FitsRect :
    (i : ℕ) (rotate : Bool) (r : Rect)
    → FitsRect r
    → FitsRect (split_once i rotate r).0 × FitsRect (split_once i rotate r).1
unfolding split_once halves
split_once-FitsRect i rotate r f =
    let cx = halves-IsCut r.x r.w f.across in
    let cy = halves-IsCut r.y r.h f.down in
    ground (
      arith,
      first_FitsSpan r.x r.w _ f.across cx,
      rest_FitsSpan r.x r.w _ f.across cx,
      first_FitsSpan r.y r.h _ f.down cy,
      rest_FitsSpan r.y r.h _ f.down cy,
    )

split_once_hits :
    (i : ℕ) (rotate : Bool) (r : Rect) (p : Point)
    → FitsRect r
    → to_nat (rect_contains (split_once i rotate r).0 p)
        + to_nat (rect_contains (split_once i rotate r).1 p)
      ≡ to_nat (rect_contains r p)
unfolding split_once halves
split_once_hits i rotate r p f = ground (
  arith,
  hits_across r (halves r.w).0 p f.across (halves-IsCut r.x r.w f.across),
  hits_down r (halves r.h).0 p f.down (halves-IsCut r.y r.h f.down),
)

hits-split_from :
    (left i : ℕ) (rotate : Bool) (r : Rect) (p : Point)
    → FitsRect r
    → hits p (split_from (suc left) i rotate r) ≡ to_nat (rect_contains r p)
unfolding split_from
hits-split_from zero i rotate r p f = omega arith
hits-split_from (suc left) i rotate r p f = omega (
  arith,
  hits-split_from left (i + 1) rotate _ p (split_once-FitsRect i rotate r f).1,
  split_once_hits i rotate r p f,
)

pub hits-split_rects :
    (usable : Rect) (n : ℕ) (rotate : Bool) (p : Point)
    → FitsRect usable
    → 0 < n
    → hits p (split_rects usable n rotate) ≡ to_nat (rect_contains usable p)
unfolding split_rects
hits-split_rects usable zero rotate p f h = elim h [ ]
hits-split_rects usable (suc n) rotate p f h = hits-split_from n 0 rotate usable p f

length-split_from :
    (left i : ℕ) (rotate : Bool) (r : Rect) → length (split_from left i rotate r) ≡ left
unfolding split_from
length-split_from zero i rotate r = refl
length-split_from (suc zero) i rotate r = refl
length-split_from (suc (suc left)) i rotate r =
    ap suc (length-split_from (suc left) (i + 1) rotate _)

pub length-split_rects :
    (usable : Rect) (n : ℕ) (rotate : Bool) → length (split_rects usable n rotate) ≡ n
unfolding split_rects
length-split_rects usable n rotate = length-split_from n 0 rotate usable
