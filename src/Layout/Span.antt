-- ===== src/Layout/Span.antt =====
-- One axis of the rectangles of src/layout.rs: half-open spans, and how they are cut.
use shoestring_wm.Prelude.{
  ◌+◌, ◌≡◌, Bool, arith, ◌&&◌, to_nat, ℤ, pos, ◌+ℤ◌, ◌-ℤ◌, ◌≤ℤ◌, leb_ℤ, ltb_ℤ, add_i32, sub_i32,
  +ℤ_parts, -ℤ_parts, IsI32, add_i32_exact, sub_i32_exact, IsI32_of_bounds, quot_parts,
}
use shoestring_wm.Layout.Rect.{halves}

unfoldable pub in_span : ℤ → ℤ → ℤ → Bool
in_span x w p = leb_ℤ x p && ltb_ℤ p (add_i32 x w)

-- A span of an axis that an i32 holds with both its ends.
pub record FitsSpan (x w : ℤ) : Type 0 where
  pub nonneg : pos 0 ≤ℤ w
  pub start : IsI32 x
  pub size : IsI32 w
  pub stop : IsI32 (x +ℤ w)

-- A first piece of a span.
pub record IsCut (w a : ℤ) : Type 0 where
  pub low : pos 0 ≤ℤ a
  pub high : a ≤ℤ w

module _ (x w a : ℤ) (f : FitsSpan x w) (c : IsCut w a) where
  pub rest_exact : sub_i32 w a ≡ w -ℤ a
  rest_exact =
      sub_i32_exact w a
        (IsI32_of_bounds (w -ℤ a) (omega (arith, -ℤ_parts w a)) (omega (arith, -ℤ_parts w a)))

  pub middle_IsI32 : IsI32 (x +ℤ a)
  middle_IsI32 =
      IsI32_of_bounds (x +ℤ a) (omega (arith, +ℤ_parts x a, +ℤ_parts x w))
        (omega (arith, +ℤ_parts x a))

  pub start_exact : add_i32 x a ≡ x +ℤ a
  start_exact = add_i32_exact x a middle_IsI32

  -- Both pieces of a cut span fit.
  pub first_FitsSpan : FitsSpan x a
  first_FitsSpan = record {
    nonneg = c.low;
    start = f.start;
    size = IsI32_of_bounds a (omega arith) (omega arith);
    stop = middle_IsI32;
  }

  pub rest_FitsSpan : FitsSpan (add_i32 x a) (sub_i32 w a)
  rest_FitsSpan =
      rw (start_exact, rest_exact)
        (record {
          nonneg = omega (arith, -ℤ_parts w a);
          start = middle_IsI32;
          size =
              IsI32_of_bounds (w -ℤ a) (omega (arith, -ℤ_parts w a)) (omega (arith, -ℤ_parts w a));
          stop =
              IsI32_of_bounds _
                (omega
                  (arith, -ℤ_parts w a, +ℤ_parts x a, +ℤ_parts (x +ℤ a) (w -ℤ a), +ℤ_parts x w))
                (omega
                  (arith, -ℤ_parts w a, +ℤ_parts x a, +ℤ_parts (x +ℤ a) (w -ℤ a), +ℤ_parts x w));
        })

  -- A place of the span lies in one of the pieces, and a place outside it in neither.
  pub in_span_split :
      (p : ℤ)
      → to_nat (in_span x a p) + to_nat (in_span (add_i32 x a) (sub_i32 w a) p)
        ≡ to_nat (in_span x w p)
  unfolding in_span
  in_span_split p =
      rw
        (
          start_exact,
          rest_exact,
          add_i32_exact (x +ℤ a) (w -ℤ a) (rw (← start_exact, ← rest_exact) rest_FitsSpan.stop),
          add_i32_exact x w f.stop,
        )
        (ground (arith, -ℤ_parts w a, +ℤ_parts x a, +ℤ_parts (x +ℤ a) (w -ℤ a), +ℤ_parts x w))

-- The half of a length is a cut of it.
pub halves-IsCut : (x w : ℤ) → FitsSpan x w → IsCut w (halves w).0
unfolding halves
halves-IsCut x w f = record {
  low = omega (arith, quot_parts w 2 f.nonneg);
  high = omega (arith, quot_parts w 2 f.nonneg);
}
