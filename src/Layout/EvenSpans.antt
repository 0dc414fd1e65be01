-- ===== src/Layout/EvenSpans.antt =====
-- `even_spans` of src/layout.rs covers its length exactly, in pieces that differ by one at most.
use shoestring_wm.Prelude.{
  ℕ, zero, suc, ◌+◌, ◌-◌, ◌*◌, ◌/◌, ◌%◌, ◌≤◌, ◌<◌, ◌≡◌, refl, Bool, List, ◌∷◌, arith, ◌&&◌, ◌⊎◌,
  to_nat, count_if, length, ℤ, pos, negsuc, pos_part, neg_part, ap, sym, ◌∙◌, ltb, leb, add_i32,
  ltb_ℤ, if◌then◌else◌, IsI32_of_bounds, add_i32_exact, ◌+ℤ◌, +ℤ_parts, eq_of_parts, quot_pos,
  rem_pos, All,
}
use mathlib.Core.Path.{ap₂}
use shoestring_wm.Layout.Span.{in_span, FitsSpan}
use shoestring_wm.Layout.Arrange.{spans_from, even_spans}

-- The places of the axis from `x + a` up to `x + b`, with no wrap.
abbrev between : ℤ → ℕ → ℕ → ℤ → Bool
between x a b p =
    leb (pos_part x + a + neg_part p) (pos_part p + neg_part x)
    && ltb (pos_part p + neg_part x) (pos_part x + b + neg_part p)

pub add_i32_pos : (m n : ℕ) → m + n < 2147483648 → add_i32 (pos m) (pos n) ≡ pos (m + n)
add_i32_pos m n h = e ∙ eq_of_parts _ _ (omega (arith, +ℤ_parts (pos m) (pos n)))
  where
    e : add_i32 (pos m) (pos n) ≡ pos m +ℤ pos n
    e = add_i32_exact (pos m) (pos n) (
        IsI32_of_bounds _ (omega (arith, +ℤ_parts (pos m) (pos n)))
          (omega (arith, +ℤ_parts (pos m) (pos n))))

-- The length of one span: the base, and one pixel more for the first ones.
abbrev pub span_len : ℕ → ℕ → ℕ → ℕ
span_len i b e = b + (if ltb i e then 1 else 0)

-- One round on numbers that are not negative, with no wrap.
spans_from-suc :
    (left i o b e : ℕ)
    → o + span_len i b e < 2147483648
    → spans_from (suc left) i (pos o) (pos b) (pos e)
      ≡ (pos o, pos (span_len i b e))
        ∷ spans_from left (i + 1) (pos (o + span_len i b e)) (pos b) (pos e)
unfolding spans_from
spans_from-suc left i o b e h = rw (add_len) (rw (add_i32_pos o (span_len i b e) h))
  where
    add_len :
        add_i32 (pos b) (if ltb_ℤ (pos i) (pos e) then pos 1 else pos 0) ≡ pos (span_len i b e)
    add_len = ground (arith, add_i32_pos b 1, add_i32_pos b 0)

module _ (x : ℤ) (n : ℕ) (f : FitsSpan x (pos n)) where
  in_span-between :
      (o r : ℕ) (p : ℤ) → o + r ≤ n → in_span (add_i32 x (pos o)) (pos r) p ≡ between x o (o + r) p
  unfolding in_span
  in_span-between o r p h =
      let e = add_i32_exact x (pos o) (
        IsI32_of_bounds _
          (omega (arith, +ℤ_parts x (pos o), +ℤ_parts x (pos n), f.stop, f.size, f.start))
          (omega (arith, +ℤ_parts x (pos o), f.start))) in
      let e' = add_i32_exact (x +ℤ pos o) (pos r) (
        IsI32_of_bounds _
          (omega (
            arith,
            +ℤ_parts x (pos o),
            +ℤ_parts (x +ℤ pos o) (pos r),
            +ℤ_parts x (pos n),
            f.stop,
            f.size,
            f.start,
          ))
          (omega (arith, +ℤ_parts x (pos o), +ℤ_parts (x +ℤ pos o) (pos r), f.start))) in
      rw (e, e') (ground (arith, +ℤ_parts x (pos o), +ℤ_parts (x +ℤ pos o) (pos r)))

between_join :
    (x : ℤ) (o a b : ℕ) (p : ℤ)
    → to_nat (between x o (o + a) p) + to_nat (between x (o + a) (o + a + b) p)
      ≡ to_nat (between x o (o + a + b) p)
between_join x o a b p = ground arith

-- What the rounds from an index on have left to cover.
abbrev remaining : ℕ → ℕ → ℕ → ℕ → ℕ
remaining left i b e = b * left + (e - i)

remaining-suc :
    (left i b e : ℕ)
    → e ≤ i + suc left
    → remaining (suc left) i b e ≡ span_len i b e + remaining left (i + 1) b e
remaining-suc left i b e h = ground arith

module _ (x : ℤ) (n : ℕ) (f : FitsSpan x (pos n)) (p : ℤ) where
  abbrev count_spans : List (ℤ × ℤ) → ℕ
  count_spans = count_if (λ (s : ℤ × ℤ). in_span (add_i32 x s.0) s.1 p)

  spans_from_hits :
      (left i o b e r : ℕ)
      → r ≡ remaining left i b e
      → o + r ≤ n
      → e ≤ i + left
      → count_spans (spans_from left i (pos o) (pos b) (pos e)) ≡ to_nat (between x o (o + r) p)
  spans_from_hits zero i o b e r q h k = unfold spans_from in ground arith
  spans_from_hits (suc left) i o b e r q h k =
      let len = span_len i b e in
      let r' = remaining left (i + 1) b e in
      let q' : r ≡ len + r' = q ∙ remaining-suc left i b e k in
      let total : o + r ≡ o + len + r' = omega arith in
      let small : o + len < 2147483648 = omega (arith, f.size) in
      ap count_spans (spans_from-suc left i o b e small)
      ∙ ap₂ ◌+◌ (ap to_nat (in_span-between x n f o len p (omega arith)))
          (spans_from_hits left (i + 1) (o + len) b e r' refl (omega arith) (omega arith))
      ∙ between_join x o len r' p
      ∙ ap (λ t. to_nat (between x o t p)) (sym total)

in_span-whole :
    (x : ℤ) (n : ℕ) (p : ℤ) → FitsSpan x (pos n) → in_span x (pos n) p ≡ between x 0 (0 + n) p
unfolding in_span
in_span-whole x n p f = rw (add_i32_exact x (pos n) f.stop) (ground (arith, +ℤ_parts x (pos n)))

div_mod_parts : (n parts : ℕ) → n ≡ n / parts * parts + n % parts
div_mod_parts n parts = grind arith

div_parts : (n parts : ℕ) → n ≡ remaining parts 0 (n / parts) (n % parts)
div_parts n parts = omega (arith, div_mod_parts n parts)

mod_parts : (n parts : ℕ) → 0 < parts → n % parts ≤ 0 + parts
mod_parts n parts h = grind arith

-- The spans of a length laid out from `x` cover each place of `x .. x + w` once, and no other.
pub even_spans_hits :
    (x w : ℤ) (parts : ℕ) (p : ℤ)
    → FitsSpan x w
    → 0 < parts
    → count_if (λ (s : ℤ × ℤ). in_span (add_i32 x s.0) s.1 p) (even_spans w parts)
      ≡ to_nat (in_span x w p)
even_spans_hits x (negsuc n) parts p f h = absurd (omega (arith, f.nonneg))
even_spans_hits x (pos n) parts p f h =
    unfold even_spans in
    rw (quot_pos n parts, rem_pos n parts, in_span-whole x n p f)
      (spans_from_hits x n f p parts 0 0 (n / parts) (n % parts) n (div_parts n parts) (omega arith)
        (mod_parts n parts h))

length-spans_from :
    (left i : ℕ) (off base extra : ℤ) → length (spans_from left i off base extra) ≡ left
unfolding spans_from
length-spans_from zero i off base extra = refl
length-spans_from (suc left) i off base extra = ap suc (length-spans_from left _ _ _ _)

pub length-even_spans : (total : ℤ) (parts : ℕ) → length (even_spans total parts) ≡ parts
unfolding even_spans
length-even_spans total parts = length-spans_from parts 0 _ _ _

spans_from_even :
    (left i o b e : ℕ)
    → o + remaining left i b e < 2147483648
    → e ≤ i + left
    → All
        (λ (s : ℤ × ℤ). (s.1 ≡ pos b) ⊎ (s.1 ≡ pos (b + 1)))
        (spans_from left i (pos o) (pos b) (pos e))
spans_from_even zero i o b e h k = unfold spans_from in tt
spans_from_even (suc left) i o b e h k =
    rw (spans_from-suc left i o b e (omega (arith, remaining-suc left i b e k))) (
      ground arith,
      spans_from_even left (i + 1) (o + span_len i b e) b e
          (omega (arith, remaining-suc left i b e k)) (omega arith),
    )

-- Each of the spans into which a length is split is the length over the parts, rounded down, or one
-- pixel longer, where the length is an i32 number that is not negative and there is a part.
pub even_spans_even :
    (n parts : ℕ)
    → n < 2147483648
    → 0 < parts
    → All
        (λ (s : ℤ × ℤ). (s.1 ≡ pos (n / parts)) ⊎ (s.1 ≡ pos (n / parts + 1)))
        (even_spans (pos n) parts)
even_spans_even n parts small h =
    unfold even_spans in
    rw (quot_pos n parts, rem_pos n parts)
      (spans_from_even parts 0 0 (n / parts) (n % parts) (omega (arith, div_parts n parts))
        (mod_parts n parts h))
