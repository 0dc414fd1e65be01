-- ===== src/Remote/Slices.antt =====
-- Reading and writing a stretch of bytes by index, for crates/shoestring-remote/src/codec.rs.
use shoestring_wm.Prelude.{
  ℕ, zero, suc, ◌+◌, ◌-◌, ◌≤◌, ◌≡◌, refl, ap, [], ◌∷◌, ◌++◌, arith, if◌then◌else◌, ltb, length,
  length-append, take, drop, get_elem?, none, ◌∙◌,
}
use shoestring_wm.Remote.Codec.{slice, write_slice}
use shoestring_wm.Remote.Bytes.{Bytes}

pub get_elem?-append :
    (xs ys : Bytes) (i : ℕ)
    → get_elem? (xs ++ ys) i
      ≡ (if ltb i (length xs) then get_elem? xs i else get_elem? ys (i - length xs))
get_elem?-append [] ys i = ground arith
get_elem?-append (x ∷ xs) ys zero = ground arith
get_elem?-append (x ∷ xs) ys (suc i) = ground (arith, get_elem?-append xs ys i)

pub get_elem?-take :
    (n : ℕ) (xs : Bytes) (i : ℕ)
    → get_elem? (take n xs) i ≡ (if ltb i n then get_elem? xs i else none)
get_elem?-take zero xs i = ground arith
get_elem?-take (suc n) [] i = ground arith
get_elem?-take (suc n) (x ∷ xs) zero = ground arith
get_elem?-take (suc n) (x ∷ xs) (suc i) = ground (arith, get_elem?-take n xs i)

pub get_elem?-drop : (n : ℕ) (xs : Bytes) (i : ℕ) → get_elem? (drop n xs) i ≡ get_elem? xs (n + i)
get_elem?-drop zero xs i = ap (get_elem? xs) (omega arith)
get_elem?-drop (suc n) [] i = refl
get_elem?-drop (suc n) (x ∷ xs) i = get_elem?-drop n xs i ∙ ground arith

pub length-take : (n : ℕ) (xs : Bytes) → n ≤ length xs → length (take n xs) ≡ n
length-take zero xs h = refl
length-take (suc n) [] h = omega arith
length-take (suc n) (x ∷ xs) h = ap suc (length-take n xs (omega arith))

pub length-drop : (n : ℕ) (xs : Bytes) → length (drop n xs) ≡ length xs - n
length-drop zero xs = omega arith
length-drop (suc n) [] = omega arith
length-drop (suc n) (x ∷ xs) = omega (arith, length-drop n xs)

pub length-slice : (b : Bytes) (s n : ℕ) → s + n ≤ length b → length (slice b s n) ≡ n
unfolding slice
length-slice b s n h = length-take n (drop s b) (omega (arith, length-drop s b))

pub get_elem?-slice :
    (b : Bytes) (s n i : ℕ)
    → get_elem? (slice b s n) i ≡ (if ltb i n then get_elem? b (s + i) else none)
unfolding slice
get_elem?-slice b s n i = ground (arith, get_elem?-take n (drop s b) i, get_elem?-drop s b i)

pub length-write_slice :
    (b : Bytes) (s : ℕ) (src : Bytes)
    → s + length src ≤ length b
    → length (write_slice b s src) ≡ length b
unfolding write_slice
length-write_slice b s src h = omega (
  arith,
  length-append (take s b) (src ++ drop (s + length src) b),
  length-append src (drop (s + length src) b),
  length-take s b,
  length-drop (s + length src) b,
)

pub get_elem?-write_slice :
    (b : Bytes) (s : ℕ) (src : Bytes) (i : ℕ)
    → s + length src ≤ length b
    → get_elem? (write_slice b s src) i ≡ (
        if ltb i s
        then get_elem? b i
        else if ltb i (s + length src)
        then get_elem? src (i - s)
        else get_elem? b i)
unfolding write_slice
get_elem?-write_slice b s src i h = ground (
  arith,
  get_elem?-append (take s b) (src ++ drop (s + length src) b) i,
  get_elem?-append src (drop (s + length src) b) (i - s),
  get_elem?-take s b i,
  get_elem?-drop (s + length src) b (i - s - length src),
  length-take s b,
)
