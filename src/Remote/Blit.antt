-- ===== src/Remote/Blit.antt =====
-- What crates/shoestring-remote/src/codec.rs copies out of a framebuffer and into one, byte by
-- byte.
use shoestring_wm.Prelude.{
  ℕ, zero, suc, ◌+◌, ◌-◌, ◌*◌, ◌≤◌, ◌<◌, ◌≡◌, Bool-cases, inl, inr, refl, ap, ◌∙◌, arith,
  if◌then◌else◌, ltb, length, length-append, get_elem?,
}
use native.Mathlib.Nat.{mul-le-mul_right}
use shoestring_wm.Remote.Message.{Rect, bytes_per_pixel}
use shoestring_wm.Remote.Bytes.{Bytes}
use shoestring_wm.Remote.Codec.{slice, write_slice, crop_rows, blit_rows}
use shoestring_wm.Remote.Slices.{
  get_elem?-append, get_elem?-slice, length-slice, length-write_slice, get_elem?-write_slice,
}

-- The index at which row `k` of the rectangle starts.
abbrev pub start : ℕ → Rect → ℕ → ℕ
start stride r k = (r.y + k) * stride + r.x * bytes_per_pixel

abbrev pub row_bytes : Rect → ℕ
row_bytes r = r.w * bytes_per_pixel

-- The index lies in none of `left` rows from `row`.
unfoldable pub Misses : ℕ → Rect → ℕ → ℕ → ℕ → Type 0
Misses stride r row left i =
    (k : ℕ)
    → row ≤ k
    → k < row + left
    → (start stride r k ≤ i → i < start stride r k + row_bytes r → ⊥)

scale-le : (m n k : ℕ) → m ≤ n → m * k ≤ n * k
scale-le m n k le = mul-le-mul_right k le

module _ (stride : ℕ) (r : Rect) (wide : r.x * bytes_per_pixel + row_bytes r ≤ stride) where
  pub row_fits : (n k : ℕ) → (r.y + r.h) * stride ≤ n → k < r.h → start stride r k + row_bytes r ≤ n
  row_fits n k high less = omega (arith, scale-le (r.y + k + 1) (r.y + r.h) stride (omega arith))

  pub row_before : (k l c : ℕ) → k < l → c < row_bytes r → start stride r k + c < start stride r l
  row_before k l c less small = omega (arith, scale-le (r.y + k + 1) (r.y + l) stride (omega arith))

  pub length-crop_rows :
      (fb : Bytes) (left row : ℕ)
      → (r.y + r.h) * stride ≤ length fb
      → row + left ≤ r.h
      → length (crop_rows fb stride r left row) ≡ left * row_bytes r
  unfolding crop_rows
  length-crop_rows fb zero row high le = omega arith
  length-crop_rows fb (suc left) row high le = omega (
    arith,
    length-append (slice fb (start stride r row) (row_bytes r))
        (crop_rows fb stride r left (row + 1)),
    length-slice fb ((r.y + row) * stride + r.x * bytes_per_pixel) (row_bytes r)
        (row_fits (length fb) row high (omega arith)),
    length-crop_rows fb left (row + 1) high (omega arith),
  )

  pub get_elem?-crop_rows :
      (fb : Bytes) (left row k c : ℕ)
      → (r.y + r.h) * stride ≤ length fb
      → row + left ≤ r.h
      → k < left
      → c < row_bytes r
      → get_elem? (crop_rows fb stride r left row) (k * row_bytes r + c)
        ≡ get_elem? fb (start stride r (row + k) + c)
  unfolding crop_rows
  get_elem?-crop_rows fb zero row k c high le less small = ground arith
  get_elem?-crop_rows fb (suc left) row zero c high le less small = ground (
    arith,
    get_elem?-append (slice fb (start stride r row) (row_bytes r))
        (crop_rows fb stride r left (row + 1)) c,
    length-slice fb (start stride r row) (row_bytes r)
        (row_fits (length fb) row high (omega arith)),
    get_elem?-slice fb (start stride r row) (row_bytes r) c,
  )
  get_elem?-crop_rows fb (suc left) row (suc k) c high le less small = ground (
    arith,
    get_elem?-append (slice fb (start stride r row) (row_bytes r))
        (crop_rows fb stride r left (row + 1)) (suc k * row_bytes r + c),
    length-slice fb (start stride r row) (row_bytes r)
        (row_fits (length fb) row high (omega arith)),
    get_elem?-crop_rows fb left (row + 1) k c high (omega arith) (omega arith) small,
  )

  -- The buffer with row `row` of the pixels written.
  abbrev placed : Bytes → Bytes → ℕ → Bytes
  placed dst pixels row =
      write_slice dst (start stride r row) (slice pixels (row * row_bytes r) (row_bytes r))

  length-pixels_row :
      (pixels : Bytes) (row : ℕ)
      → length pixels ≡ r.h * row_bytes r
      → row < r.h
      → length (slice pixels (row * row_bytes r) (row_bytes r)) ≡ row_bytes r
  length-pixels_row pixels row fits less =
      length-slice pixels (row * row_bytes r) (row_bytes r)
        (omega (arith, fits, scale-le (row + 1) r.h (row_bytes r) (omega arith)))

  pixels_row-fits :
      (dst pixels : Bytes) (row : ℕ)
      → (r.y + r.h) * stride ≤ length dst
      → length pixels ≡ r.h * row_bytes r
      → row < r.h
      → start stride r row + length (slice pixels (row * row_bytes r) (row_bytes r)) ≤ length dst
  pixels_row-fits dst pixels row high fits less =
      omega (arith, length-pixels_row pixels row fits less, row_fits (length dst) row high less)

  length-placed :
      (dst pixels : Bytes) (row : ℕ)
      → (r.y + r.h) * stride ≤ length dst
      → length pixels ≡ r.h * row_bytes r
      → row < r.h
      → length (placed dst pixels row) ≡ length dst
  length-placed dst pixels row high fits less =
      length-write_slice dst (start stride r row) (slice pixels (row * row_bytes r) (row_bytes r))
        (pixels_row-fits dst pixels row high fits less)

  get_elem?-placed :
      (dst pixels : Bytes) (row i : ℕ)
      → (r.y + r.h) * stride ≤ length dst
      → length pixels ≡ r.h * row_bytes r
      → row < r.h
      → get_elem? (placed dst pixels row) i ≡ (
          if ltb i (start stride r row)
          then get_elem? dst i
          else if ltb i (start stride r row + row_bytes r)
          then get_elem? pixels (row * row_bytes r + (i - start stride r row))
          else get_elem? dst i)
  get_elem?-placed dst pixels row i high fits less = ground (
    arith,
    get_elem?-write_slice dst (start stride r row) (slice pixels (row * row_bytes r) (row_bytes r))
        i (pixels_row-fits dst pixels row high fits less),
    length-pixels_row pixels row fits less,
    get_elem?-slice pixels (row * row_bytes r) (row_bytes r) (i - start stride r row),
  )

  pub length-blit_rows :
      (dst pixels : Bytes) (left row : ℕ)
      → (r.y + r.h) * stride ≤ length dst
      → row + left ≤ r.h
      → length pixels ≡ r.h * row_bytes r
      → length (blit_rows dst stride r pixels left row) ≡ length dst
  unfolding blit_rows
  length-blit_rows dst pixels zero row high le fits = refl
  length-blit_rows dst pixels (suc left) row high le fits = omega (
    arith,
    length-placed dst pixels row high fits (omega arith),
    length-blit_rows (placed dst pixels row) pixels left (row + 1)
        (omega (arith, length-placed dst pixels row high fits (omega arith))) (omega arith) fits,
  )

  pub blit_rows-Misses :
      (dst pixels : Bytes) (left row i : ℕ)
      → (r.y + r.h) * stride ≤ length dst
      → row + left ≤ r.h
      → length pixels ≡ r.h * row_bytes r
      → Misses stride r row left i
      → get_elem? (blit_rows dst stride r pixels left row) i ≡ get_elem? dst i
  unfolding blit_rows Misses
  blit_rows-Misses dst pixels zero row i high le fits misses = refl
  blit_rows-Misses dst pixels (suc left) row i high le fits misses =
      blit_rows-Misses (placed dst pixels row) pixels left (row + 1) i
        (omega (arith, length-placed dst pixels row high fits (omega arith))) (omega arith) fits
        (λ k low less. misses k (omega arith) (omega arith))
      ∙ ground (
        arith,
        get_elem?-placed dst pixels row i high fits (omega arith),
        misses row (omega arith) (omega arith),
      )

  pub get_elem?-blit_rows :
      (dst pixels : Bytes) (left row k c : ℕ)
      → (r.y + r.h) * stride ≤ length dst
      → row + left ≤ r.h
      → length pixels ≡ r.h * row_bytes r
      → row ≤ k
      → k < row + left
      → c < row_bytes r
      → get_elem? (blit_rows dst stride r pixels left row) (start stride r k + c)
        ≡ get_elem? pixels (k * row_bytes r + c)
  unfolding blit_rows Misses
  get_elem?-blit_rows dst pixels zero row k c high le fits low less small = ground arith
  get_elem?-blit_rows dst pixels (suc left) row k c high le fits low less small =
      elim (Bool-cases (ltb row k)) [
        | inl after ↦
            get_elem?-blit_rows (placed dst pixels row) pixels left (row + 1) k c
              (omega (arith, length-placed dst pixels row high fits (omega arith))) (omega arith)
              fits (ground (arith, after)) (omega arith) small
        | inr here ↦
            ap
              (λ j.
                get_elem? (blit_rows (placed dst pixels row) stride r pixels left (row + 1))
                  (start stride r j + c))
              (ground (arith, here))
            ∙ (blit_rows-Misses (placed dst pixels row) pixels left (row + 1)
                  (start stride r row + c)
                  (omega (arith, length-placed dst pixels row high fits (omega arith)))
                  (omega arith) fits
                  (λ l later less below above.
                    omega (arith, row_before row l c (omega arith) small))
                ∙ ground (
                  arith,
                  here,
                  get_elem?-placed dst pixels row (start stride r row + c) high fits (omega arith),
                ))
      ]
