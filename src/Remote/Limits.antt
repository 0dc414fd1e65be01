-- ===== src/Remote/Limits.antt =====
-- The limits of crates/shoestring-remote/src/lib.rs: how many rows one tile carries, and how large a
-- framebuffer a peer may announce.
use shoestring_wm.Prelude.{
  ℕ, ◌*◌, ◌/◌, ◌≤◌, ◌<◌, ◌≡◌, ◌↔◌, ap, sym, subst, ◌∙◌, arith, length, if◌then◌else◌, ltb, ◌==◌,
  ◌||◌,
}
use native.Mathlib.Nat.{le_trans, mul-le-mul_right}
use shoestring_wm.Remote.Error.{bad_frame, Result, ok, err}
use shoestring_wm.Remote.Message.{Rect, pixel_count, Tile, bytes_per_pixel, raw_len, encoded_len}
use shoestring_wm.Remote.Framing.{max_message_len}
use shoestring_wm.Remote.Frames.{FitsAlone}

abbrev pub max_tile_bytes : ℕ
max_tile_bytes = 33554432

abbrev pub max_frame_dimension : ℕ
max_frame_dimension = 16384

abbrev pub max_frame_pixels : ℕ
max_frame_pixels = 67108864

-- `.clamp(lo, hi)`.
abbrev pub clamp : ℕ → ℕ → ℕ → ℕ
clamp lo hi v = if ltb v lo then lo else if ltb hi v then hi else v

abbrev pub row_len : ℕ → ℕ
row_len width = (if width == 0 then 1 else width) * bytes_per_pixel

unfoldable pub band_rows : ℕ → ℕ
band_rows width = clamp 1 4294967295 (max_tile_bytes / row_len width)

unfoldable pub framebuffer_len : ℕ → ℕ → Result ℕ
framebuffer_len width height =
    if width == 0 || height == 0 || ltb max_frame_dimension width || ltb max_frame_dimension height
    then err bad_frame
    else if ltb max_frame_pixels (width * height)
    then err bad_frame
    else ok (width * height * bytes_per_pixel)

div-mul-le : (n k : ℕ) → n / k * k ≤ n
div-mul-le n k = grind arith

below_quotient : (n r h : ℕ) → 0 < r → h * r ≤ n → h ≤ n / r
below_quotient n r h pos le = grind arith

quotient-le : (n d : ℕ) → n / d ≤ n
quotient-le n d = grind arith

unclamped : (q : ℕ) → 1 ≤ q → q ≤ max_tile_bytes → clamp 1 4294967295 q ≡ q
unclamped q low high = ground arith

-- The most rows of which the bytes are within the limit of a tile.
rows_iff : (r h : ℕ) → 0 < r → (h ≤ max_tile_bytes / r) ↔ (h * r ≤ max_tile_bytes)
rows_iff r h pos = (
  λ le. le_trans (mul-le-mul_right r le) (div-mul-le max_tile_bytes r),
  λ le. below_quotient max_tile_bytes r h pos le,
)

-- On the widths that a frame may have, nothing is clamped.
band_rows_wide :
    (width : ℕ)
    → 0 < width
    → width ≤ max_frame_dimension
    → band_rows width ≡ max_tile_bytes / (width * bytes_per_pixel)
unfolding band_rows
band_rows_wide width pos w =
    ap (λ k. clamp 1 4294967295 (max_tile_bytes / (k * bytes_per_pixel)))
      {x = if width == 0 then 1 else width} {y = width} (ground arith)
    ∙ unclamped (max_tile_bytes / (width * bytes_per_pixel))
        (below_quotient max_tile_bytes (width * bytes_per_pixel) 1 (omega arith) (omega arith))
        (quotient-le max_tile_bytes (width * bytes_per_pixel))

raw_len_rows : (r : Rect) → raw_len r ≡ r.h * (r.w * bytes_per_pixel)
unfolding raw_len pixel_count
raw_len_rows r = grind arith

one_row : (width : ℕ) → 1 ≤ band_rows width
unfolding band_rows
one_row width = ground arith

-- A tile no wider than a frame may be, with no more bytes than its pixels take uncompressed, has no more
-- rows than a band exactly when those pixels take 32 MiB at most, and it then fits a message alone. A
-- band of any width has a row.
pub band_rows_iff :
    (t : Tile)
    → 0 < t.rect.w
    → t.rect.w ≤ max_frame_dimension
    → length t.pixels ≤ raw_len t.rect
    → ((t.rect.h ≤ band_rows t.rect.w) ↔ ((raw_len t.rect ≤ 33554432) × FitsAlone t))
      × (1 ≤ band_rows t.rect.w)
unfolding encoded_len
band_rows_iff t some_width w n =
    let rows : (t.rect.h ≤ max_tile_bytes / (t.rect.w * bytes_per_pixel))
        ↔ (t.rect.h * (t.rect.w * bytes_per_pixel) ≤ max_tile_bytes) =
      rows_iff (t.rect.w * bytes_per_pixel) t.rect.h (omega arith) in
    (
      (
        λ le.
            let within : raw_len t.rect ≤ max_tile_bytes = omega (
              arith,
              raw_len_rows t.rect,
              rows.0 (subst (λ k. t.rect.h ≤ k) (band_rows_wide t.rect.w some_width w) le),
            ) in
            (within, omega (arith, within, n)),
        λ both.
            subst (λ k. t.rect.h ≤ k) (sym (band_rows_wide t.rect.w some_width w))
              (rows.1 (omega (arith, raw_len_rows t.rect, both.0))),
      ),
      one_row t.rect.w,
    )

-- A frame size is accepted exactly when both sides are from 1 to 16384 and the pixels are 2^26 at
-- most, and its length is then the bytes of the pixels, which one message's limit bounds.
pub framebuffer_len_iff :
    (width height n : ℕ)
    → (framebuffer_len width height ≡ ok n) ↔ (
        (0 < width)
        × (0 < height)
        × (width ≤ 16384)
        × (height ≤ 16384)
        × (width * height ≤ 67108864)
        × (n ≡ width * height * 4)
        × (n ≤ max_message_len))
unfolding framebuffer_len
framebuffer_len_iff width height n = ground arith
