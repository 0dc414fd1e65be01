-- ===== src/Remote/Tiles.antt =====
-- A tile's way from one framebuffer into another, crates/shoestring-remote/src/codec.rs.
use shoestring_wm.Prelude.{
  ℕ, ◌+◌, ◌*◌, ◌≤◌, ◌<◌, ◌≡◌, refl, ap, sym, ◌∙◌, inl, inr, arith, length, get_elem?, some,
}
use native.Mathlib.Nat.{mul-le-mul_right}
use shoestring_wm.Remote.Error.{Result, ok, Result-cases}
use shoestring_wm.Remote.Message.{
  TileEncoding, raw, zlib, Rect, Tile, bytes_per_pixel, raw_len, pixel_count,
}
use shoestring_wm.Remote.Bytes.{Bytes}
use shoestring_wm.Remote.Codec.{
  crop, crop_rows, blit_rows, zlib_decompress, encode_tile, tile_pixels, apply_tile,
}
use shoestring_wm.Remote.Blit.{
  start, row_bytes, Misses, length-crop_rows, get_elem?-crop_rows, length-blit_rows,
  blit_rows-Misses, get_elem?-blit_rows,
}

-- The rectangle has pixels, lies in a framebuffer of that size, and the bytes are long enough.
unfoldable pub Inside : Bytes → ℕ → ℕ → Rect → Type 0
Inside b width height r =
    (0 < r.w)
    × (0 < r.h)
    × (r.x + r.w ≤ width)
    × (r.y + r.h ≤ height)
    × (width * bytes_per_pixel * height ≤ length b)

-- After is before outside the rectangle.
unfoldable pub Keeps : Bytes → ℕ → Rect → Bytes → Type 0
Keeps before width r after =
    (length after ≡ length before)
    × ((i : ℕ)
        → Misses (width * bytes_per_pixel) r 0 r.h i
        → get_elem? after i ≡ get_elem? before i)

-- In the rectangle, the first framebuffer has the bytes of the second.
unfoldable pub Agrees : Bytes → ℕ → Rect → Bytes → ℕ → Type 0
Agrees a a_width r b b_width =
    (k c : ℕ)
    → k < r.h
    → c < row_bytes r
    → get_elem? a (start (a_width * bytes_per_pixel) r k + c)
      ≡ get_elem? b (start (b_width * bytes_per_pixel) r k + c)

high :
    (b : Bytes) (width height : ℕ) (r : Rect)
    → Inside b width height r
    → (r.y + r.h) * (width * bytes_per_pixel) ≤ length b
unfolding Inside
high b width height r (w, h, x, y, long) =
    omega (arith, mul-le-mul_right (width * bytes_per_pixel) y)

wide :
    (b : Bytes) (width height : ℕ) (r : Rect)
    → Inside b width height r
    → r.x * bytes_per_pixel + row_bytes r ≤ width * bytes_per_pixel
unfolding Inside
wide b width height r (w, h, x, y, long) = omega arith

raw_len-rows : (r : Rect) → raw_len r ≡ r.h * row_bytes r
unfolding raw_len pixel_count
raw_len-rows r = omega arith

crop-Inside :
    (fb : Bytes) (width height : ℕ) (r : Rect) (pixels : Bytes)
    → crop fb width height r ≡ some pixels
    → Inside fb width height r × (pixels ≡ crop_rows fb (width * bytes_per_pixel) r r.h 0)
unfolding crop Inside
crop-Inside fb width height r pixels h = ground (arith, h)

blit_rows-Keeps :
    (dst : Bytes) (width height : ℕ) (r : Rect) (pixels : Bytes)
    → Inside dst width height r
    → length pixels ≡ r.h * row_bytes r
    → Keeps dst width r (blit_rows dst (width * bytes_per_pixel) r pixels r.h 0)
unfolding Keeps
blit_rows-Keeps dst width height r pixels inside long =
    let stride = width * bytes_per_pixel in
    let fits = wide dst width height r inside in
    let room = high dst width height r inside in
    (
      length-blit_rows stride r fits dst pixels r.h 0 room (omega arith) long,
      λ i misses. blit_rows-Misses stride r fits dst pixels r.h 0 i room (omega arith) long misses,
    )

blit_rows-Agrees :
    (fb : Bytes) (width height : ℕ) (dst : Bytes) (dst_width dst_height : ℕ) (r : Rect)
    → Inside fb width height r
    → Inside dst dst_width dst_height r
    → Agrees
        (blit_rows dst
          (dst_width * bytes_per_pixel)
          r
          (crop_rows fb (width * bytes_per_pixel) r r.h 0)
          r.h
          0)
        dst_width
        r
        fb
        width
unfolding Agrees
blit_rows-Agrees fb width height dst dst_width dst_height r from to k c less small =
    let stride = width * bytes_per_pixel in
    let cut = wide fb width height r from in
    let room = high fb width height r from in
    get_elem?-blit_rows (dst_width * bytes_per_pixel) r (wide dst dst_width dst_height r to) dst
      (crop_rows fb stride r r.h 0) r.h 0 k c (high dst dst_width dst_height r to) (omega arith)
      (length-crop_rows stride r cut fb r.h 0 room (omega arith)) (omega arith) (omega arith) small
    ∙ get_elem?-crop_rows stride r cut fb r.h 0 k c room (omega arith) less small
    ∙ ap (λ n. get_elem? fb (start stride r n + c)) (omega arith)

module _ (compress : Bytes → Bytes) (inflate : Bytes → ℕ → Result Bytes) where
  apply_tile-Inside :
      (dst : Bytes) (width height : ℕ) (t : Tile) (after : Bytes)
      → apply_tile compress inflate dst width height t ≡ ok after
      → Inside dst width height t.rect
        × (pixels : Bytes) × (tile_pixels compress inflate t.rect t.encoding t.pixels ≡ ok pixels)
        × (after ≡ blit_rows dst (width * bytes_per_pixel) t.rect pixels t.rect.h 0)
  unfolding apply_tile Inside
  apply_tile-Inside dst width height t after h =
      elim (Result-cases (tile_pixels compress inflate t.rect t.encoding t.pixels)) [
        | inl (pixels, is) ↦ ground (arith, h, is)
        | inr (e, is) ↦ ground (arith, h, is)
      ]

  length-tile_pixels :
      (r : Rect) (e : TileEncoding) (bytes pixels : Bytes)
      → tile_pixels compress inflate r e bytes ≡ ok pixels
      → length pixels ≡ r.h * row_bytes r
  unfolding tile_pixels
  length-tile_pixels r raw bytes pixels h = ground (arith, h, raw_len-rows r)
  length-tile_pixels r zlib bytes pixels h =
      elim (Result-cases (zlib_decompress compress inflate bytes (raw_len r))) [
        | inl (decoded, is) ↦ ground (arith, h, is, raw_len-rows r)
        | inr (e, is) ↦ ground (arith, h, is)
      ]

  -- A tile that is applied, from whatever peer, lies inside the framebuffer, whose length and bytes
  -- outside the tile's rectangle stay as they were.
  pub apply_tile-Keeps :
      (dst : Bytes) (width height : ℕ) (t : Tile) (after : Bytes)
      → apply_tile compress inflate dst width height t ≡ ok after
      → Inside dst width height t.rect × Keeps dst width t.rect after
  apply_tile-Keeps dst width height t after h =
      let (inside, pixels, is, made) = apply_tile-Inside dst width height t after h in
      let kept =
        blit_rows-Keeps dst width height t.rect pixels inside
          (length-tile_pixels t.rect t.encoding t.pixels pixels is) in
      (inside, rw made kept)

  tile_pixels-encode_tile :
      (r : Rect) (pixels : Bytes) (prefer : TileEncoding)
      → ((b : Bytes) (n : ℕ) → length b ≤ n → inflate (compress b) n ≡ ok b)
      → length pixels ≡ raw_len r
      → let t = encode_tile compress inflate r pixels prefer in
        tile_pixels compress inflate t.rect t.encoding t.pixels ≡ ok pixels
  unfolding tile_pixels encode_tile zlib_decompress
  tile_pixels-encode_tile r pixels raw back long = ground (arith, long)
  tile_pixels-encode_tile r pixels zlib back long =
      ground (arith, long, back pixels (raw_len r + 1))

  encode_tile-rect :
      (r : Rect) (pixels : Bytes) (prefer : TileEncoding)
      → (encode_tile compress inflate r pixels prefer).rect ≡ r
  unfolding encode_tile
  encode_tile-rect r pixels raw = refl
  encode_tile-rect r pixels zlib = ground arith

  apply_tile-ok :
      (dst : Bytes) (width height : ℕ) (t : Tile) (pixels : Bytes)
      → Inside dst width height t.rect
      → tile_pixels compress inflate t.rect t.encoding t.pixels ≡ ok pixels
      → apply_tile compress inflate dst width height t
        ≡ ok (blit_rows dst (width * bytes_per_pixel) t.rect pixels t.rect.h 0)
  unfolding apply_tile Inside
  apply_tile-ok dst width height t pixels inside is = ground (arith, inside, is)

  -- A rectangle cut out of one framebuffer, sent in either encoding and applied to another, in which
  -- it lies too, is applied there: the rectangle then has the bytes of the first framebuffer, and
  -- all else is as it was, where zlib gives back what it compressed.
  pub tile_roundtrip :
      (fb : Bytes) (width height : ℕ) (dst : Bytes) (dst_width dst_height : ℕ) (r : Rect)
      (pixels : Bytes) (prefer : TileEncoding)
      → ((b : Bytes) (n : ℕ) → length b ≤ n → inflate (compress b) n ≡ ok b)
      → crop fb width height r ≡ some pixels
      → Inside dst dst_width dst_height r
      → (after : Bytes) × (apply_tile compress inflate dst dst_width dst_height
            (encode_tile compress inflate r pixels prefer)
          ≡ ok after)
        × Agrees after dst_width r fb width
        × Keeps dst dst_width r after
  tile_roundtrip fb width height dst dst_width dst_height r pixels prefer back cut inside =
      let (from, are) = crop-Inside fb width height r pixels cut in
      let t : Tile = encode_tile compress inflate r pixels prefer in
      let same = encode_tile-rect r pixels prefer in
      let rows =
        length-crop_rows (width * bytes_per_pixel) r (wide fb width height r from) fb r.h 0
          (high fb width height r from) (omega arith) in
      let long : length pixels ≡ r.h * row_bytes r = ap length are ∙ rows in
      (
        blit_rows dst (dst_width * bytes_per_pixel) r pixels r.h 0,
        apply_tile-ok dst dst_width dst_height t pixels (rw same inside)
              (tile_pixels-encode_tile r pixels prefer back (long ∙ sym (raw_len-rows r)))
            ∙ ap (λ q. ok (blit_rows dst (dst_width * bytes_per_pixel) q pixels q.h 0)) same,
        rw are (blit_rows-Agrees fb width height dst dst_width dst_height r from inside),
        blit_rows-Keeps dst dst_width dst_height r pixels inside long,
      )
