-- ===== src/Remote/Codec.antt =====
-- crates/shoestring-remote/src/codec.rs: tiles cut out of a framebuffer and put back into one. A
-- framebuffer is the list of its bytes. zlib is a parameter: `compress`, and `inflate` with the
-- number of bytes after which it stops.
use shoestring_wm.Prelude.{
  ℕ, zero, suc, ◌+◌, ◌*◌, Bool, Option, none, some, List, [], ◌∷◌, ◌++◌, if◌then◌else◌, ltb, ◌==◌,
  ◌||◌, length, take, drop,
}
use shoestring_wm.Remote.Error.{codec, Result, ok, err, and_then}
use shoestring_wm.Remote.Bytes.{Bytes}
use shoestring_wm.Remote.Message.{TileEncoding, raw, zlib, Rect, Tile, bytes_per_pixel, raw_len}

-- `&b[start..start + n]`.
unfoldable pub slice : Bytes → ℕ → ℕ → Bytes
slice b start n = take n (drop start b)

-- `b[start..start + src.len()].copy_from_slice(src)`.
unfoldable pub write_slice : Bytes → ℕ → Bytes → Bytes
write_slice b start src = take start b ++ (src ++ drop (start + length src) b)

-- The rectangle is empty, or leaves the framebuffer.
abbrev pub is_outside : ℕ → ℕ → Rect → Bool
is_outside width height r = r.w == 0 || r.h == 0 || ltb width (r.x + r.w) || ltb height (r.y + r.h)

-- The loop of `crop`, with `left` rows to go at row `row`.
unfoldable pub crop_rows : Bytes → ℕ → Rect → ℕ → ℕ → Bytes
crop_rows fb stride r zero row = []
crop_rows fb stride r (suc left) row =
    slice fb ((r.y + row) * stride + r.x * bytes_per_pixel) (r.w * bytes_per_pixel)
    ++ crop_rows fb stride r left (row + 1)

unfoldable pub crop : Bytes → ℕ → ℕ → Rect → Option Bytes
crop fb fb_width fb_height r =
    let stride = fb_width * bytes_per_pixel in
    if ltb (length fb) (stride * fb_height)
    then none
    else if is_outside fb_width fb_height r
    then none
    else some (crop_rows fb stride r r.h 0)

-- The loop of `apply_tile`.
unfoldable pub blit_rows : Bytes → ℕ → Rect → Bytes → ℕ → ℕ → Bytes
blit_rows dst stride r pixels zero row = dst
blit_rows dst stride r pixels (suc left) row =
    blit_rows
      (write_slice dst ((r.y + row) * stride + r.x * bytes_per_pixel)
        (slice pixels (row * (r.w * bytes_per_pixel)) (r.w * bytes_per_pixel)))
      stride r pixels left (row + 1)

module _ (compress : Bytes → Bytes) (inflate : Bytes → ℕ → Result Bytes) where
  -- `zlib_decompress`.
  unfoldable pub zlib_decompress : Bytes → ℕ → Result Bytes
  zlib_decompress bytes expected =
      and_then (inflate bytes (expected + 1))
        λ out. if ltb expected (length out) then err codec else ok out

  unfoldable pub encode_tile : Rect → Bytes → TileEncoding → Tile
  encode_tile r pixels raw = record { rect = r; encoding = raw; pixels = pixels }
  encode_tile r pixels zlib =
      let compressed = compress pixels in
      if ltb (length compressed) (length pixels)
      then record { rect = r; encoding = zlib; pixels = compressed }
      else record { rect = r; encoding = raw; pixels = pixels }

  abbrev pub push_tile : Rect → TileEncoding → Option Bytes → List Tile → List Tile
  push_tile r prefer none tiles = tiles
  push_tile r prefer (some pixels) tiles = encode_tile r pixels prefer ∷ tiles

  unfoldable pub extract_tiles : Bytes → ℕ → ℕ → List Rect → TileEncoding → List Tile
  extract_tiles fb fb_width fb_height [] prefer = []
  extract_tiles fb fb_width fb_height (r ∷ rs) prefer =
      push_tile r prefer (crop fb fb_width fb_height r)
        (extract_tiles fb fb_width fb_height rs prefer)

  -- The tile's pixels, checked to be as many as its rectangle needs.
  unfoldable pub tile_pixels : Rect → TileEncoding → Bytes → Result Bytes
  tile_pixels r raw bytes = if length bytes == raw_len r then ok bytes else err codec
  tile_pixels r zlib bytes =
      and_then (zlib_decompress bytes (raw_len r))
        λ decoded. if length decoded == raw_len r then ok decoded else err codec

  -- The destination is changed only on success. Sizes are those that `framebuffer_len` accepts, as in
  -- every caller, so that `stride * dst_height` does not wrap.
  unfoldable pub apply_tile : Bytes → ℕ → ℕ → Tile → Result Bytes
  apply_tile dst dst_width dst_height t =
      let stride = dst_width * bytes_per_pixel in
      if ltb (length dst) (stride * dst_height)
      then err codec
      else if is_outside dst_width dst_height t.rect
      then err codec
      else and_then (tile_pixels t.rect t.encoding t.pixels)
          λ pixels. ok (blit_rows dst stride t.rect pixels t.rect.h 0)
