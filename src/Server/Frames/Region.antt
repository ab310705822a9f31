-- ===== src/Server/Frames/Region.antt =====
-- Where the regions of a frame lie, and their encoding.
use wayray.Base.{
  ℕ, zero, suc, ◌+◌, ◌*◌, ◌≤◌, ◌<◌, ◌≡◌, refl, true, take, drop, ◌++◌, Bool-cases, some, List, [],
  ◌∷◌, length, ltb, leb, inl, inr, arith,
}
use wayray.Base.Int.{ℤ, pos, ◌-ℤ◌}
use wayray.Wire.Codec.{Bytes}
use wayray.Wire.Encoding.{
  Zstd, DamageRegion, slice, extract_rows, encode_region, mix_rows, mix_line, fold_hash, checksum,
  bpp,
}
use wayray.Wire.Encoding.Regions.{covers}
use wayray.Server.Frames.{Rect, clamp, clamp_extent, encode_rect, encode_rects}

-- The compression never fails, as in memory.
abbrev pub Total : Zstd → Type 0
Total z = (xs : Bytes) → (ys : Bytes) × (z.encode_all xs ≡ some ys)

slice_fits :
    (xs : Bytes) (start len : ℕ)
    → start + len ≤ length xs
    → (line : Bytes) × (slice xs start len ≡ some line)
unfolding slice
slice_fits xs start len h = (take len (drop start xs), ground arith)

row_end : (row h stride : ℕ) → row < h → row * stride + stride ≤ h * stride
row_end row zero stride a = absurd (omega arith)
row_end zero (suc h) stride a = omega arith
row_end (suc row) (suc h) stride a = omega (arith, row_end row h stride (omega arith))

pub extract_rows_fits :
    (xs : Bytes) (stride left y rs h rows row : ℕ)
    → length xs ≡ h * stride
    → left + rs ≤ stride
    → y + (row + rows) ≤ h
    → (out : Bytes) × (extract_rows xs stride left y rs rows row ≡ some out)
unfolding extract_rows
extract_rows_fits xs stride left y rs h zero row e a b = ([], refl)
extract_rows_fits xs stride left y rs h (suc rows) row e a b =
    let fits : (y + row) * stride + left + rs ≤ length xs =
      omega (arith, row_end (y + row) h stride (omega arith)) in
    let (line, p) = slice_fits xs ((y + row) * stride + left) rs fits in
    let (rest, q) = extract_rows_fits xs stride left y rs h rows (row + 1) e a (omega arith) in
    (line ++ rest, rw (p, q) refl)

pub encode_region_fits :
    (z : Zstd) (xs : Bytes) (width height x y w h : ℕ)
    → Total z
    → length xs ≡ height * (width * bpp)
    → x + w ≤ width
    → y + h ≤ height
    → (region : DamageRegion) × (encode_region z xs (width * bpp) x y w h ≡ some region)
unfolding encode_region
encode_region_fits z xs width height x y w h total e a b =
    let (raw, p) =
      extract_rows_fits xs (width * bpp) (x * bpp) y (w * bpp) height h 0 e (omega arith)
        (omega arith) in
    let (packed, q) = total raw in
    (record { x = x; y = y; width = w; height = h; payload = packed }, rw (p, q) refl)

pub encode_region_empty :
    (z : Zstd) (xs : Bytes) (stride x y w : ℕ)
    → Total z
    → (region : DamageRegion) × (encode_region z xs stride x y w 0 ≡ some region)
unfolding encode_region extract_rows
encode_region_empty z xs stride x y w total =
    let (packed, q) = total [] in
    (record { x = x; y = y; width = w; height = 0; payload = packed }, rw q refl)

-- An extent that is clamped to the output ends inside it.
pub clamp_extent_fits :
    (size start : ℤ) (limit : ℕ)
    → clamp start ≤ limit
    → clamp start + clamp_extent size (pos limit) start ≤ limit
unfolding clamp_extent ◌-ℤ◌
clamp_extent_fits size start limit h = ground arith

pub clamp_extent_outside :
    (size start : ℤ) (limit : ℕ) → limit ≤ clamp start → clamp_extent size (pos limit) start ≡ 0
unfolding clamp_extent ◌-ℤ◌
clamp_extent_outside size start limit h = ground arith

pub encode_rect_fits :
    (z : Zstd) (xs : Bytes) (width height : ℕ) (rect : Rect)
    → Total z
    → length xs ≡ height * (width * bpp)
    → clamp rect.x ≤ width
    → (region : DamageRegion) × (encode_rect z xs (width * bpp) (pos width) (pos height) rect
        ≡ some region)
unfolding encode_rect
encode_rect_fits z xs width height rect total e h = elim (Bool-cases (leb (clamp rect.y) height)) [
  | inl g ↦
      encode_region_fits z xs width height (clamp rect.x) (clamp rect.y)
        (clamp_extent rect.w (pos width) rect.x) (clamp_extent rect.h (pos height) rect.y) total e
        (clamp_extent_fits rect.w rect.x width h)
        (clamp_extent_fits rect.h rect.y height (ground arith))
  | inr g ↦
      let (region, p) =
        encode_region_empty z xs (width * bpp) (clamp rect.x) (clamp rect.y)
          (clamp_extent rect.w (pos width) rect.x) total in
      (region, rw (clamp_extent_outside rect.h rect.y height (ground arith)) p)
]

-- Every rectangle starts at most at the right edge of the output.
abbrev pub Starts : ℕ → List Rect → Type 0
Starts width [] = Unit
Starts width (rect ∷ rects) = (clamp rect.x ≤ width) × Starts width rects

pub encode_rects_fit :
    (z : Zstd) (xs : Bytes) (width height : ℕ) (rects : List Rect)
    → Total z
    → length xs ≡ height * (width * bpp)
    → Starts width rects
    → (regions : List DamageRegion) × (encode_rects z xs
          (width * bpp)
          (pos width)
          (pos height)
          rects
        ≡ some regions)
unfolding encode_rects
encode_rects_fit z xs width height [] total e h = ([], refl)
encode_rects_fit z xs width height (rect ∷ rects) total e h =
    let (region, p) = encode_rect_fits z xs width height rect total e h.0 in
    let (regions, q) = encode_rects_fit z xs width height rects total e h.1 in
    (region ∷ regions, rw (p, q) refl)

pub encode_full_fits :
    (z : Zstd) (xs : Bytes) (width height : ℕ)
    → Total z
    → length xs ≡ height * (width * bpp)
    → (region : DamageRegion) × (encode_region z xs (width * bpp) 0 0 width height ≡ some region)
encode_full_fits z xs width height total e =
    encode_region_fits z xs width height 0 0 width height total e (omega arith) (omega arith)

mix_rows_fit :
    (xs : Bytes) (stride h rows row sum : ℕ)
    → length xs ≡ h * stride
    → row + rows ≤ h
    → (out : ℕ) × (mix_rows xs stride stride rows row sum ≡ some out)
unfolding mix_rows
mix_rows_fit xs stride h zero row sum e b = (sum, refl)
mix_rows_fit xs stride h (suc rows) row sum e b =
    let fits : row * stride + stride ≤ length xs = grind arith in
    let (line, p) = slice_fits xs (row * stride) stride fits in
    let (out, q) = mix_rows_fit xs stride h rows (row + 1) (mix_line sum line) e (omega arith) in
    (out, rw p q)

pub checksum_fits :
    (xs : Bytes) (stride height : ℕ)
    → length xs ≡ height * stride
    → (sum : ℕ) × (checksum xs stride stride height ≡ some sum)
unfolding checksum
checksum_fits xs stride height e =
    let (h, p) = mix_rows_fit xs stride height height 0 0xcbf29ce484222325 e (omega arith) in
    (fold_hash h, rw p refl)

-- The region of a whole frame holds every byte of it.
pub covers_full :
    (stride rows row i : ℕ)
    → row * stride ≤ i
    → i < (row + rows) * stride
    → covers stride 0 0 stride rows row i ≡ true
unfolding covers
covers_full stride zero row i a b = absurd (grind arith)
covers_full stride (suc rows) row i a b = elim (Bool-cases (ltb i (row * stride + stride))) [
  | inl g ↦ ground arith
  | inr g ↦
      let later : covers stride 0 0 stride rows (row + 1) i ≡ true =
        covers_full stride rows (row + 1) i (grind arith) (grind arith) in
      ground (arith, later)
]
