-- ===== src/Wire/Encoding.antt =====
-- crates/wayray-protocol/src/encoding.rs: regions of absolute pixels, and the frame checksum. The
-- compression is that of the crate `zstd`, which is a parameter. A slice out of range and a failed
-- `expect` panic: the result is `none`.
pub mod Regions
pub mod Checksum
use Prim.Native.Nat.{bit_or, bit_xor}
use wayray.Base.{
  ℕ, zero, suc, ◌+◌, ◌*◌, ◌/◌, ◌%◌, ◌^◌, ◌≡◌, Option, none, some, List, [], ◌∷◌, ◌++◌, length, take,
  drop, leb, if◌then◌else◌, ◌>>=◌,
}
use wayray.Wire.Codec.{Bytes}
pub use wayray.Wire.Messages.{DamageRegion}

-- `zstd::encode_all` and `zstd::decode_all`
pub record Zstd : Type 0 where
  pub encode_all : Bytes → Option Bytes
  pub decode_all : Bytes → Option Bytes

-- What the crate documents: decompression undoes compression.
abbrev pub Lossless : Zstd → Type 0
Lossless z = (xs ys : Bytes) → z.encode_all xs ≡ some ys → z.decode_all ys ≡ some xs

abbrev pub bpp : ℕ
bpp = 4

-- `&xs[start..start + len]`
unfoldable pub slice : Bytes → ℕ → ℕ → Option Bytes
slice xs start len = if leb (start + len) (length xs) then some (take len (drop start xs)) else none

-- `xs[start..start + line.len()].copy_from_slice(line)`
unfoldable pub write_slice : Bytes → ℕ → Bytes → Option Bytes
write_slice xs start line =
    if leb (start + length line) (length xs)
    then some (take start xs ++ (line ++ drop (start + length line) xs))
    else none

-- the loop of `encode_region` from `row` on, with `rows` rows left; `left` is `x * bpp`
unfoldable pub extract_rows : Bytes → ℕ → ℕ → ℕ → ℕ → ℕ → ℕ → Option Bytes
extract_rows pixels stride left y region_stride zero row = some []
extract_rows pixels stride left y region_stride (suc rows) row = do
  line ← slice pixels ((y + row) * stride + left) region_stride
  rest ← extract_rows pixels stride left y region_stride rows (row + 1)
  some (line ++ rest)

-- `encode_region`
unfoldable pub encode_region : Zstd → Bytes → ℕ → ℕ → ℕ → ℕ → ℕ → Option DamageRegion
unfolding extract_rows
encode_region z pixels stride x y width height = do
  region_data ← extract_rows pixels stride (x * bpp) y (width * bpp) height 0
  compressed ← z.encode_all region_data
  some (record { x = x; y = y; width = width; height = height; payload = compressed })

-- the loop of `apply_region` from `row` on, with `rows` rows left
unfoldable pub apply_rows : Bytes → ℕ → ℕ → ℕ → ℕ → Bytes → ℕ → ℕ → Option Bytes
apply_rows framebuffer stride left y region_stride decompressed zero row = some framebuffer
apply_rows framebuffer stride left y region_stride decompressed (suc rows) row = do
  line ← slice decompressed (row * region_stride) region_stride
  framebuffer' ← write_slice framebuffer ((y + row) * stride + left) line
  apply_rows framebuffer' stride left y region_stride decompressed rows (row + 1)

-- `apply_region`
unfoldable pub apply_region : Zstd → Bytes → ℕ → DamageRegion → Option Bytes
unfolding apply_rows
apply_region z framebuffer stride region = do
  decompressed ← z.decode_all region.payload
  apply_rows framebuffer stride (region.x * bpp) region.y (region.width * bpp) decompressed
      region.height 0

-- `u64` arithmetic
abbrev u64_mod : ℕ
u64_mod = 2 ^ 64

-- the inner loop of `checksum`: a chunk of at most 8 bytes from the byte of weight 256 ^ i on
unfoldable pub pack_chunk : ℕ → Bytes → ℕ
pack_chunk i [] = 0
pack_chunk i (b ∷ bs) = bit_or (b * 2 ^ (i * 8)) (pack_chunk (suc i) bs)

unfoldable pub mix : ℕ → ℕ → ℕ
mix h v = bit_xor h v * 0x100000001b3 % u64_mod

-- `for chunk in line.chunks(8)`
unfoldable pub mix_line : ℕ → Bytes → ℕ
unfolding pack_chunk mix
mix_line h (a ∷ b ∷ c ∷ d ∷ e ∷ f ∷ g ∷ i ∷ rest) =
    mix_line (mix h (pack_chunk 0 (a ∷ b ∷ c ∷ d ∷ e ∷ f ∷ g ∷ i ∷ []))) rest
mix_line h [] = h
mix_line h bytes = mix h (pack_chunk 0 bytes)

-- the loop of `checksum` from `row` on, with `rows` rows left
unfoldable pub mix_rows : Bytes → ℕ → ℕ → ℕ → ℕ → ℕ → Option ℕ
unfolding mix_line
mix_rows pixels stride row_bytes zero row h = some h
mix_rows pixels stride row_bytes (suc rows) row h = do
  line ← slice pixels (row * stride) row_bytes
  mix_rows pixels stride row_bytes rows (row + 1) (mix_line h line)

-- `(h ^ (h >> 32)) as u32`
abbrev pub fold_hash : ℕ → ℕ
fold_hash h = bit_xor h (h / 2 ^ 32) % 2 ^ 32

-- `checksum`
unfoldable pub checksum : Bytes → ℕ → ℕ → ℕ → Option ℕ
unfolding mix_rows
checksum pixels stride row_bytes height = do
  h ← mix_rows pixels stride row_bytes height 0 0xcbf29ce484222325
  some (fold_hash h)
