-- ===== src/Wire/Encoding/Regions.antt =====
-- A region that is cut out of one framebuffer and applied to another.
use mathlib.Core.List.{append_assoc}
use native.Mathlib.Nat.{zero-add, suc-add}
use wayray.Base.{
  ℕ, zero, suc, ◌+◌, ◌-◌, ◌*◌, ◌≤◌, ◌≡◌, refl, subst, sym, ap, ◌∙◌, Bool, false, ◌&&◌, ◌||◌, Option,
  none, some, [], ◌∷◌, ◌++◌, length, take, drop, get_elem?, ltb, leb, if◌then◌else◌, >>=-eq-some,
  arith, length-append,
}
use wayray.Wire.Codec.{Bytes}
use wayray.Wire.Encoding.{
  DamageRegion, Zstd, Lossless, bpp, slice, write_slice, extract_rows, encode_region, apply_rows,
  apply_region,
}

-- `n` elements of `xs` from `s` on, laid over `ys`.
overlay : ℕ → ℕ → Bytes → Bytes → Bytes
overlay s n xs ys = take s ys ++ (take n (drop s xs) ++ drop (s + n) ys)

abbrev within : ℕ → ℕ → ℕ → Bool
within s n i = leb s i && ltb i (s + n)

get_elem?-overlay_head :
    (n i : ℕ) (xs ys : Bytes)
    → length ys ≡ length xs
    → n ≤ length xs
    → get_elem? (take n xs ++ drop n ys) i ≡ (if ltb i n then get_elem? xs i else get_elem? ys i)
get_elem?-overlay_head zero i xs ys e h = ground arith
get_elem?-overlay_head (suc n) i [] ys e h = absurd (omega arith)
get_elem?-overlay_head (suc n) i (x ∷ xs) [] e h = absurd (omega arith)
get_elem?-overlay_head (suc n) zero (x ∷ xs) (y ∷ ys) e h = ground arith
get_elem?-overlay_head (suc n) (suc i) (x ∷ xs) (y ∷ ys) e h =
    ground (arith, get_elem?-overlay_head n i xs ys)

get_elem?-overlay :
    (s n i : ℕ) (xs ys : Bytes)
    → length ys ≡ length xs
    → s + n ≤ length xs
    → get_elem? (overlay s n xs ys) i ≡ (if within s n i then get_elem? xs i else get_elem? ys i)
unfolding overlay
get_elem?-overlay zero n i xs ys e h =
    rw zero-add (ground (arith, get_elem?-overlay_head n i xs ys))
get_elem?-overlay (suc s) n i [] ys e h = absurd (omega arith)
get_elem?-overlay (suc s) n i (x ∷ xs) [] e h = absurd (omega arith)
get_elem?-overlay (suc s) n zero (x ∷ xs) (y ∷ ys) e h = ground arith
get_elem?-overlay (suc s) n (suc i) (x ∷ xs) (y ∷ ys) e h =
    rw suc-add (ground (arith, get_elem?-overlay s n i xs ys))

length-take-drop : (s n : ℕ) (xs : Bytes) → s + n ≤ length xs → length (take n (drop s xs)) ≡ n
length-take-drop zero zero xs h = refl
length-take-drop zero (suc n) [] h = absurd (omega arith)
length-take-drop zero (suc n) (x ∷ xs) h = ap suc (length-take-drop zero n xs (omega arith))
length-take-drop (suc s) n [] h = absurd (omega arith)
length-take-drop (suc s) n (x ∷ xs) h = length-take-drop s n xs (omega arith)

length-take : (n : ℕ) (xs : Bytes) → n ≤ length xs → length (take n xs) ≡ n
length-take n xs h = length-take-drop 0 n xs (omega arith)

length-drop : (n : ℕ) (xs : Bytes) → length (drop n xs) ≡ length xs - n
length-drop zero xs = omega arith
length-drop (suc n) [] = omega arith
length-drop (suc n) (x ∷ xs) = omega (arith, length-drop n xs)

length-overlay :
    (s n : ℕ) (xs ys : Bytes)
    → length ys ≡ length xs
    → s + n ≤ length xs
    → length (overlay s n xs ys) ≡ length xs
unfolding overlay
length-overlay s n xs ys e h = omega (
  arith,
  length-append (take s ys) (take n (drop s xs) ++ drop (s + n) ys),
  length-append (take n (drop s xs)) (drop (s + n) ys),
  length-take s ys,
  length-take-drop s n xs h,
  length-drop (s + n) ys,
)

-- A slice of one buffer, written at the same place of another of the same length.
write_slice-slice :
    (src dst line : Bytes) (s n : ℕ)
    → length dst ≡ length src
    → slice src s n ≡ some line
    → (write_slice dst s line ≡ some (overlay s n src dst))
      × (length line ≡ n)
      × (s + n ≤ length src)
unfolding slice write_slice overlay
write_slice-slice src dst line s n e h =
    let fits : s + n ≤ length src = ground arith in
    let same : line ≡ take n (drop s src) = ground arith in
    let long : length line ≡ n = ap length same ∙ length-take-drop s n src fits in
    (rw (long, same) (ground arith), long, fits)

drop-append : (xs ys : Bytes) → drop (length xs) (xs ++ ys) ≡ ys
drop-append [] ys = refl
drop-append (x ∷ xs) ys = drop-append xs ys

take-append : (xs ys : Bytes) → take (length xs) (xs ++ ys) ≡ xs
take-append [] ys = refl
take-append (x ∷ xs) ys = ap (◌∷◌ x) (take-append xs ys)

slice-middle :
    (pre line rest : Bytes) (s n : ℕ)
    → length pre ≡ s
    → length line ≡ n
    → slice (pre ++ (line ++ rest)) s n ≡ some line
unfolding slice
slice-middle pre line rest s n e f =
    let whole : take n (drop s (pre ++ (line ++ rest))) ≡ line =
      rw (← e, ← f)
        (ap (take (length line)) (drop-append pre (line ++ rest)) ∙ take-append line rest) in
    ground (arith, whole, length-append pre (line ++ rest), length-append line rest)

-- Whether one of the rows left holds byte `i` of the framebuffer.
unfoldable pub covers : ℕ → ℕ → ℕ → ℕ → ℕ → ℕ → ℕ → Bool
covers stride left y rs zero row i = false
covers stride left y rs (suc rows) row i =
    within ((y + row) * stride + left) rs i || covers stride left y rs rows (row + 1) i

abbrev pub Copies : Bytes → Bytes → (ℕ → Bool) → Option Bytes → Type 0
Copies src dst covered none = ⊥
Copies src dst covered (some out) =
    (length out ≡ length src)
    × ((i : ℕ) → get_elem? out i ≡ (if covered i then get_elem? src i else get_elem? dst i))

pub Copies-step :
    (src mid dst : Bytes) (now later : ℕ → Bool) (out : Option Bytes)
    → ((i : ℕ) → get_elem? mid i ≡ (if now i then get_elem? src i else get_elem? dst i))
    → Copies src mid later out
    → Copies src dst (λ i. now i || later i) out
Copies-step src mid dst now later none h c = c
Copies-step src mid dst now later (some out) h c = (c.0, λ i. ground (arith, h i, c.1 i))

module _ (src : Bytes) (stride left y rs : ℕ) where
  apply_rows-extract_rows :
      (rows row : ℕ) (pre out dst : Bytes)
      → extract_rows src stride left y rs rows row ≡ some out
      → length pre ≡ row * rs
      → length dst ≡ length src
      → Copies src dst
          (covers stride left y rs rows row)
          (apply_rows dst stride left y rs (pre ++ out) rows row)
  unfolding extract_rows apply_rows covers
  apply_rows-extract_rows zero row pre out dst h p e = (e, λ i. refl)
  apply_rows-extract_rows (suc rows) row pre out dst h p e =
      let off = (y + row) * stride + left in
      let (line, a, b) = >>=-eq-some (slice src off rs) _ h in
      let (rest, c, d) = >>=-eq-some (extract_rows src stride left y rs rows (row + 1)) _ b in
      let (written, long, fits) = write_slice-slice src dst line off rs e a in
      let whole : out ≡ line ++ rest = ground (arith, d) in
      let mid = overlay off rs src dst in
      let before : length (pre ++ line) ≡ (row + 1) * rs =
        grind (arith, length-append pre line, p, long) in
      let later =
        apply_rows-extract_rows rows (row + 1) (pre ++ line) rest mid c before
          (length-overlay off rs src dst e fits) in
      rw whole (
        rw (slice-middle pre line rest (row * rs) rs p long) (
          rw written (
            Copies-step src mid dst (within off rs) (covers stride left y rs rows (row + 1))
              (apply_rows mid stride left y rs (pre ++ (line ++ rest)) rows (row + 1))
              (λ i. get_elem?-overlay off rs i src dst e fits)
              (rw (← append_assoc pre line rest) later))))

abbrev made : ℕ → ℕ → ℕ → ℕ → Bytes → DamageRegion
made x y width height payload = record {
  x = x;
  y = y;
  width = width;
  height = height;
  payload = payload;
}

-- With a lossless compression, a region that is cut out of one framebuffer and applied to another
-- of the same length gives the pixels of the first inside the region and those of the second
-- outside, byte by byte, with no panic.
pub apply_region-encode_region :
    (z : Zstd) (src dst : Bytes) (stride x y width height : ℕ) (region : DamageRegion)
    → Lossless z
    → length dst ≡ length src
    → encode_region z src stride x y width height ≡ some region
    → Copies src dst
        (covers stride (x * bpp) y (width * bpp) height 0)
        (apply_region z dst stride region)
unfolding encode_region apply_region
apply_region-encode_region z src dst stride x y width height region lossless e h =
    let (raw, a, b) =
      >>=-eq-some (extract_rows src stride (x * bpp) y (width * bpp) height 0) _ h in
    let (packed, c, d) = >>=-eq-some (z.encode_all raw) _ b in
    let same : made x y width height packed ≡ region = ground (arith, d) in
    rw (← same) (
      rw (lossless raw packed c) (
        apply_rows-extract_rows src stride (x * bpp) y (width * bpp) height 0 [] raw dst a
          (omega arith) e))

pub list_ext :
    (xs ys : Bytes) → length xs ≡ length ys → ((i : ℕ) → get_elem? xs i ≡ get_elem? ys i) → xs ≡ ys
list_ext [] [] e h = refl
list_ext [] (y ∷ ys) e h = absurd (omega arith)
list_ext (x ∷ xs) [] e h = absurd (omega arith)
list_ext (x ∷ xs) (y ∷ ys) e h =
    let tails : xs ≡ ys = list_ext xs ys (omega arith) (λ i. h (suc i)) in ground (arith, h 0)

Copies-again :
    (src dst out : Bytes) (covered : ℕ → Bool) (again : Option Bytes)
    → Copies src dst covered (some out)
    → Copies src out covered again
    → again ≡ some out
Copies-again src dst out covered none c d = absurd d
Copies-again src dst out covered (some out') c d =
    ap some (list_ext out' out (d.0 ∙ sym c.0) (λ i. ground (arith, c.1 i, d.1 i)))

-- Applying an encoded region a second time changes nothing.
pub apply_region_idempotent :
    (z : Zstd) (src dst out : Bytes) (stride x y width height : ℕ) (region : DamageRegion)
    → Lossless z
    → length dst ≡ length src
    → encode_region z src stride x y width height ≡ some region
    → apply_region z dst stride region ≡ some out
    → apply_region z out stride region ≡ some out
apply_region_idempotent z src dst out stride x y width height region lossless e h once =
    let covered = covers stride (x * bpp) y (width * bpp) height 0 in
    let first : Copies src dst covered (some out) =
      subst (Copies src dst covered) once
        (apply_region-encode_region z src dst stride x y width height region lossless e h) in
    Copies-again src dst out covered (apply_region z out stride region) first
      (apply_region-encode_region z src out stride x y width height region lossless first.0 h)
