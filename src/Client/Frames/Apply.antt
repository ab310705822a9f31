-- ===== src/Client/Frames/Apply.antt =====
-- The regions of a frame, as the server encodes them and as the client applies them.
use wayray.Base.{
  ℕ, zero, suc, ◌+◌, ◌*◌, ◌<◌, ◌≡◌, ◌∙◌, sym, refl, ap, Bool, false, ◌&&◌, ◌||◌, Option, none, some,
  List, [], ◌∷◌, length, filter, get_elem?, get_elem?-beyond, ltb, ◌>>=◌, >>=-eq-some, Bool-cases,
  inl, inr, arith,
}
use wayray.Base.Int.{pos}
use wayray.Wire.Codec.{Bytes}
use wayray.Wire.Encoding.{
  Zstd, Lossless, DamageRegion, encode_region, extract_rows, apply_region, bpp,
}
use wayray.Wire.Encoding.Regions.{covers, Copies, Copies-step, apply_region-encode_region, list_ext}
use wayray.Server.Frames.{
  Rect, clamp, clamp_extent, encode_rect, encode_rects, encode_full, is_visible_region,
}
use wayray.Server.Frames.Region.{covers_full}
use wayray.Client.Frames.{apply_regions}

-- Whether byte `i` of the framebuffer lies in a rectangle, cut off at the output's edges.
unfoldable pub covers_rect : ℕ → ℕ → ℕ → Rect → ℕ → Bool
covers_rect stride width height rect i =
    covers stride (clamp rect.x * bpp) (clamp rect.y) (clamp_extent rect.w (pos width) rect.x * bpp)
      (clamp_extent rect.h (pos height) rect.y) 0 i

unfoldable pub covers_rects : ℕ → ℕ → ℕ → List Rect → ℕ → Bool
unfolding covers_rect
covers_rects stride width height [] i = false
covers_rects stride width height (rect ∷ rects) i =
    covers_rect stride width height rect i || covers_rects stride width height rects i

covers_narrow : (stride left y rows row i : ℕ) → covers stride left y 0 rows row i ≡ false
unfolding covers
covers_narrow stride left y zero row i = refl
covers_narrow stride left y (suc rows) row i =
    ground (arith, covers_narrow stride left y rows (row + 1) i)

covers_invisible :
    (stride left y w h i : ℕ)
    → (ltb 0 w && ltb 0 h) ≡ false
    → covers stride left y (w * bpp) h 0 i ≡ false
unfolding covers
covers_invisible stride left y zero h i e = covers_narrow stride left y h 0 i
covers_invisible stride left y (suc w) zero i e = refl
covers_invisible stride left y (suc w) (suc h) i e = absurd (ground arith)

encode_region-visible :
    (z : Zstd) (xs : Bytes) (stride x y w h : ℕ) (region : DamageRegion)
    → encode_region z xs stride x y w h ≡ some region
    → is_visible_region region ≡ (ltb 0 w && ltb 0 h)
unfolding encode_region
encode_region-visible z xs stride x y w h region e =
    let (raw, a, b) = >>=-eq-some (extract_rows xs stride (x * bpp) y (w * bpp) h 0) _ e in
    let (packed, c, d) = >>=-eq-some (z.encode_all raw) _ b in ground (arith, d)

Copies-none :
    (src dst : Bytes) (covered : ℕ → Bool)
    → length dst ≡ length src
    → ((i : ℕ) → covered i ≡ false)
    → Copies src dst covered (some dst)
Copies-none src dst covered e h = (e, λ i. ground (arith, h i))

Copies-next :
    (z : Zstd) (stride : ℕ) (src dst : Bytes) (now later : ℕ → Bool) (mid : Option Bytes)
    (regions : List DamageRegion)
    → Copies src dst now mid
    → ((m : Bytes) → length m ≡ length src → Copies src m later (apply_regions z stride m regions))
    → Copies src dst (λ i. now i || later i) (mid >>= (λ m. apply_regions z stride m regions))
Copies-next z stride src dst now later none regions a b = absurd a
Copies-next z stride src dst now later (some m) regions a b =
    Copies-step src m dst now later (apply_regions z stride m regions) a.1 (b m a.0)

Copies-skip :
    (src dst : Bytes) (now later : ℕ → Bool) (out : Option Bytes)
    → ((i : ℕ) → now i ≡ false)
    → Copies src dst later out
    → Copies src dst (λ i. now i || later i) out
Copies-skip src dst now later none h c = c
Copies-skip src dst now later (some out) h c = (c.0, λ i. ground (arith, h i, c.1 i))

-- A copy that covers every byte that differs is the source.
pub Copies-whole :
    (src dst : Bytes) (covered : ℕ → Bool) (out : Option Bytes)
    → ((i : ℕ) → i < length src → (covered i ≡ false) → get_elem? src i ≡ get_elem? dst i)
    → length dst ≡ length src
    → Copies src dst covered out
    → out ≡ some src
Copies-whole src dst covered none h e c = absurd c
Copies-whole src dst covered (some out) h e c = ap some (
    list_ext out src c.0 (λ i. elim (Bool-cases (ltb i (length src))) [
      | inl g ↦ elim (Bool-cases (covered i)) [
        | inl f ↦ ground (arith, c.1 i)
        | inr f ↦ ground (arith, c.1 i, h i (ground arith) f)
      ]
      | inr g ↦ ground (arith, get_elem?-beyond out i, get_elem?-beyond src i)
    ]))

-- Every visible region of the damaged rectangles, applied in order.
pub apply_regions-encode_rects :
    (z : Zstd) (src dst : Bytes) (stride width height : ℕ) (rects : List Rect)
    (regions : List DamageRegion)
    → Lossless z
    → length dst ≡ length src
    → encode_rects z src stride (pos width) (pos height) rects ≡ some regions
    → Copies src dst
        (covers_rects stride width height rects)
        (apply_regions z stride dst (filter is_visible_region regions))
unfolding encode_rects covers_rects covers_rect apply_regions encode_rect
apply_regions-encode_rects z src dst stride width height [] regions lossless e h =
    let same : [] ≡ regions = ground (arith, h) in
    rw (← same) (Copies-none src dst (λ i. false) e (λ i. refl))
apply_regions-encode_rects z src dst stride width height (rect ∷ rects) regions lossless e h =
    let (region, a, b) = >>=-eq-some (encode_rect z src stride (pos width) (pos height) rect) _ h in
    let (rest, c, d) = >>=-eq-some (encode_rects z src stride (pos width) (pos height) rects) _ b in
    let same : region ∷ rest ≡ regions = ground (arith, d) in
    let now = covers_rect stride width height rect in
    let later = covers_rects stride width height rects in
    let seen =
      encode_region-visible z src stride (clamp rect.x) (clamp rect.y)
        (clamp_extent rect.w (pos width) rect.x) (clamp_extent rect.h (pos height) rect.y) region
        a in
    rw (← same) (elim (Bool-cases (is_visible_region region)) [
      | inl g ↦ rw g (
          Copies-next z stride src dst now later (apply_region z dst stride region)
            (filter is_visible_region rest)
            (apply_region-encode_region z src dst stride (clamp rect.x) (clamp rect.y)
              (clamp_extent rect.w (pos width) rect.x) (clamp_extent rect.h (pos height) rect.y)
              region lossless e a)
            (λ m long.
              apply_regions-encode_rects z src m stride width height rects rest lossless long c))
      | inr g ↦ rw g (
          Copies-skip src dst now later (apply_regions z stride dst (filter is_visible_region rest))
            (λ i.
              covers_invisible stride (clamp rect.x * bpp) (clamp rect.y)
                (clamp_extent rect.w (pos width) rect.x) (clamp_extent rect.h (pos height) rect.y) i
                (sym seen ∙ g))
            (apply_regions-encode_rects z src dst stride width height rects rest lossless e c))
    ])

-- The whole frame as one region makes the framebuffer the frame.
pub apply_regions-encode_full :
    (z : Zstd) (src dst : Bytes) (width height : ℕ) (regions : List DamageRegion)
    → Lossless z
    → length src ≡ height * (width * bpp)
    → length dst ≡ length src
    → encode_full z src (width * bpp) (pos width) (pos height) ≡ some regions
    → apply_regions z (width * bpp) dst regions ≡ some src
unfolding encode_full apply_regions
apply_regions-encode_full z src dst width height regions lossless n e h =
    let (region, a, b) = >>=-eq-some (encode_region z src (width * bpp) 0 0 width height) _ h in
    let same : region ∷ [] ≡ regions = ground (arith, b) in
    rw (← same) (
      rw
        (Copies-whole src dst (covers (width * bpp) 0 0 (width * bpp) height 0)
          (apply_region z dst (width * bpp) region)
          (λ i inside missed. absurd (
            ground (
              arith,
              covers_full (width * bpp) height 0 i (omega arith) (omega (arith, n, inside)),
            )))
          e
          (apply_region-encode_region z src dst (width * bpp) 0 0 width height region lossless e a))
        refl)
