-- ===== src/Tiling/Apart.antt =====
-- Where `calculate_layout` of crates/wr-wm-tiling/src/main.rs puts its tiles.
use wayray.Base.{
  ℕ, zero, suc, ◌+◌, ◌-◌, ◌*◌, ◌/◌, ◌≤◌, ◌<◌, ◌≡◌, refl, ◌⊎◌, inl, inr, Bool, true, false, not,
  some, List, [], ◌∷◌, ◌++◌, length, arith, length-append,
}
use wayray.Base.Int.{ℤ, pos, ◌+ℤ◌, ◌-ℤ◌, ◌≤ℤ◌, +ℤ_parts, -ℤ_parts}
use wayray.Tiling.{Tile, gap, first_length, first_area, second_area, bsp_layout, calculate_layout}
use wayray.Tiling.Split.{HasRoom, first_length-HasRoom}

-- A tile whose sides are not negative and which lies inside an area.
pub record Inside (area t : Tile) : Type 0 where
  pub wide : pos 0 ≤ℤ t.w
  pub tall : pos 0 ≤ℤ t.h
  pub left : area.x ≤ℤ t.x
  pub right : (t.x +ℤ t.w) ≤ℤ (area.x +ℤ area.w)
  pub above : area.y ≤ℤ t.y
  pub below : (t.y +ℤ t.h) ≤ℤ (area.y +ℤ area.h)

-- The second tile is right of the first one or below it, behind a gap.
abbrev pub Apart : Tile → Tile → Type 0
Apart a b = ((a.x +ℤ a.w +ℤ gap) ≤ℤ b.x) ⊎ ((a.y +ℤ a.h +ℤ gap) ≤ℤ b.y)

abbrev pub Every : (Tile → Type 0) → List Tile → Type 0
Every P [] = Unit
Every P (t ∷ ts) = P t × Every P ts

abbrev pub AllApart : List Tile → Type 0
AllApart [] = Unit
AllApart (t ∷ ts) = Every (Apart t) ts × AllApart ts

Every-append :
    (P : Tile → Type 0) (xs ys : List Tile) → Every P xs → Every P ys → Every P (xs ++ ys)
Every-append P [] ys a b = b
Every-append P (x ∷ xs) ys a b = (a.0, Every-append P xs ys a.1 b)

Every-map :
    (P Q : Tile → Type 0) (xs : List Tile) → ((t : Tile) → P t → Q t) → Every P xs → Every Q xs
Every-map P Q [] f a = tt
Every-map P Q (x ∷ xs) f a = (f x a.0, Every-map P Q xs f a.1)

AllApart-append :
    (a b : Tile) (xs ys : List Tile)
    → ((t u : Tile) → Inside a t → Inside b u → Apart t u)
    → Every (Inside a) xs
    → Every (Inside b) ys
    → AllApart xs
    → AllApart ys
    → AllApart (xs ++ ys)
AllApart-append a b [] ys f i j p q = q
AllApart-append a b (x ∷ xs) ys f i j p q = (
  Every-append (Apart x) xs ys p.0 (Every-map (Inside b) (Apart x) ys (λ u. f x u i.0) j),
  AllApart-append a b xs ys f i.1 j p.1 q,
)

HasRoom-positive : (count : ℕ) (l : ℤ) → 0 < count → HasRoom count l → pos 0 ≤ℤ l
unfolding ◌+ℤ◌
HasRoom-positive count l p h = ground arith

-- A length that is cut in two with a gap between the parts.
cut :
    (x l f : ℤ)
    → pos 0 ≤ℤ f
    → pos 0 ≤ℤ (l -ℤ f -ℤ gap)
    → (x +ℤ f ≤ℤ x +ℤ l) × (x ≤ℤ x +ℤ f +ℤ gap) × (x +ℤ f +ℤ gap +ℤ (l -ℤ f -ℤ gap) ≤ℤ x +ℤ l)
cut x l f p q = omega (
  arith,
  +ℤ_parts x f,
  +ℤ_parts x l,
  +ℤ_parts (x +ℤ f) gap,
  +ℤ_parts (x +ℤ f +ℤ gap) (l -ℤ f -ℤ gap),
  -ℤ_parts l f,
  -ℤ_parts (l -ℤ f) gap,
  p,
  q,
)

cut_room :
    (x l : ℤ) (count : ℕ)
    → 2 ≤ count
    → HasRoom count l
    → let f = first_length l (count / 2) count in
      (x +ℤ f ≤ℤ x +ℤ l) × (x ≤ℤ x +ℤ f +ℤ gap) × (x +ℤ f +ℤ gap +ℤ (l -ℤ f -ℤ gap) ≤ℤ x +ℤ l)
cut_room x l count p room =
    let (a, b) = first_length-HasRoom l count p room in
    cut x l (first_length l (count / 2) count) (HasRoom-positive (count / 2) _ (omega arith) a)
      (HasRoom-positive (count - count / 2) _ (omega arith) b)

first_area-Inside :
    (t u : Tile) (horizontal : Bool) (count : ℕ)
    → 2 ≤ count
    → HasRoom count t.w
    → HasRoom count t.h
    → Inside (first_area t horizontal count) u
    → Inside t u
unfolding first_area
first_area-Inside t u true count p w h i =
    let c = cut_room t.x t.w count p w in
    record {
      wide = i.wide;
      tall = i.tall;
      left = i.left;
      right = omega (arith, c.0, i.right);
      above = i.above;
      below = i.below;
    }
first_area-Inside t u false count p w h i =
    let c = cut_room t.y t.h count p h in
    record {
      wide = i.wide;
      tall = i.tall;
      left = i.left;
      right = i.right;
      above = i.above;
      below = omega (arith, c.0, i.below);
    }

second_area-Inside :
    (t u : Tile) (horizontal : Bool) (count : ℕ)
    → 2 ≤ count
    → HasRoom count t.w
    → HasRoom count t.h
    → Inside (second_area t horizontal count) u
    → Inside t u
unfolding second_area
second_area-Inside t u true count p w h i =
    let (c0, c1, c2) = cut_room t.x t.w count p w in
    record {
      wide = i.wide;
      tall = i.tall;
      left = omega (arith, c1, i.left);
      right = omega (arith, c2, i.right);
      above = i.above;
      below = i.below;
    }
second_area-Inside t u false count p w h i =
    let (c0, c1, c2) = cut_room t.y t.h count p h in
    record {
      wide = i.wide;
      tall = i.tall;
      left = i.left;
      right = i.right;
      above = omega (arith, c1, i.above);
      below = omega (arith, c2, i.below);
    }

areas-Apart :
    (t : Tile) (horizontal : Bool) (count : ℕ) (a b : Tile)
    → Inside (first_area t horizontal count) a
    → Inside (second_area t horizontal count) b
    → Apart a b
unfolding first_area second_area
areas-Apart t true count a b i j =
    let f = first_length t.w (count / 2) count in
    inl (omega (arith, i.right, j.left, +ℤ_parts (a.x +ℤ a.w) gap, +ℤ_parts (t.x +ℤ f) gap))
areas-Apart t false count a b i j =
    let f = first_length t.h (count / 2) count in
    inr (omega (arith, i.below, j.above, +ℤ_parts (a.y +ℤ a.h) gap, +ℤ_parts (t.y +ℤ f) gap))

areas-HasRoom :
    (t : Tile) (horizontal : Bool) (count : ℕ)
    → 2 ≤ count
    → HasRoom count t.w
    → HasRoom count t.h
    → let a = first_area t horizontal count in
      let b = second_area t horizontal count in
      (HasRoom (count / 2) a.w × HasRoom (count / 2) a.h)
      × (HasRoom (count - count / 2) b.w × HasRoom (count - count / 2) b.h)
unfolding first_area second_area
areas-HasRoom t true count p w h =
    let (a, b) = first_length-HasRoom t.w count p w in
    ((a, omega (arith, h)), (b, omega (arith, h)))
areas-HasRoom t false count p w h =
    let (a, b) = first_length-HasRoom t.h count p h in
    ((omega (arith, w), a), (omega (arith, w), b))

-- What a layout of an area is to be.
pub record IsTiling (area : Tile) (count : ℕ) (tiles : List Tile) : Type 0 where
  pub count_tiles : length tiles ≡ count
  pub inside : Every (Inside area) tiles
  pub apart : AllApart tiles

bsp_layout-IsTiling :
    (fuel : ℕ) (t : Tile) (count : ℕ) (horizontal : Bool)
    → 0 < count
    → count ≤ fuel
    → HasRoom count t.w
    → HasRoom count t.h
    → (tiles : List Tile) × (bsp_layout fuel t count horizontal ≡ some tiles)
      × IsTiling t count tiles
unfolding bsp_layout
bsp_layout-IsTiling zero t count horizontal p h rw rh = absurd (omega arith)
bsp_layout-IsTiling (suc fuel) t zero horizontal p h w v = absurd (omega arith)
bsp_layout-IsTiling (suc fuel) t (suc zero) horizontal p h w v = (
  t ∷ [],
  refl,
  record {
    count_tiles = refl;
    inside = (
      record {
        wide = HasRoom-positive 1 t.w (omega arith) w;
        tall = HasRoom-positive 1 t.h (omega arith) v;
        left = omega arith;
        right = omega arith;
        above = omega arith;
        below = omega arith;
      },
      tt,
    );
    apart = (tt, tt);
  },
)
bsp_layout-IsTiling (suc fuel) t (suc (suc n)) horizontal p h w v =
    let count : ℕ = suc (suc n) in
    let two : 2 ≤ count = omega arith in
    let a = first_area t horizontal count in
    let b = second_area t horizontal count in
    let (room_a, room_b) = areas-HasRoom t horizontal count two w v in
    let (xs, e, i) =
      bsp_layout-IsTiling fuel a (count / 2) (not horizontal) (omega arith) (omega arith) room_a.0
        room_a.1 in
    let (ys, g, j) =
      bsp_layout-IsTiling fuel b (count - count / 2) (not horizontal) (omega arith) (omega arith)
        room_b.0 room_b.1 in
    (
      xs ++ ys,
      rw e (rw g),
      record {
        count_tiles = omega (arith, length-append xs ys, i.count_tiles, j.count_tiles);
        inside =
            Every-append (Inside t) xs ys
              (Every-map (Inside a) (Inside t) xs
                (λ u. first_area-Inside t u horizontal count two w v) i.inside)
              (Every-map (Inside b) (Inside t) ys
                (λ u. second_area-Inside t u horizontal count two w v) j.inside);
        apart =
            AllApart-append a b xs ys (areas-Apart t horizontal count) i.inside j.inside i.apart
              j.apart;
      },
    )

-- The part of an output inside its margins.
abbrev pub usable : ℤ → ℤ → Tile
usable width height = record { x = gap; y = gap; w = width -ℤ pos 8; h = height -ℤ pos 8 }

-- On an output with four pixels for each window, and four more, on both axes, the layout is
-- computed and has one tile for each window; no tile has a negative side, all of them lie inside the
-- margins on all four sides, and each one lies a gap to the right of or below every tile before it.
pub calculate_layout-IsTiling :
    (width height n : ℕ)
    → 4 * n + 4 ≤ width
    → 4 * n + 4 ≤ height
    → (tiles : List Tile) × (calculate_layout (pos width) (pos height) n ≡ some tiles)
      × IsTiling (usable (pos width) (pos height)) n tiles
unfolding calculate_layout ◌-ℤ◌ ◌+ℤ◌
calculate_layout-IsTiling width height zero a b =
    ([], refl, record { count_tiles = refl; inside = tt; apart = tt })
calculate_layout-IsTiling width height (suc n) a b =
    bsp_layout-IsTiling (suc n) (usable (pos width) (pos height)) (suc n) true (omega arith)
      (omega arith) (ground arith) (ground arith)
