-- ===== src/Tiling/Layout.antt =====
-- The recursion of `bsp_layout` in crates/wr-wm-tiling/src/main.rs.
use wayray.Base.{
  ℕ, zero, suc, ◌-◌, ◌/◌, ◌≤◌, ◌<◌, ◌≡◌, refl, Bool, true, not, some, List, [], ◌∷◌, ◌++◌, length,
  arith, length-append,
}
use wayray.Base.Int.{ℤ, pos, ◌-ℤ◌}
use wayray.Tiling.{Tile, gap, first_area, second_area, bsp_layout, calculate_layout}

-- Enough fuel: one unit for each window.
bsp_layout_total :
    (fuel : ℕ) (t : Tile) (count : ℕ) (horizontal : Bool)
    → 0 < count
    → count ≤ fuel
    → (tiles : List Tile) × (bsp_layout fuel t count horizontal ≡ some tiles)
      × (length tiles ≡ count)
unfolding bsp_layout
bsp_layout_total zero t count horizontal p h = absurd (omega arith)
bsp_layout_total (suc fuel) t zero horizontal p h = absurd (omega arith)
bsp_layout_total (suc fuel) t (suc zero) horizontal p h = (t ∷ [], refl, refl)
bsp_layout_total (suc fuel) t (suc (suc n)) horizontal p h =
    let count : ℕ = suc (suc n) in
    let (a, e, f) =
      bsp_layout_total fuel (first_area t horizontal count) (count / 2) (not horizontal)
        (omega arith) (omega arith) in
    let (b, g, k) =
      bsp_layout_total fuel (second_area t horizontal count) (count - count / 2) (not horizontal)
        (omega arith) (omega arith) in
    (a ++ b, rw e (rw g), omega (arith, length-append a b, f, k))

-- The layout of `n` windows is computed, for a screen of any size, and has one tile for each window.
pub calculate_layout_total :
    (width height : ℤ) (n : ℕ)
    → (tiles : List Tile) × (calculate_layout width height n ≡ some tiles) × (length tiles ≡ n)
unfolding calculate_layout
calculate_layout_total width height zero = ([], refl, refl)
calculate_layout_total width height (suc n) =
    bsp_layout_total (suc n) (record { x = gap; y = gap; w = width -ℤ pos 8; h = height -ℤ pos 8 })
      (suc n) true (omega arith) (omega arith)
