-- ===== src/Tiling.antt =====
-- crates/wr-wm-tiling/src/main.rs: the layout of the tiling window manager. An `i32` is an integer;
-- `w * first_half as i32` is far from its limits for sizes of screens.
pub mod Split
pub mod Layout
pub mod Apart
mod Tests
use wayray.Base.{
  ℕ, zero, suc, ◌-◌, ◌/◌, Bool, true, false, not, Option, none, some, List, [], ◌∷◌, ◌++◌, ltb,
  if◌then◌else◌, ◌>>=◌,
}
use wayray.Base.Int.{ℤ, pos, ◌+ℤ◌, ◌-ℤ◌, ◌*ℤ◌, ◌/ℤ◌}

-- `(x, y, width, height)`
pub record Tile : Type 0 where
  pub x : ℤ
  pub y : ℤ
  pub w : ℤ
  pub h : ℤ

abbrev pub gap : ℤ
gap = pos 4

-- `length * first_half as i32 / count as i32 - gap / 2`
unfoldable pub first_length : ℤ → ℕ → ℕ → ℤ
first_length length first_half count = length *ℤ pos first_half /ℤ count -ℤ pos 2

-- The two parts of an area that is split for `count` windows: side by side if `horizontal`.
unfoldable pub first_area : Tile → Bool → ℕ → Tile
unfolding first_length
first_area t true count = record t { w = first_length t.w (count / 2) count }
first_area t false count = record t { h = first_length t.h (count / 2) count }

unfoldable pub second_area : Tile → Bool → ℕ → Tile
unfolding first_length
second_area t true count =
    let first_w = first_length t.w (count / 2) count in
    record t { x = t.x +ℤ first_w +ℤ gap; w = t.w -ℤ first_w -ℤ gap }
second_area t false count =
    let first_h = first_length t.h (count / 2) count in
    record t { y = t.y +ℤ first_h +ℤ gap; h = t.h -ℤ first_h -ℤ gap }

-- `bsp_layout`, with fuel for the depth of the recursion; the tiles in the order of the windows. The
-- source does not return for no window, and is not called so: the fuel runs out.
unfoldable pub bsp_layout : ℕ → Tile → ℕ → Bool → Option (List Tile)
unfolding first_area second_area
bsp_layout zero t count horizontal = none
bsp_layout (suc fuel) t (suc zero) horizontal = some (t ∷ [])
bsp_layout (suc fuel) t count horizontal =
    let first = bsp_layout fuel (first_area t horizontal count) (count / 2) (not horizontal) in
    let second =
      bsp_layout fuel (second_area t horizontal count) (count - count / 2) (not horizontal) in
    first >>= λ a. second >>= λ b. some (a ++ b)

-- `calculate_layout` for `n` windows on an output
unfoldable pub calculate_layout : ℤ → ℤ → ℕ → Option (List Tile)
unfolding bsp_layout
calculate_layout width height zero = some []
calculate_layout width height n =
    bsp_layout n (record { x = gap; y = gap; w = width -ℤ pos 8; h = height -ℤ pos 8 }) n true
