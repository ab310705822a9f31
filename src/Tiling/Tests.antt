-- ===== src/Tiling/Tests.antt =====
-- Tests of the layout on a screen of 1280 by 720 pixels.
use wayray.Base.{◌≡◌, some, List}
use wayray.Base.Int.{pos}
use wayray.Base.{arith}
use wayray.Tiling.{Tile, calculate_layout}
use wayray.Tiling.Apart.{usable, IsTiling, calculate_layout-IsTiling}

calculate_layout-IsTiling_example :
    (tiles : List Tile) × (calculate_layout (pos 1280) (pos 720) 5 ≡ some tiles)
    × IsTiling (usable (pos 1280) (pos 720)) 5 tiles
calculate_layout-IsTiling_example = calculate_layout-IsTiling 1280 720 5 (omega arith) (omega arith)
