-- ===== src/Wm/Types.antt =====
-- crates/wrsrvd/src/wm/types.rs: the data that the compositor and a window manager exchange. An
-- `i32` is an integer; sizes and positions of outputs are far from its limits.
use wayray.Base.{ℕ, Bool, Option, String}
use wayray.Base.Int.{ℤ}

-- `WindowId(u64)`
abbrev pub WindowId : Type 0
WindowId = ℕ

-- `(i32, i32)`
abbrev pub Pair : Type 0
Pair = ℤ × ℤ

pub record WindowInfo : Type 0 where
  pub title : Option String
  pub app_id : Option String
  pub output_width : ℤ
  pub output_height : ℤ
  pub min_size : Option Pair
  pub max_size : Option Pair

pub data DecorationMode : Type 0 where
  server_side client_side : DecorationMode

pub record ManageResponse : Type 0 where
  pub size : Pair
  pub position : Pair
  pub focus : Bool
  pub decoration : DecorationMode

pub data ZOrder : Type 0 where
  top bottom : ZOrder
  above below : WindowId → ZOrder
  preserve : ZOrder

pub record RenderCommand : Type 0 where
  pub id : WindowId
  pub position : Pair
  pub z_order : ZOrder
  pub visible : Bool
