-- ===== src/Wm/Floating.antt =====
-- crates/wrsrvd/src/wm/floating.rs: the built-in floating window manager. A `Vec` is a list from its
-- first to its last element, so the focused window is the last one of the focus stack.
pub mod Focus
pub mod Geometry
pub mod Events
pub mod Cycle
use Prim.Native.Nat.{bit_and}
use wayray.Base.{
  nat_eq, ℕ, suc, ◌+◌, ◌%◌, ◌^◌, Bool, true, false, not, ◌&&◌, Option, none, some, List, [], ◌∷◌,
  ◌++◌, filter, length, ◌==◌, ◌!=◌, ltb, if◌then◌else◌,
}
use wayray.Base.Int.{ℤ, pos, ◌-ℤ◌, ◌/ℤ◌, ltb_ℤ}
use wayray.Base.Dict.{Dict, lookup, insert, erase, contains_key}
use wayray.Wm.Types.{
  WindowId, Pair, WindowInfo, ManageResponse, server_side, RenderCommand, preserve,
}

abbrev pub mod_alt : ℕ
mod_alt = 0x08

abbrev pub mod_super : ℕ
mod_super = 0x40

abbrev pub key_f4 : ℕ
key_f4 = 62

abbrev pub key_tab : ℕ
key_tab = 15

abbrev pub key_up : ℕ
key_up = 103

abbrev pub key_left : ℕ
key_left = 105

abbrev pub key_right : ℕ
key_right = 106

abbrev pub key_down : ℕ
key_down = 108

pub data SnapHalf : Type 0 where
  left_half right_half top_half bottom_half : SnapHalf

-- `SnapHalf::from_key`
unfoldable pub from_key : ℕ → Option SnapHalf
from_key key =
    if key == key_left
    then some left_half
    else if key == key_right
    then some right_half
    else if key == key_up
    then some top_half
    else if key == key_down
    then some bottom_half
    else none

-- `snap_geometry`: position and size
unfoldable pub snap_geometry : ℤ → ℤ → SnapHalf → Pair × Pair
snap_geometry w h left_half = ((pos 0, pos 0), (w /ℤ 2, h))
snap_geometry w h right_half = ((w /ℤ 2, pos 0), (w -ℤ w /ℤ 2, h))
snap_geometry w h top_half = ((pos 0, pos 0), (w, h /ℤ 2))
snap_geometry w h bottom_half = ((pos 0, h /ℤ 2), (w, h -ℤ h /ℤ 2))

pub record WindowState : Type 0 where
  pub position : Pair
  pub size : Pair
  pub z_index : ℕ
  pub visible : Bool

pub record BuiltinFloatingWm : Type 0 where
  pub windows : Dict WindowId WindowState
  pub focus_stack : List WindowId
  pub next_z : ℕ
  pub output_width : ℤ
  pub output_height : ℤ

-- `BuiltinFloatingWm::new`
unfoldable pub new : ℤ → ℤ → BuiltinFloatingWm
new output_width output_height = record {
  windows = [];
  focus_stack = [];
  next_z = 1;
  output_width = output_width;
  output_height = output_height;
}

-- `u32` addition, which wraps in a release build.
abbrev pub wrap_u32 : ℕ → ℕ
wrap_u32 n = n % 2 ^ 32

unfoldable pub last : List WindowId → Option WindowId
last [] = none
last (w ∷ []) = some w
last (w ∷ x ∷ ws) = last (x ∷ ws)

-- `Vec::pop`, without the popped element
unfoldable pub init : List WindowId → List WindowId
init [] = []
init (w ∷ []) = []
init (w ∷ x ∷ ws) = w ∷ init (x ∷ ws)

-- `focused`
unfoldable pub focused : BuiltinFloatingWm → Option WindowId
unfolding last
focused m = last m.focus_stack

-- `if let Some(state) = self.windows.get_mut(&id)`: the window gets the next z index
unfoldable pub give_z : BuiltinFloatingWm → WindowId → BuiltinFloatingWm
give_z m id = elim (lookup id m.windows) [
  | none ↦ m
  | some state ↦ record m {
    windows = insert id (record state { z_index = m.next_z }) m.windows;
    next_z = wrap_u32 (m.next_z + 1);
  }
]

-- the rest of `focus_next`, with the top of the stack moved to its bottom
unfoldable pub rotate : List WindowId → List WindowId
unfolding last init
rotate ws = elim (last ws) [ none ↦ ws | some top ↦ top ∷ init ws ]

-- The new top is now focused: it is raised.
unfoldable pub raise_last : BuiltinFloatingWm → BuiltinFloatingWm × Option WindowId
unfolding last give_z
raise_last m = elim (last m.focus_stack) [ none ↦ (m, none) | some id ↦ (give_z m id, some id) ]

-- `focus_next`
unfoldable pub focus_next : BuiltinFloatingWm → BuiltinFloatingWm × Option WindowId
unfolding rotate raise_last
focus_next m =
    if ltb (length m.focus_stack) 2
    then (m, last m.focus_stack)
    else raise_last (record m { focus_stack = rotate m.focus_stack })

-- `raise_to_top`
unfoldable pub raise_to_top : BuiltinFloatingWm → WindowId → BuiltinFloatingWm
unfolding give_z
raise_to_top m id =
    give_z (record m { focus_stack = filter (λ w. w != id) m.focus_stack ++ id ∷ [] }) id

-- `geometry_of`
unfoldable pub geometry_of : BuiltinFloatingWm → WindowId → Option (Pair × Pair)
geometry_of m id = elim (lookup id m.windows) [
  | none ↦ none
  | some state ↦ some (state.position, state.size)
]

-- a new position and size for a known window
unfoldable pub set_geometry : BuiltinFloatingWm → WindowId → Pair → Pair → BuiltinFloatingWm × Bool
set_geometry m id position size = elim (lookup id m.windows) [
  | none ↦ (m, false)
  | some state ↦ (
    record m { windows = insert id (record state { position = position; size = size }) m.windows },
    true,
  )
]

-- `snap_focused`
unfoldable pub snap_focused : BuiltinFloatingWm → SnapHalf → BuiltinFloatingWm × Bool
snap_focused m half = elim (focused m) [
  | none ↦ (m, false)
  | some id ↦
      let (position, size) = snap_geometry m.output_width m.output_height half in
      set_geometry m id position size
]

-- The size hint on one axis: `min` first, then `max`.
unfoldable pub hint_axis : Option ℤ → Option ℤ → ℤ → ℤ
hint_axis (some low) none x = if ltb_ℤ x low then low else x
hint_axis (some low) (some high) x = if ltb_ℤ x low then low else if ltb_ℤ high x then high else x
hint_axis none (some high) x = if ltb_ℤ high x then high else x
hint_axis none none x = x

abbrev pub first : Option Pair → Option ℤ
first none = none
first (some (a, b)) = some a

abbrev pub second : Option Pair → Option ℤ
second none = none
second (some (a, b)) = some b

abbrev pub min_ℤ : ℤ → ℤ → ℤ
min_ℤ a b = if ltb_ℤ b a then b else a

-- The size of a new window.
unfoldable pub new_size : WindowInfo → Pair
unfolding hint_axis
new_size info = (
  hint_axis (first info.min_size) (first info.max_size) (min_ℤ (pos 800) info.output_width),
  hint_axis (second info.min_size) (second info.max_size) (min_ℤ (pos 600) info.output_height),
)

-- The position that centres a window of that size on the output.
unfoldable pub centred : BuiltinFloatingWm → Pair → Pair
centred m (width, height) = ((m.output_width -ℤ width) /ℤ 2, (m.output_height -ℤ height) /ℤ 2)

-- `on_new_toplevel`
unfoldable pub on_new_toplevel :
    BuiltinFloatingWm → WindowId → WindowInfo → BuiltinFloatingWm × ManageResponse
unfolding new_size centred
on_new_toplevel m id info =
    let size = new_size info in
    let position = centred m size in
    (
      record m {
        next_z = wrap_u32 (m.next_z + 1);
        windows =
            insert id
              (record { position = position; size = size; z_index = m.next_z; visible = true })
              m.windows;
        focus_stack = m.focus_stack ++ id ∷ [];
      },
      record { size = size; position = position; focus = true; decoration = server_side },
    )

-- `on_close_toplevel`
unfoldable pub on_close_toplevel : BuiltinFloatingWm → WindowId → BuiltinFloatingWm
on_close_toplevel m id = record m {
  windows = erase id m.windows;
  focus_stack = filter (λ w. w != id) m.focus_stack;
}

-- `on_fullscreen_request`
unfoldable pub on_fullscreen_request : BuiltinFloatingWm → WindowId → BuiltinFloatingWm × Bool
unfolding set_geometry raise_to_top
on_fullscreen_request m id =
    let (m', known) = set_geometry m id (pos 0, pos 0) (m.output_width, m.output_height) in
    if known then (raise_to_top m' id, true) else (m', false)

-- `on_render`
unfoldable pub on_render : BuiltinFloatingWm → List WindowId → List RenderCommand
on_render m [] = []
on_render m (id ∷ ids) = elim (lookup id m.windows) [
  | none ↦ on_render m ids
  | some state ↦
      record { id = id; position = state.position; z_order = preserve; visible = state.visible }
      ∷ on_render m ids
]

-- Super with an arrow key.
unfoldable pub on_super_key : BuiltinFloatingWm → ℕ → ℕ → BuiltinFloatingWm × Bool
on_super_key m key modifiers =
    if not (bit_and modifiers mod_super == 0)
    then elim (from_key key) [ none ↦ (m, false) | some half ↦ snap_focused m half ]
    else (m, false)

-- `on_key_binding`
unfoldable pub on_key_binding : BuiltinFloatingWm → ℕ → ℕ → BuiltinFloatingWm × Bool
unfolding on_super_key focus_next
on_key_binding m key modifiers =
    let other = on_super_key m key modifiers in
    if not (bit_and modifiers mod_alt == 0)
    then (if key == key_f4
        then (m, true)
        else if key == key_tab
        then ((focus_next m).0, true)
        else other)
    else other

-- `on_pointer_focus`
unfoldable pub on_pointer_focus : BuiltinFloatingWm → WindowId → BuiltinFloatingWm × Option WindowId
unfolding raise_to_top
on_pointer_focus m id =
    if contains_key id m.windows then (raise_to_top m id, some id) else (m, none)
