-- ===== src/Server/Keyboard.antt =====
-- crates/wrsrvd/src/state.rs: the modifiers that are held on the network's input stream, the keys
-- that the seat holds, and the path of a key event of the client.
pub mod Held
use Prim.Native.Nat.{bit_or}
use wayray.Base.{
  ℕ, ◌+◌, ◌≡◌, Bool, true, false, not, ◌&&◌, ◌||◌, Option, none, some, List, [], ◌∷◌, ◌++◌, map,
  filter, ◌==◌, ◌!=◌, nat_eq, if◌then◌else◌,
}
use wayray.Base.Member.{contains}
use wayray.Base.Dict.{is_some}
use wayray.Wire.Messages.{KeyboardEvent, KeyState, pressed, released}
use wayray.Wm.Types.{WindowId, Pair}
use wayray.Wm.Floating.{
  BuiltinFloatingWm, mod_alt, mod_super, key_f4, key_tab, key_left, key_right, key_up, key_down,
  focused, geometry_of, on_key_binding,
}
use wayray.Wm.Protocol.{WmProtocolState, KeyEvent, check_key_binding}

abbrev pub mod_shift : ℕ
mod_shift = 0x01

abbrev pub mod_ctrl : ℕ
mod_ctrl = 0x04

-- `KEY_LEFTCTRL`, `KEY_LEFTSHIFT`, `KEY_RIGHTSHIFT`, `KEY_LEFTALT`, `KEY_RIGHTCTRL`,
-- `KEY_RIGHTALT`, `KEY_LEFTMETA`, `KEY_RIGHTMETA` are 29, 42, 54, 56, 97, 100, 125, 126.
-- `ModifierTracker::modifier_bit`
unfoldable pub modifier_bit : ℕ → Option ℕ
modifier_bit keycode =
    if keycode == 42 || keycode == 54
    then some mod_shift
    else if keycode == 29 || keycode == 97
    then some mod_ctrl
    else if keycode == 56 || keycode == 100
    then some mod_alt
    else if keycode == 125 || keycode == 126
    then some mod_super
    else none

-- `HashSet::insert` and `HashSet::remove`; a set is the list of its elements
unfoldable pub insert_key : ℕ → List ℕ → List ℕ
insert_key k held = if contains k held then held else k ∷ held

unfoldable pub remove_key : ℕ → List ℕ → List ℕ
remove_key k held = filter (λ j. j != k) held

-- `ModifierTracker::on_key`; the tracker is its set `held`
unfoldable pub on_key : List ℕ → ℕ → Bool → List ℕ
unfolding modifier_bit insert_key remove_key
on_key held keycode is_pressed =
    if is_some (modifier_bit keycode)
    then (if is_pressed then insert_key keycode held else remove_key keycode held)
    else held

abbrev pub or_bit : Option ℕ → ℕ → ℕ
or_bit none mask = mask
or_bit (some bit) mask = bit_or mask bit

-- `ModifierTracker::mask`
unfoldable pub mask : List ℕ → ℕ
unfolding modifier_bit
mask [] = 0
mask (key ∷ held) = or_bit (modifier_bit key) (mask held)

abbrev pub is_pressed : KeyState → Bool
is_pressed pressed = true
is_pressed released = false

-- what a key event makes the compositor do beyond its own state. `to_seat` is `keyboard.input`,
-- `KeyEvent` an event to the external window manager.
pub data Effect : Type 0 where
  to_seat : ℕ → Bool → Effect
  to_manager : KeyEvent → Effect
  send_close : WindowId → Effect
  raise_and_focus : WindowId → Effect
  configure : WindowId → Pair → Effect

-- the fields of `WayRay` that the keyboard uses; `open_windows` are the ids of `window_ids`
pub record Keyboard : Type 0 where
  pub modifiers : List ℕ
  pub pressed_keys : List ℕ
  pub protocol : Option WmProtocolState
  pub builtin : BuiltinFloatingWm
  pub open_windows : List WindowId

-- what the built-in window manager's bindings do, after `on_key_binding` has consumed the key
abbrev pub for_open : List WindowId → Option WindowId → (WindowId → Effect) → List Effect
for_open open_windows none effect = []
for_open open_windows (some id) effect = if contains id open_windows then effect id ∷ [] else []

abbrev pub is_arrow : ℕ → Bool
is_arrow key = (key == key_left || key == key_right) || (key == key_up || key == key_down)

abbrev pub configured : List WindowId → WindowId → Option (Pair × Pair) → List Effect
configured open_windows id none = []
configured open_windows id (some (at, size)) =
    for_open open_windows (some id) (λ w. configure w size)

abbrev pub snap_effect : Keyboard → Option WindowId → List Effect
snap_effect kb none = []
snap_effect kb (some id) = configured kb.open_windows id (geometry_of kb.builtin id)

unfoldable pub binding_effects : Keyboard → ℕ → List Effect
binding_effects kb key =
    (if key == key_f4 then for_open kb.open_windows (focused kb.builtin) send_close else [])
    ++ ((if key == key_tab
          then for_open kb.open_windows (focused kb.builtin) raise_and_focus
          else [])
        ++ (if is_arrow key then snap_effect kb (focused kb.builtin) else []))

abbrev pub manager_effect : Option KeyEvent → List Effect
manager_effect none = []
manager_effect (some e) = to_manager e ∷ []

-- the external window manager's look at a key
abbrev pub check_protocol : Option WmProtocolState → ℕ → ℕ → Bool → Bool × Option KeyEvent
check_protocol none key modifiers is_down = (false, none)
check_protocol (some p) key modifiers is_down = check_key_binding p key modifiers is_down

-- the end of the keyboard's arm: the event goes to the seat, with the XKB keycode
unfoldable pub forward_key : Keyboard → ℕ → Bool → Keyboard × List Effect
unfolding insert_key remove_key
forward_key kb keycode down = (
  record kb {
    pressed_keys =
        if down then insert_key keycode kb.pressed_keys else remove_key keycode kb.pressed_keys;
  },
  to_seat (keycode + 8) down ∷ [],
)

-- the key goes to the built-in window manager on a press, and to the seat if that does not take it
unfoldable pub offer_key : Keyboard → ℕ → ℕ → Bool → Keyboard × List Effect
unfolding forward_key binding_effects
offer_key kb keycode modifiers down =
    let (builtin, taken) = on_key_binding kb.builtin keycode modifiers in
    let kb' = (if down then record kb { builtin = builtin } else kb) in
    if down && taken then (kb', binding_effects kb' keycode) else forward_key kb' keycode down

-- `inject_network_input`, its keyboard arm
unfoldable pub inject_key : Keyboard → KeyboardEvent → Keyboard × List Effect
unfolding on_key mask offer_key
inject_key kb ev =
    let down = is_pressed ev.state in
    let held = on_key kb.modifiers ev.keycode down in
    let kb' = record kb { modifiers = held } in
    let (bound, event) = check_protocol kb.protocol ev.keycode (mask held) down in
    if bound then (kb', manager_effect event) else offer_key kb' ev.keycode (mask held) down

-- `release_all_keys`
unfoldable pub release_all_keys : Keyboard → Keyboard × List Effect
release_all_keys kb = (
  record kb { modifiers = []; pressed_keys = [] },
  map (λ k. to_seat (k + 8) false) kb.pressed_keys,
)
