-- ===== src/Wm/Protocol.antt =====
-- crates/wrsrvd/src/wm/protocol.rs: the server side of the window management protocol, for the one
-- external window manager that may be connected. A protocol object is a number. The events sent to
-- the window manager are left out, but for those of key bindings; the calls into the compositor are
-- the result of a window request.
pub mod Requests
pub mod Connection
pub mod Traces
pub mod Pending
pub mod Bindings
mod Tests
use wayray.Base.{
  nat_eq, string_eq, ℕ, min, ◌<◌, String, Bool, true, false, not, ◌&&◌, ◌||◌, Option, none, some,
  List, [], ◌∷◌, ◌++◌, map, filter, ◌==◌, if◌then◌else◌, leb,
}
use wayray.Base.Int.{ℤ, pos, negsuc}
use wayray.Base.Dict.{Dict, lookup, insert, erase}
use wayray.Wm.Types.{
  WindowId, Pair, RenderCommand, ZOrder, top, bottom, above, below, preserve, DecorationMode,
  server_side, client_side,
}
use wayray.Wm.Workspace
use wayray.Wm.Workspace.{
  WorkspaceState, create_workspace, destroy_workspace, set_active_workspace, assign_window,
  set_window_tags, set_active_tags, set_window_output,
}

abbrev pub ObjectId : Type 0
ObjectId = ℕ

-- `BorderSpec` of crates/wrsrvd/src/wm/types.rs
pub record BorderSpec : Type 0 where
  pub red : ℕ
  pub green : ℕ
  pub blue : ℕ
  pub alpha : ℕ
  pub width : ℤ

abbrev is_positive : ℤ → Bool
is_positive (pos n) = leb 1 n
is_positive (negsuc n) = false

-- `BorderSpec::from_protocol`
unfoldable pub from_protocol : ℕ → ℕ → ℕ → ℕ → ℤ → Option BorderSpec
from_protocol red green blue alpha width =
    if is_positive width
    then some (record {
      red = min red 255;
      green = min green 255;
      blue = min blue 255;
      alpha = min alpha 255;
      width = width;
    })
    else none

pub record Binding : Type 0 where
  pub key : ℕ
  pub modifiers : ℕ
  pub mode : String

pub record WmProtocolState : Type 0 where
  pub wm_client : Option ObjectId
  pub window_objects : Dict WindowId ObjectId
  pub pending_render_commands : List RenderCommand
  pub manage_phase_active : Bool
  pub render_phase_active : Bool
  pub keybindings : List Binding
  pub binding_modes : List String
  pub active_mode : String
  pub wm_seat : Option ObjectId
  pub workspace : WorkspaceState
  pub workspace_manager : Option ObjectId
  pub borders : Dict WindowId BorderSpec

-- `WmProtocolState::new`
unfoldable pub start : WmProtocolState
start = record {
  wm_client = none;
  window_objects = [];
  pending_render_commands = [];
  manage_phase_active = false;
  render_phase_active = false;
  keybindings = [];
  binding_modes = [];
  active_mode = "";
  wm_seat = none;
  workspace = Workspace.default;
  workspace_manager = none;
  borders = [];
}

-- `notify_new_window`, with the object that the library created, if it could
unfoldable pub notify_new_window : WmProtocolState → WindowId → Option ObjectId → WmProtocolState
notify_new_window p id object = elim p.wm_client [
  | none ↦ p
  | some manager ↦ elim object [
    | none ↦ p
    | some o ↦ record p { window_objects = insert id o p.window_objects }
  ]
]

-- `notify_window_closed`
unfoldable pub notify_window_closed : WmProtocolState → WindowId → WmProtocolState
notify_window_closed p id = elim p.wm_client [
  | none ↦ record p { borders = erase id p.borders }
  | some manager ↦ record p {
    borders = erase id p.borders;
    window_objects = erase id p.window_objects;
  }
]

-- `start_manage_phase`
unfoldable pub start_manage_phase : WmProtocolState → WmProtocolState
start_manage_phase p = elim p.wm_client [
  | none ↦ p
  | some manager ↦ record p { manage_phase_active = true }
]

-- `start_render_phase`
unfoldable pub start_render_phase : WmProtocolState → WmProtocolState
start_render_phase p = elim p.wm_client [
  | none ↦ p
  | some manager ↦ record p { pending_render_commands = []; render_phase_active = true }
]

-- `take_render_commands`
unfoldable pub take_render_commands : WmProtocolState → WmProtocolState × List RenderCommand
take_render_commands p = (record p { pending_render_commands = [] }, p.pending_render_commands)

abbrev pub is_binding : ℕ → ℕ → String → Binding → Bool
is_binding key modifiers mode b = (b.key == key && b.modifiers == modifiers) && b.mode == mode

-- `keybindings.contains`
unfoldable pub has_binding : List Binding → ℕ → ℕ → String → Bool
has_binding [] key modifiers mode = false
has_binding (b ∷ bs) key modifiers mode =
    is_binding key modifiers mode b || has_binding bs key modifiers mode

-- A key event that is sent to a seat.
pub data KeyEvent : Type 0 where
  binding_pressed binding_released : ObjectId → ℕ → ℕ → KeyEvent

abbrev key_event : Option ObjectId → ℕ → ℕ → Bool → Option KeyEvent
key_event none key modifiers pressed = none
key_event (some seat) key modifiers true = some (binding_pressed seat key modifiers)
key_event (some seat) key modifiers false = some (binding_released seat key modifiers)

-- `check_key_binding`, with the event that it sends
unfoldable pub check_key_binding : WmProtocolState → ℕ → ℕ → Bool → Bool × Option KeyEvent
unfolding has_binding
check_key_binding p key modifiers pressed =
    let default_match = has_binding p.keybindings key modifiers "" in
    let mode_match =
      not (p.active_mode == "") && has_binding p.keybindings key modifiers p.active_mode in
    if default_match || mode_match
    then (true, key_event p.wm_seat key modifiers pressed)
    else (false, none)

-- `window_id_for_resource`
unfoldable pub window_id_for_resource : Dict WindowId ObjectId → ObjectId → Option WindowId
window_id_for_resource [] object = none
window_id_for_resource ((id, o) ∷ d) object =
    if o == object then some id else window_id_for_resource d object

-- `send_full_window_list`: the windows for which the library created an object
unfoldable pub send_full_window_list :
    WmProtocolState → List (WindowId × ObjectId) → WmProtocolState
send_full_window_list p [] = p
send_full_window_list p ((id, o) ∷ ws) =
    send_full_window_list (record p { window_objects = insert id o p.window_objects }) ws
