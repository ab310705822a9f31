-- ===== src/Wm/Protocol/Requests.antt =====
-- The requests of a window manager, and the connection and the end of its objects: the `Dispatch`
-- implementations of crates/wrsrvd/src/wm/protocol.rs.
use wayray.Base.{
  nat_eq, string_eq, ℕ, String, Bool, true, false, not, Option, none, some, List, [], ◌∷◌, ◌++◌,
  filter, ◌==◌, if◌then◌else◌,
}
use wayray.Base.Int.{ℤ, pos}
use wayray.Base.Dict.{insert, erase}
use wayray.Wm.Types.{
  WindowId, RenderCommand, ZOrder, top, bottom, above, below, preserve, DecorationMode, server_side,
  client_side,
}
use wayray.Wm.Workspace.{
  WorkspaceState, create_workspace, destroy_workspace, set_active_workspace, assign_window,
  set_window_tags, set_active_tags, set_window_output,
}
use wayray.Wm.Protocol.{
  ObjectId, BorderSpec, from_protocol, WmProtocolState, is_binding, has_binding,
  window_id_for_resource, send_full_window_list,
}

abbrev pub replace_old : WmProtocolState → WmProtocolState
replace_old p = elim p.wm_client [
  | none ↦ p
  | some old ↦ record p { window_objects = []; borders = [] }
]

-- `bind`: a window manager connects
unfoldable pub bind : WmProtocolState → ObjectId → List (WindowId × ObjectId) → WmProtocolState
unfolding send_full_window_list
bind p manager existing =
    send_full_window_list (record (replace_old p) { wm_client = some manager }) existing

pub data ManagerRequest : Type 0 where
  manage_done render_done : ManagerRequest
  get_seat get_workspace_manager : ObjectId → ManagerRequest
  destroy_manager : ManagerRequest

-- `request` of the manager
unfoldable pub manager_request : WmProtocolState → ManagerRequest → WmProtocolState
manager_request p manage_done = record p { manage_phase_active = false }
manager_request p render_done = record p { render_phase_active = false }
manager_request p (get_seat id) = p
manager_request p (get_workspace_manager id) = record p { workspace_manager = some id }
manager_request p destroy_manager = p

-- `destroyed` of the manager
unfoldable pub manager_destroyed : WmProtocolState → ObjectId → WmProtocolState
manager_destroyed p resource = elim p.wm_client [
  | none ↦ p
  | some wm ↦
      if wm == resource
      then record p {
        wm_client = none;
        window_objects = [];
        manage_phase_active = false;
        render_phase_active = false;
        keybindings = [];
        wm_seat = none;
        active_mode = "";
        borders = [];
      }
      else p
]

pub data WindowRequest : Type 0 where
  propose_dimensions : ℤ → ℤ → WindowRequest
  set_focus use_ssd use_csd grant_fullscreen deny_fullscreen close : WindowRequest
  set_position : ℤ → ℤ → WindowRequest
  set_z_top set_z_bottom show hide : WindowRequest
  set_z_above set_z_below : ObjectId → WindowRequest
  set_borders : ℕ → ℕ → ℕ → ℕ → ℤ → WindowRequest
  set_output : String → WindowRequest
  destroy_window : WindowRequest

-- The calls of `WmProtocolHandler`.
pub data Action : Type 0 where
  configure_window : WindowId → ℤ → ℤ → Action
  focus_window close_window : WindowId → Action
  set_fullscreen : WindowId → Bool → Action
  set_decoration : WindowId → DecorationMode → Action

-- A change to the first pending command of the window, or a new command with that change.
unfoldable pub change_command :
    WindowId → (RenderCommand → RenderCommand) → List RenderCommand → List RenderCommand
change_command id f [] =
    f (record { id = id; position = (pos 0, pos 0); z_order = preserve; visible = true }) ∷ []
change_command id f (c ∷ cs) = if c.id == id then f c ∷ cs else c ∷ change_command id f cs

abbrev pub pend : WmProtocolState → WindowId → (RenderCommand → RenderCommand) → WmProtocolState
pend p id f = record p { pending_render_commands = change_command id f p.pending_render_commands }

abbrev pub z_ordered : ZOrder → RenderCommand → RenderCommand
z_ordered z c = record c { z_order = z }

abbrev put_border : WmProtocolState → WindowId → Option BorderSpec → WmProtocolState
put_border p id none = record p { borders = erase id p.borders }
put_border p id (some spec) = record p { borders = insert id spec p.borders }

-- `request` of a window
unfoldable pub window_request :
    WmProtocolState → WindowId → WindowRequest → WmProtocolState × Option Action
unfolding change_command from_protocol window_id_for_resource set_window_output
window_request p id (propose_dimensions width height) = (p, some (configure_window id width height))
window_request p id set_focus = (p, some (focus_window id))
window_request p id use_ssd = (p, some (set_decoration id server_side))
window_request p id use_csd = (p, some (set_decoration id client_side))
window_request p id grant_fullscreen = (p, some (set_fullscreen id true))
window_request p id deny_fullscreen = (p, some (set_fullscreen id false))
window_request p id close = (p, some (close_window id))
window_request p id (set_position x y) = (
  record p {
    pending_render_commands =
        p.pending_render_commands
        ++ record { id = id; position = (x, y); z_order = preserve; visible = true } ∷ [];
  },
  none,
)
window_request p id set_z_top = (pend p id (z_ordered top), none)
window_request p id set_z_bottom = (pend p id (z_ordered bottom), none)
window_request p id show = (pend p id (λ c. record c { visible = true }), none)
window_request p id hide = (pend p id (λ c. record c { visible = false }), none)
window_request p id (set_z_above sibling) = elim (window_id_for_resource p.window_objects sibling) [
  | none ↦ (p, none)
  | some s ↦ (pend p id (z_ordered (above s)), none)
]
window_request p id (set_z_below sibling) = elim (window_id_for_resource p.window_objects sibling) [
  | none ↦ (p, none)
  | some s ↦ (pend p id (z_ordered (below s)), none)
]
window_request p id (set_borders red green blue alpha width) =
    (put_border p id (from_protocol red green blue alpha width), none)
window_request p id (set_output name) =
    (record p { workspace = set_window_output p.workspace id name }, none)
window_request p id destroy_window = (p, none)

-- `destroyed` of a window object
unfoldable pub window_destroyed : WmProtocolState → WindowId → WmProtocolState
window_destroyed p id = record p {
  window_objects = erase id p.window_objects;
  borders = erase id p.borders;
}

pub data SeatRequest : Type 0 where
  bind_key unbind_key : ℕ → ℕ → String → SeatRequest
  create_mode activate_mode : String → SeatRequest
  start_move start_resize destroy_seat : SeatRequest

-- The first request on a seat stores it.
abbrev store_seat : WmProtocolState → ObjectId → WmProtocolState
store_seat p resource = elim p.wm_seat [
  | none ↦ record p { wm_seat = some resource }
  | some seat ↦ p
]

abbrev seat_command : WmProtocolState → SeatRequest → WmProtocolState
seat_command p (bind_key key modifiers mode) = record p {
  keybindings =
      if has_binding p.keybindings key modifiers mode
      then p.keybindings
      else record { key = key; modifiers = modifiers; mode = mode } ∷ p.keybindings;
}
seat_command p (unbind_key key modifiers mode) = record p {
  keybindings = filter (λ b. not (is_binding key modifiers mode b)) p.keybindings;
}
seat_command p (create_mode name) = record p {
  binding_modes = name ∷ filter (λ m. not (m == name)) p.binding_modes;
}
seat_command p (activate_mode name) = record p { active_mode = name }
seat_command p start_move = p
seat_command p start_resize = p
seat_command p destroy_seat = record p { wm_seat = none; keybindings = [] }

-- `request` of a seat
unfoldable pub seat_request : WmProtocolState → ObjectId → SeatRequest → WmProtocolState
unfolding has_binding
seat_request p resource q = seat_command (store_seat p resource) q

pub data WorkspaceRequest : Type 0 where
  create destroy : String → WorkspaceRequest
  activate : String → String → WorkspaceRequest
  assign : ObjectId → String → WorkspaceRequest
  tag : ObjectId → ℕ → WorkspaceRequest
  activate_tags : String → ℕ → WorkspaceRequest
  destroy_manager_object : WorkspaceRequest

abbrev on_window : Option WindowId → (WindowId → WorkspaceState) → WmProtocolState → WmProtocolState
on_window none f p = p
on_window (some id) f p = record p { workspace = f id }

-- `request` of the workspace manager
unfoldable pub workspace_request : WmProtocolState → WorkspaceRequest → WmProtocolState
unfolding window_id_for_resource create_workspace destroy_workspace set_active_workspace
    assign_window set_window_tags set_active_tags
workspace_request p (create name) = record p { workspace = create_workspace p.workspace name }
workspace_request p (destroy name) = record p { workspace = destroy_workspace p.workspace name }
workspace_request p (activate output name) = record p {
  workspace = set_active_workspace p.workspace output name;
}
workspace_request p (assign window name) =
    on_window (window_id_for_resource p.window_objects window)
      (λ id. assign_window p.workspace id name) p
workspace_request p (tag window tags) =
    on_window (window_id_for_resource p.window_objects window)
      (λ id. set_window_tags p.workspace id tags) p
workspace_request p (activate_tags output tags) = record p {
  workspace = set_active_tags p.workspace output tags;
}
workspace_request p destroy_manager_object = record p { workspace_manager = none }
