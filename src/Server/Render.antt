-- ===== src/Server/Render.antt =====
-- crates/wrsrvd/src/backend/headless.rs: the start of `render_headless_frame`, where the commands of
-- a window manager are taken for the frame.
use wayray.Base.{◌≡◌, ap, ◌∙◌, Bool, true, false, Option, none, some, List, [], arith}
use wayray.Wm.Types.{WindowId, RenderCommand}
use wayray.Wm.Floating.{BuiltinFloatingWm, on_render}
use wayray.Wm.Protocol.{WmProtocolState, ObjectId, start_render_phase, take_render_commands}

-- `is_wm_connected`
abbrev pub is_wm_connected : Option ObjectId → Bool
is_wm_connected none = false
is_wm_connected (some manager) = true

-- `WmState`
pub record WmState : Type 0 where
  pub builtin : BuiltinFloatingWm
  pub protocol : Option WmProtocolState

abbrev pub with_manager :
    WmState → List WindowId → WmProtocolState → Bool → WmState × List RenderCommand
with_manager wm ids p true =
    let (p', commands) = take_render_commands (start_render_phase p) in
    (record wm { protocol = some p' }, commands)
with_manager wm ids p false = (wm, on_render wm.builtin ids)

abbrev pub for_protocol :
    WmState → List WindowId → Option WmProtocolState → WmState × List RenderCommand
for_protocol wm ids none = (wm, on_render wm.builtin ids)
for_protocol wm ids (some p) = with_manager wm ids p (is_wm_connected p.wm_client)

-- `let external_commands = match ...` and the choice between it and `apply_wm_render_commands`, for
-- the ids of the windows: the commands that are applied to the frame
unfoldable pub frame_commands : WmState → List WindowId → WmState × List RenderCommand
unfolding start_render_phase take_render_commands on_render
frame_commands wm ids = for_protocol wm ids wm.protocol

connected_dropped :
    (wm : WmState) (ids : List WindowId) (p : WmProtocolState) (manager : ObjectId)
    → p.wm_client ≡ some manager
    → (with_manager wm ids p true).1 ≡ []
unfolding start_render_phase take_render_commands
connected_dropped wm ids p manager f = ground (arith, f)

-- Of a connected window manager no command is ever applied: the commands that it has given since the
-- last frame are dropped when the render phase starts, right before they are taken.
pub frame_commands_dropped :
    (wm : WmState) (ids : List WindowId) (p : WmProtocolState) (manager : ObjectId)
    → wm.protocol ≡ some p
    → p.wm_client ≡ some manager
    → (frame_commands wm ids).1 ≡ []
unfolding frame_commands
frame_commands_dropped wm ids p manager e f =
    ap (λ o. (for_protocol wm ids o).1) e
    ∙ ap (λ o. (with_manager wm ids p (is_wm_connected o)).1) f
    ∙ connected_dropped wm ids p manager f
