-- ===== src/Wm/Tests.antt =====
-- Tests of the window management at concrete stacks, workspaces and windows.
use mathlib.Core.List.{Perm, Memᴰ}
use wayray.Base.{
  Option, ◌++◌, String, nat_eq, string_eq, ◌+◌, ◌<◌, ◌^◌, ◌≡◌, ◌≢◌, ◌⊎◌, refl, true, none, some,
  List, [], ◌∷◌, ◌!=◌, if◌then◌else◌, arith, length, filter,
}
use wayray.Base.Int.{pos, ◌-ℤ◌, ◌/ℤ◌}
use wayray.Base.Dict.{contains_key, lookup, keys, insert, erase}
use wayray.Base.Member.{contains}
use wayray.Wm.Types.{WindowId, WindowInfo, RenderCommand, above, below}
use wayray.Wm.Restack.{restack}
use wayray.Wm.Restack.Order.{restack-perm}
use wayray.Wm.Restack.Directives.{Obeys, restack_last_wins}
use wayray.Wm.Workspace.{
  WorkspaceState, default, output_key, set_active_workspace, assign_window, set_window_tags,
  destroy_workspace, is_visible, create_workspace,
}
use wayray.Wm.Workspace.Modes
use wayray.Wm.Workspace.Modes.{
  Request, create, destroy, activate, assign, tag, handle, handle_all, modes_exclusive, start-Inv,
}
use wayray.Wm.Workspace.Visibility.{is_name, active-destroy_workspace, is_visible-destroy_workspace}
use wayray.Wm.Workspace.Names.{IsLeast}
use wayray.Wm.Floating.{
  BuiltinFloatingWm, new, focused, key_tab, key_left, mod_alt, left_half, from_key, geometry_of,
  on_key_binding, on_pointer_focus, on_new_toplevel, on_close_toplevel, new_size, last, centred,
  hint_axis,
}
use wayray.Wm.Floating.Focus
use wayray.Wm.Floating.Events.{opens, on_event, on_event-Inv}
use wayray.Wm.Floating.Cycle.{
  IsOnTop, alt_tabs, on_pointer_focus_lem, on_close-on_new_toplevel, alt_tabs_cycle,
}

abbrev stack : List WindowId
stack = 1 ∷ 2 ∷ 3 ∷ 4 ∷ []

abbrev raise_one : RenderCommand
raise_one = record { id = 1; position = (pos 0, pos 0); z_order = above 3; visible = true }

abbrev lower_four : RenderCommand
lower_four = record { id = 4; position = (pos 0, pos 0); z_order = below 2; visible = true }

restack-perm_example : Perm (restack stack (raise_one ∷ lower_four ∷ [])) stack
restack-perm_example = restack-perm stack (raise_one ∷ lower_four ∷ [])

restack_last_wins_example :
    Obeys 4 (below 2) (restack stack (raise_one ∷ [])) (restack stack (raise_one ∷ lower_four ∷ []))
restack_last_wins_example =
    restack_last_wins stack (raise_one ∷ []) lower_four
      ∣ Memᴰ.tail (Memᴰ.tail (Memᴰ.tail (Memᴰ.head refl))) ∣₁
      ((λ e. omega arith), ∣ Memᴰ.tail (Memᴰ.head refl) ∣₁)

abbrev requests : List Request
requests = create "web" ∷ create "mail" ∷ activate "wayray-0" "web" ∷ assign 1 "web" ∷ tag 2 6 ∷ []

abbrev desk : WorkspaceState
desk = handle_all default requests

desk-Inv : Modes.Inv desk
desk-Inv = start-Inv requests

modes_exclusive_example :
    (lookup 2 desk.window_tags ≡ none) ⊎ (lookup 2 desk.window_workspace ≡ none)
modes_exclusive_example = modes_exclusive requests 2

desk_unplaced : (id : WindowId) → lookup id desk.window_output ≡ none
unfolding handle_all handle default create_workspace set_active_workspace assign_window
    set_window_tags lookup
desk_unplaced id = refl

abbrev two_outputs : WorkspaceState
two_outputs = set_active_workspace desk "hdmi" "mail"

two_outputs_differ : output_key two_outputs "hdmi" ≢ output_key two_outputs "wayray-0"
unfolding handle_all handle default create_workspace set_active_workspace assign_window
    set_window_tags lookup insert output_key string_eq
two_outputs_differ e = cc

active-destroy_workspace_example :
    let active = lookup "wayray-0" (destroy_workspace desk "web").active in
    (least : Option String) × IsLeast least (keys (destroy_workspace desk "web").workspaces)
    × (active ≡ (
        if is_name "web" (lookup "wayray-0" desk.active)
        then least
        else lookup "wayray-0" desk.active))
    × (active ≢ some "web")
active-destroy_workspace_example = active-destroy_workspace desk "web" "wayray-0" desk-Inv

desk_one : lookup 1 desk.window_workspace ≡ some "web"
unfolding handle_all handle default create_workspace set_active_workspace assign_window
    set_window_tags lookup erase insert nat_eq
desk_one = refl

is_visible-destroy_workspace_example : is_visible (destroy_workspace desk "web") 1 "hdmi" ≡ true
is_visible-destroy_workspace_example =
    is_visible-destroy_workspace desk "web" "hdmi" 1 desk-Inv desk_one (desk_unplaced 1)

abbrev screen : BuiltinFloatingWm
screen = new (pos 1280) (pos 720)

abbrev plain : WindowInfo
plain = record {
  title = some "term";
  app_id = none;
  output_width = pos 1280;
  output_height = pos 720;
  min_size = none;
  max_size = none;
}

abbrev hinted : WindowInfo
hinted = record plain { min_size = some (pos 200, pos 100); max_size = some (pos 640, pos 480) }

abbrev one_open : BuiltinFloatingWm
one_open = on_event screen (opens 1 plain)

abbrev two_open : BuiltinFloatingWm
two_open = on_event one_open (opens 2 plain)

screen-Inv : Focus.Inv screen
unfolding new lookup contains
screen-Inv = record { stacked = λ id. refl; distinct = tt; fresh = λ id s h. cc }

one_open-Inv : Focus.Inv one_open
unfolding new lookup
one_open-Inv = on_event-Inv screen (opens 1 plain) refl (omega arith) screen-Inv

two_fits : lookup 2 one_open.windows ≡ none
unfolding on_event new on_new_toplevel lookup insert nat_eq
two_fits = refl

one_room : one_open.next_z + 1 < 2 ^ 32
unfolding on_event new on_new_toplevel
one_room = omega arith

two_open-Inv : Focus.Inv two_open
two_open-Inv = on_event-Inv one_open (opens 2 plain) two_fits one_room one_open-Inv

on_event-Inv_example : Focus.Inv (on_event one_open (opens 2 plain))
on_event-Inv_example = on_event-Inv one_open (opens 2 plain) two_fits one_room one_open-Inv

two_has_one : contains_key 1 two_open.windows ≡ true
unfolding on_event new on_new_toplevel lookup insert nat_eq
two_has_one = refl

on_pointer_focus_lem_example :
    let (m', target) = on_pointer_focus two_open 1 in
    (target ≡ some 1)
    × (focused m' ≡ some 1)
    × (filter (λ w. w != 1) m'.focus_stack ≡ filter (λ w. w != 1) two_open.focus_stack)
    × IsOnTop 1 m' (lookup 1 m'.windows)
on_pointer_focus_lem_example = on_pointer_focus_lem two_open 1 two_open-Inv two_has_one

on_close-on_new_toplevel_example :
    let opened = (on_new_toplevel one_open 2 plain).0 in
    (focused opened ≡ some 2)
    × ((on_close_toplevel opened 2).focus_stack ≡ one_open.focus_stack)
    × (focused (on_close_toplevel opened 2) ≡ focused one_open)
    × ((j : WindowId) → lookup j (on_close_toplevel opened 2).windows ≡ lookup j one_open.windows)
on_close-on_new_toplevel_example = on_close-on_new_toplevel one_open 2 plain one_open-Inv two_fits

alt_tabs_cycle_example :
    ((below : List WindowId) (top : WindowId)
      → two_open.focus_stack ≡ below ++ top ∷ []
      → ((on_key_binding two_open key_tab mod_alt).0.focus_stack ≡ top ∷ below)
        × (focused (on_key_binding two_open key_tab mod_alt).0 ≡ last (top ∷ below)))
    × ((alt_tabs (length two_open.focus_stack) two_open).focus_stack ≡ two_open.focus_stack)
alt_tabs_cycle_example = alt_tabs_cycle two_open

one_focused : focused one_open ≡ some 1
unfolding on_event new on_new_toplevel focused last
one_focused = refl

one_geometry : geometry_of one_open 1 ≡ some ((pos 240, pos 60), (pos 800, pos 600))
unfolding on_event new on_new_toplevel lookup insert nat_eq geometry_of new_size centred hint_axis
    ◌-ℤ◌ ◌/ℤ◌
one_geometry = refl

left_key : from_key key_left ≡ some left_half
unfolding from_key nat_eq
left_key = refl
