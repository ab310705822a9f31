-- ===== src/Wm/Protocol/Pending.antt =====
-- The render commands that a render phase collects.
use wayray.Base.{
  nat_eq, string_eq, ◌≡◌, refl, ◌≢◌, true, false, List, [], ◌∷◌, ◌++◌, filter, arith, ◌==◌,
  Option-cases, inl, inr,
}
use wayray.Base.Int.{pos}
use wayray.Wm.Types.{WindowId, RenderCommand, preserve, top, bottom, above, below}
use wayray.Wm.Protocol.{WmProtocolState, window_id_for_resource}
use wayray.Wm.Protocol.Requests.{
  WindowRequest, window_request, change_command, z_ordered, propose_dimensions, set_focus, use_ssd,
  use_csd, grant_fullscreen, deny_fullscreen, close, set_position, set_z_top, set_z_bottom, show,
  hide, set_z_above, set_z_below, set_borders, set_output, destroy_window,
}

-- The commands for one window.
abbrev pub commands_of : WindowId → List RenderCommand → List RenderCommand
commands_of j cs = filter (λ (c : RenderCommand). c.id == j) cs

abbrev KeepsId : (RenderCommand → RenderCommand) → Type 0
KeepsId f = (c : RenderCommand) → (f c).id ≡ c.id

change_command-others :
    (id j : WindowId) (f : RenderCommand → RenderCommand) (cs : List RenderCommand)
    → KeepsId f
    → id ≢ j
    → commands_of j (change_command id f cs) ≡ commands_of j cs
unfolding change_command
change_command-others id j f [] keeps differ = ground (
  arith,
  keeps (record { id = id; position = (pos 0, pos 0); z_order = preserve; visible = true }),
)
change_command-others id j f (c ∷ cs) keeps differ =
    ground (arith, keeps c, change_command-others id j f cs keeps differ)

append-others :
    (j : WindowId) (cs : List RenderCommand) (c : RenderCommand)
    → c.id ≢ j
    → commands_of j (cs ++ c ∷ []) ≡ commands_of j cs
append-others j [] c differ = ground arith
append-others j (x ∷ cs) c differ = ground (arith, append-others j cs c differ)

-- Whatever a window object asks for, the pending commands of the other windows stay as they are.
pub window_request-others :
    (p : WmProtocolState) (id j : WindowId) (q : WindowRequest)
    → id ≢ j
    → commands_of j (window_request p id q).0.pending_render_commands
      ≡ commands_of j p.pending_render_commands
unfolding window_request
window_request-others p id j (propose_dimensions width height) differ = refl
window_request-others p id j set_focus differ = refl
window_request-others p id j use_ssd differ = refl
window_request-others p id j use_csd differ = refl
window_request-others p id j grant_fullscreen differ = refl
window_request-others p id j deny_fullscreen differ = refl
window_request-others p id j close differ = refl
window_request-others p id j (set_position x y) differ =
    append-others j p.pending_render_commands _ differ
window_request-others p id j set_z_top differ =
    change_command-others id j (z_ordered top) p.pending_render_commands (λ c. refl) differ
window_request-others p id j set_z_bottom differ =
    change_command-others id j (z_ordered bottom) p.pending_render_commands (λ c. refl) differ
window_request-others p id j show differ =
    change_command-others id j (λ c. record c { visible = true }) p.pending_render_commands
      (λ c. refl) differ
window_request-others p id j hide differ =
    change_command-others id j (λ c. record c { visible = false }) p.pending_render_commands
      (λ c. refl) differ
window_request-others p id j (set_z_above sibling) differ =
    elim (Option-cases (window_id_for_resource p.window_objects sibling)) [
      | inl e ↦ rw (e, window_request) refl
      | inr (s, e) ↦
          rw (e, window_request)
            (change_command-others id j (z_ordered (above s)) p.pending_render_commands (λ c. refl)
              differ)
    ]
window_request-others p id j (set_z_below sibling) differ =
    elim (Option-cases (window_id_for_resource p.window_objects sibling)) [
      | inl e ↦ rw (e, window_request) refl
      | inr (s, e) ↦
          rw (e, window_request)
            (change_command-others id j (z_ordered (below s)) p.pending_render_commands (λ c. refl)
              differ)
    ]
window_request-others p id j (set_borders red green blue alpha width) differ = ground arith
window_request-others p id j (set_output name) differ = refl
window_request-others p id j destroy_window differ = refl
