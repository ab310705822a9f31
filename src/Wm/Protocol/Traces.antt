-- ===== src/Wm/Protocol/Traces.antt =====
-- Every sequence of calls and requests on the protocol state.
use wayray.Base.{
  nat_eq, string_eq, ℕ, ◌≤◌, ◌≡◌, refl, subst, false, Option, none, some, List, [], ◌∷◌, arith,
  Option-cases, inl, inr,
}
use wayray.Base.Int.{ℤ, pos, ◌<ℤ◌}
use wayray.Base.Dict.{lookup, insert, erase, lookup-insert, lookup-erase}
use wayray.Wm.Types.{WindowId}
use wayray.Wm.Protocol.{
  WmProtocolState, ObjectId, BorderSpec, from_protocol, start, notify_new_window,
  notify_window_closed, start_manage_phase, start_render_phase, take_render_commands,
}
use wayray.Wm.Protocol.Requests.{
  bind, ManagerRequest, manager_request, manager_destroyed, WindowRequest, set_z_above, set_z_below,
  set_borders, window_request, window_destroyed, SeatRequest, seat_request, WorkspaceRequest,
  workspace_request,
}
use wayray.Wm.Protocol.Connection.{bind-SameSetup}

-- A call by the compositor, or a message of the client.
pub data Message : Type 0 where
  new_window : WindowId → Option ObjectId → Message
  window_closed window_gone : WindowId → Message
  manage_start render_start renders : Message
  connects : ObjectId → List (WindowId × ObjectId) → Message
  disconnects : ObjectId → Message
  from_manager : ManagerRequest → Message
  from_window : WindowId → WindowRequest → Message
  from_seat : ObjectId → SeatRequest → Message
  from_workspace : WorkspaceRequest → Message

unfoldable pub deliver : WmProtocolState → Message → WmProtocolState
deliver p (new_window id object) = notify_new_window p id object
deliver p (window_closed id) = notify_window_closed p id
deliver p (window_gone id) = window_destroyed p id
deliver p manage_start = start_manage_phase p
deliver p render_start = start_render_phase p
deliver p renders = (take_render_commands p).0
deliver p (connects manager existing) = bind p manager existing
deliver p (disconnects manager) = manager_destroyed p manager
deliver p (from_manager q) = manager_request p q
deliver p (from_window id q) = (window_request p id q).0
deliver p (from_seat seat q) = seat_request p seat q
deliver p (from_workspace q) = workspace_request p q

unfoldable pub deliver_all : WmProtocolState → List Message → WmProtocolState
deliver_all p [] = p
deliver_all p (m ∷ ms) = deliver_all (deliver p m) ms

-- A border that can be drawn.
pub record IsDrawable (b : BorderSpec) : Type 0 where
  pub red : b.red ≤ 255
  pub green : b.green ≤ 255
  pub blue : b.blue ≤ 255
  pub alpha : b.alpha ≤ 255
  pub width : pos 0 <ℤ b.width

-- Every border can be drawn, and no phase is in progress while no window manager is connected.
pub record Inv (p : WmProtocolState) : Type 0 where
  pub drawable : (id : WindowId) (b : BorderSpec) → lookup id p.borders ≡ some b → IsDrawable b
  pub idle : p.wm_client ≡ none → (p.manage_phase_active ≡ false) × (p.render_phase_active ≡ false)

from_protocol-IsDrawable :
    (red green blue alpha : ℕ) (width : ℤ) (b : BorderSpec)
    → from_protocol red green blue alpha width ≡ some b
    → IsDrawable b
unfolding from_protocol
from_protocol-IsDrawable red green blue alpha width b e = record {
  red = ground arith;
  green = ground arith;
  blue = ground arith;
  alpha = ground arith;
  width = ground arith;
}

-- The part of the state that the invariant reads.
keep :
    (p q : WmProtocolState)
    → q.borders ≡ p.borders
    → q.wm_client ≡ p.wm_client
    → q.manage_phase_active ≡ p.manage_phase_active
    → q.render_phase_active ≡ p.render_phase_active
    → Inv p
    → Inv q
keep p q b c m r v = record {
  drawable = λ id s h. v.drawable id s (ground arith);
  idle = λ e. ground (arith, v.idle);
}

erase_border :
    (p : WmProtocolState) (id : WindowId) → Inv p → Inv (record p { borders = erase id p.borders })
erase_border p id v = record {
  drawable = λ j b h. v.drawable j b (ground (arith, lookup-erase j id p.borders));
  idle = v.idle;
}

insert_border :
    (p : WmProtocolState) (id : WindowId) (b : BorderSpec)
    → IsDrawable b
    → Inv p
    → Inv (record p { borders = insert id b p.borders })
insert_border p id b d v = record {
  drawable = λ j c h. elim (Option-cases (lookup j p.borders)) [
    | inl e ↦ subst IsDrawable (ground (arith, lookup-insert j id b p.borders)) d
    | inr (old, e) ↦ elim (nat_eq.dec id j) [
      | yes same ↦ subst IsDrawable (ground (arith, lookup-insert j id b p.borders)) d
      | no differ ↦ v.drawable j c (ground (arith, lookup-insert j id b p.borders))
    ]
  ];
  idle = v.idle;
}

window_request-Inv :
    (p : WmProtocolState) (id : WindowId) (q : WindowRequest)
    → Inv p
    → Inv (window_request p id q).0
unfolding window_request
window_request-Inv p id (set_borders red green blue alpha width) v =
    elim (Option-cases (from_protocol red green blue alpha width)) [
      | inl e ↦ rw (e, window_request) (erase_border p id v)
      | inr (b, e) ↦
          rw (e, window_request)
            (insert_border p id b (from_protocol-IsDrawable red green blue alpha width b e) v)
    ]
window_request-Inv p id (set_z_above sibling) v =
    keep p (window_request p id (set_z_above sibling)).0 (ground arith) (ground arith)
      (ground arith) (ground arith) v
window_request-Inv p id (set_z_below sibling) v =
    keep p (window_request p id (set_z_below sibling)).0 (ground arith) (ground arith)
      (ground arith) (ground arith) v
window_request-Inv p id q v = keep p (window_request p id q).0 refl refl refl refl v

seat_request-Inv :
    (p : WmProtocolState) (seat : ObjectId) (q : SeatRequest) → Inv p → Inv (seat_request p seat q)
unfolding seat_request
seat_request-Inv p seat q v =
    keep p (seat_request p seat q) (ground arith) (ground arith) (ground arith) (ground arith) v

workspace_request-Inv :
    (p : WmProtocolState) (q : WorkspaceRequest) → Inv p → Inv (workspace_request p q)
unfolding workspace_request
workspace_request-Inv p q v =
    keep p (workspace_request p q) (ground arith) (ground arith) (ground arith) (ground arith) v

bind-Inv :
    (p : WmProtocolState) (new : ObjectId) (ws : List (WindowId × ObjectId))
    → Inv p
    → Inv (bind p new ws)
unfolding lookup
bind-Inv p new ws v = record {
  drawable = λ id b h. v.drawable id b (ground (arith, (bind-SameSetup p new ws).borders));
  idle = λ e. absurd (ground (arith, (bind-SameSetup p new ws).client));
}

manager_destroyed-Inv : (p : WmProtocolState) (wm : ObjectId) → Inv p → Inv (manager_destroyed p wm)
unfolding manager_destroyed lookup
manager_destroyed-Inv p wm v = record {
  drawable = λ id b h. v.drawable id b (ground arith);
  idle = λ e. ground (arith, v.idle);
}

deliver-Inv : (p : WmProtocolState) (m : Message) → Inv p → Inv (deliver p m)
unfolding deliver notify_new_window notify_window_closed start_manage_phase start_render_phase
    take_render_commands manager_request window_destroyed
deliver-Inv p (new_window id object) v =
    keep p (notify_new_window p id object) (ground arith) (ground arith) (ground arith)
      (ground arith) v
deliver-Inv p (window_closed id) v =
    keep (record p { borders = erase id p.borders }) (notify_window_closed p id) (ground arith)
      (ground arith) (ground arith) (ground arith) (erase_border p id v)
deliver-Inv p (window_gone id) v =
    keep (record p { borders = erase id p.borders }) (window_destroyed p id) refl refl refl refl
      (erase_border p id v)
deliver-Inv p manage_start v = record {
  drawable = λ id b h. v.drawable id b (ground arith);
  idle = λ e. ground (arith, v.idle);
}
deliver-Inv p render_start v = record {
  drawable = λ id b h. v.drawable id b (ground arith);
  idle = λ e. ground (arith, v.idle);
}
deliver-Inv p renders v = record { drawable = v.drawable; idle = v.idle }
deliver-Inv p (connects manager existing) v = bind-Inv p manager existing v
deliver-Inv p (disconnects manager) v = manager_destroyed-Inv p manager v
deliver-Inv p (from_manager q) v = record {
  drawable = λ id b h. v.drawable id b (ground arith);
  idle = λ e. ground (arith, v.idle);
}
deliver-Inv p (from_window id q) v = window_request-Inv p id q v
deliver-Inv p (from_seat seat q) v = seat_request-Inv p seat q v
deliver-Inv p (from_workspace q) v = workspace_request-Inv p q v

deliver_all-Inv : (p : WmProtocolState) (ms : List Message) → Inv p → Inv (deliver_all p ms)
unfolding deliver_all
deliver_all-Inv p [] v = v
deliver_all-Inv p (m ∷ ms) v = deliver_all-Inv (deliver p m) ms (deliver-Inv p m v)

start-Inv : Inv start
unfolding start lookup
start-Inv = record { drawable = λ id b h. cc; idle = λ e. (refl, refl) }

-- Whatever the compositor and its clients do, in whatever order, every border has a positive width
-- and channels of at most 255, and no phase is in progress while no window manager is connected.
pub deliver_all-start : (ms : List Message) → Inv (deliver_all start ms)
deliver_all-start ms = deliver_all-Inv start ms start-Inv
