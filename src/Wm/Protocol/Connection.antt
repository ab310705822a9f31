-- ===== src/Wm/Protocol/Connection.antt =====
-- Connection, replacement and disconnection of the external window manager.
use wayray.Base.{
  nat_eq, string_eq, ℕ, ◌≡◌, refl, ◌≢◌, String, Bool, true, false, none, some, List, [], ◌∷◌, arith,
  ◌⊎◌, inl, inr, ◌∙◌, if◌then◌else◌,
}
use wayray.Base.Dict.{insert}
use wayray.Wm.Types.{WindowId}
use wayray.Wm.Protocol.{
  WmProtocolState, ObjectId, send_full_window_list, start_manage_phase, start_render_phase,
  check_key_binding, has_binding, binding_pressed, binding_released,
}
use wayray.Wm.Protocol.Requests.{replace_old, bind, manager_destroyed, seat_request, bind_key}

-- What the resent window list leaves alone.
pub record SameSetup (p q : WmProtocolState) : Type 0 where
  pub client : q.wm_client ≡ p.wm_client
  pub seat : q.wm_seat ≡ p.wm_seat
  pub mode : q.active_mode ≡ p.active_mode
  pub borders : q.borders ≡ p.borders
  pub manage : q.manage_phase_active ≡ p.manage_phase_active
  pub render : q.render_phase_active ≡ p.render_phase_active

pub send_full_window_list-SameSetup :
    (ws : List (WindowId × ObjectId)) (p : WmProtocolState)
    → SameSetup p (send_full_window_list p ws)
unfolding send_full_window_list
send_full_window_list-SameSetup [] p = record {
  client = refl;
  seat = refl;
  mode = refl;
  borders = refl;
  manage = refl;
  render = refl;
}
send_full_window_list-SameSetup ((id, o) ∷ ws) p =
    let s =
      send_full_window_list-SameSetup ws
        (record p { window_objects = insert id o p.window_objects }) in
    record {
      client = s.client;
      seat = s.seat;
      mode = s.mode;
      borders = s.borders;
      manage = s.manage;
      render = s.render;
    }

pub bind-SameSetup :
    (p : WmProtocolState) (new : ObjectId) (ws : List (WindowId × ObjectId))
    → SameSetup (record (replace_old p) { wm_client = some new }) (bind p new ws)
unfolding bind
bind-SameSetup p new ws =
    send_full_window_list-SameSetup ws (record (replace_old p) { wm_client = some new })

bind-client :
    (p : WmProtocolState) (new : ObjectId) (ws : List (WindowId × ObjectId))
    → (bind p new ws).wm_client ≡ some new
bind-client p new ws = (bind-SameSetup p new ws).client

bind-seat :
    (p : WmProtocolState) (new : ObjectId) (ws : List (WindowId × ObjectId))
    → (bind p new ws).wm_seat ≡ p.wm_seat
bind-seat p new ws = ground (arith, (bind-SameSetup p new ws).seat)

bind-mode :
    (p : WmProtocolState) (new : ObjectId) (ws : List (WindowId × ObjectId))
    → (bind p new ws).active_mode ≡ p.active_mode
bind-mode p new ws = ground (arith, (bind-SameSetup p new ws).mode)

-- When a window manager has been replaced, the end of the old one's connection changes nothing.
pub manager_destroyed-bind :
    (p : WmProtocolState) (old new : ObjectId) (ws : List (WindowId × ObjectId))
    → new ≢ old
    → manager_destroyed (bind p new ws) old ≡ bind p new ws
unfolding manager_destroyed
manager_destroyed-bind p old new ws differ = ground (arith, bind-client p new ws)

-- When the window manager disconnects, no phase is in progress and none can begin, no key is bound
-- any more, and the workspaces are kept for the next one.
pub manager_destroyed_lem :
    (p : WmProtocolState) (wm : ObjectId) (key modifiers : ℕ) (pressed : Bool)
    → p.wm_client ≡ some wm
    → let q = manager_destroyed p wm in
      (q.manage_phase_active ≡ false)
      × (q.render_phase_active ≡ false)
      × (start_manage_phase q ≡ q)
      × (start_render_phase q ≡ q)
      × (check_key_binding q key modifiers pressed ≡ (false, none))
      × (q.workspace ≡ p.workspace)
unfolding manager_destroyed start_manage_phase start_render_phase check_key_binding has_binding
manager_destroyed_lem p wm key modifiers pressed e = ground arith

has_bound :
    (p : WmProtocolState) (seat : ObjectId) (key modifiers : ℕ) (mode : String)
    → has_binding (seat_request p seat (bind_key key modifiers mode)).keybindings key modifiers mode
      ≡ true
unfolding seat_request has_binding
has_bound p seat key modifiers mode = ground arith

seat_request-seat :
    (p : WmProtocolState) (seat other : ObjectId) (key modifiers : ℕ) (mode : String)
    → p.wm_seat ≡ some seat
    → (seat_request p other (bind_key key modifiers mode)).wm_seat ≡ some seat
unfolding seat_request
seat_request-seat p seat other key modifiers mode e = ground arith

bind_key-mode :
    (p : WmProtocolState) (seat : ObjectId) (key modifiers : ℕ) (mode : String)
    → (seat_request p seat (bind_key key modifiers mode)).active_mode ≡ p.active_mode
unfolding seat_request
bind_key-mode p seat key modifiers mode = ground arith

-- A key that is bound in a mode that is in force has its events sent to the seat that is stored.
bound_key_event :
    (q : WmProtocolState) (seat : ObjectId) (key modifiers : ℕ) (mode : String) (pressed : Bool)
    → has_binding q.keybindings key modifiers mode ≡ true
    → q.wm_seat ≡ some seat
    → (mode ≡ "") ⊎ ((mode ≢ "") × (q.active_mode ≡ mode))
    → check_key_binding q key modifiers pressed ≡ (
      true,
      some (
          if pressed
          then binding_pressed seat key modifiers
          else binding_released seat key modifiers),
    )
unfolding check_key_binding
bound_key_event q seat key modifiers mode true bound stored (inl plain) = ground arith
bound_key_event q seat key modifiers mode false bound stored (inl plain) = ground arith
bound_key_event q seat key modifiers mode true bound stored (inr (named, same)) = ground arith
bound_key_event q seat key modifiers mode false bound stored (inr (named, same)) = ground arith

-- A window manager that replaces another one which had a seat does not get the events of a key that
-- it binds, as its first request to its seat, in the default mode or in the mode that is active: a
-- press and a release of that key go on to the seat of the replaced one.
pub replaced_seat_gets_keys :
    (p : WmProtocolState) (new seat own : ObjectId) (ws : List (WindowId × ObjectId))
    (key modifiers : ℕ) (mode : String) (pressed : Bool)
    → p.wm_seat ≡ some seat
    → (mode ≡ "") ⊎ ((mode ≢ "") × (p.active_mode ≡ mode))
    → check_key_binding
        (seat_request (bind p new ws) own (bind_key key modifiers mode))
        key
        modifiers
        pressed
      ≡ (
        true,
        some (
            if pressed
            then binding_pressed seat key modifiers
            else binding_released seat key modifiers),
      )
replaced_seat_gets_keys p new seat own ws key modifiers mode pressed e in_force =
    let q = seat_request (bind p new ws) own (bind_key key modifiers mode) in
    bound_key_event q seat key modifiers mode pressed
      (has_bound (bind p new ws) own key modifiers mode)
      (seat_request-seat (bind p new ws) seat own key modifiers mode (bind-seat p new ws ∙ e))
      (elim in_force [
        | inl plain ↦ inl plain
        | inr (named, same) ↦ inr (
          named,
          bind_key-mode (bind p new ws) own key modifiers mode ∙ bind-mode p new ws ∙ same,
        )
      ])
