-- ===== src/Wm/Protocol/Bindings.antt =====
-- The key bindings of the window manager.
use wayray.Base.{
  nat_eq, string_eq, ℕ, ◌≡◌, ◌≢◌, ◌↔◌, ◌⊎◌, String, Bool, true, not, ◌&&◌, ◌||◌, List, [], ◌∷◌,
  filter, arith, ◌==◌,
}
use wayray.Wm.Protocol.{
  WmProtocolState, ObjectId, Binding, is_binding, has_binding, check_key_binding,
}
use wayray.Wm.Protocol.Requests.{seat_request, bind_key, unbind_key}

abbrev pub same_binding : ℕ → ℕ → String → ℕ → ℕ → String → Bool
same_binding key modifiers mode key' modifiers' mode' =
    (key == key' && modifiers == modifiers') && mode == mode'

has_binding-filter :
    (bs : List Binding) (key modifiers : ℕ) (mode : String) (key' modifiers' : ℕ) (mode' : String)
    → has_binding (filter (λ b. not (is_binding key modifiers mode b)) bs) key' modifiers' mode' ≡ (
        not (same_binding key modifiers mode key' modifiers' mode')
        && has_binding bs key' modifiers' mode')
unfolding has_binding
has_binding-filter [] key modifiers mode key' modifiers' mode' = ground arith
has_binding-filter (b ∷ bs) key modifiers mode key' modifiers' mode' =
    ground (arith, has_binding-filter bs key modifiers mode key' modifiers' mode')

-- Binding a key adds that key with its modifiers and mode, and unbinding removes it; every other
-- binding stays.
pub has_binding-seat_request :
    (p : WmProtocolState) (seat : ObjectId) (key modifiers : ℕ) (mode : String)
    (key' modifiers' : ℕ) (mode' : String)
    → let same = same_binding key modifiers mode key' modifiers' mode' in
      let had = has_binding p.keybindings key' modifiers' mode' in
      (has_binding
          (seat_request p seat (bind_key key modifiers mode)).keybindings
          key'
          modifiers'
          mode'
        ≡ (same || had))
      × (has_binding
            (seat_request p seat (unbind_key key modifiers mode)).keybindings
            key'
            modifiers'
            mode'
          ≡ (not same && had))
unfolding seat_request has_binding
has_binding-seat_request p seat key modifiers mode key' modifiers' mode' = (
  ground arith,
  ground (arith, has_binding-filter p.keybindings key modifiers mode key' modifiers' mode'),
)

-- A key is taken from the clients exactly if it is bound in the default mode or in another mode that
-- is active.
pub check_key_binding_iff :
    (p : WmProtocolState) (key modifiers : ℕ) (pressed : Bool)
    → ((check_key_binding p key modifiers pressed).0 ≡ true) ↔ (
        (has_binding p.keybindings key modifiers "" ≡ true)
        ⊎ ((p.active_mode ≢ "") × (has_binding p.keybindings key modifiers p.active_mode ≡ true)))
unfolding check_key_binding
check_key_binding_iff p key modifiers pressed = ground arith
