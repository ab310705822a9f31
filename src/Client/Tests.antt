-- ===== src/Client/Tests.antt =====
-- Tests of the client.
use wayray.Base.{
  ◌*◌, ◌≤◌, refl, true, false, zero, suc, none, some, List, [], ◌∷◌, length, string_eq, nat_eq,
}
use wayray.Base.Member.{contains}
use wayray.Client.Input.{ModifiersState, WindowEvent, keyboard_input, modifiers_changed, key_a}
use wayray.Client.Input.Modifiers.{Mirrors, track, window_events, track-window_events}
use wayray.Client.Redirects.{Candidate, Network, redirect, connected, connect_following_redirects}
use wayray.Client.Redirects.Trusted.{AllTrusted, connect_following_redirects-AllTrusted}

abbrev no_modifiers : ModifiersState
no_modifiers = record { shift_key = false; control_key = false; alt_key = false; super_key = false }

nothing_held : Mirrors no_modifiers []
unfolding contains
nothing_held = record {
  shift = refl;
  right_shift = refl;
  ctrl = refl;
  right_ctrl = refl;
  alt = refl;
  right_alt = refl;
  meta = refl;
  right_meta = refl;
}

-- an "A" that is typed with caps lock, then Shift is held
abbrev typing : List WindowEvent
typing =
    keyboard_input (record { physical_key = some key_a; is_down = true; text = some (65 ∷ []) })
    ∷ modifiers_changed (record no_modifiers { shift_key = true })
    ∷ []

track-window_events_example :
    let (m, sent) = window_events no_modifiers typing in Mirrors m (track [] sent)
track-window_events_example = track-window_events no_modifiers [] typing nothing_held

abbrev front : Candidate
front = record { addr = "10.0.0.1:4433"; name = "front"; fingerprint = none }

abbrev home : Candidate
home = record { addr = "10.0.0.2:4433"; name = "home"; fingerprint = some "sha256:aa" }

-- Every server redirects the client home but the home server itself.
abbrev redirecting : Network
redirecting = record {
  connect = λ n c. elim n [ zero ↦ redirect "home" "10.0.0.2:4433" | suc m ↦ connected ];
  resolve_server_addr = some;
  allowed = (home.addr, home) ∷ [];
}

connect_following_redirects-AllTrusted_example :
    let contacted = (connect_following_redirects redirecting true (front ∷ []) 0).1 in
    AllTrusted redirecting (front ∷ []) contacted × (length contacted ≤ 1 * 4)
connect_following_redirects-AllTrusted_example =
    connect_following_redirects-AllTrusted redirecting true (front ∷ []) 0
