-- ===== src/Wm/Protocol/Tests.antt =====
-- Tests of the protocol state: a window manager 1 with the seat 2, and a second one 10.
use wayray.Base.{false, inl, nat_eq, string_eq, ◌≡◌, refl, true, some, List, [], ◌∷◌}
use wayray.Base.Int.{pos}
use wayray.Wm.Protocol.{
  WmProtocolState, start, send_full_window_list, start_manage_phase, notify_new_window,
  check_key_binding, binding_released,
}
use wayray.Wm.Protocol.Requests.{
  bind, seat_request, bind_key, window_request, set_position, set_borders,
}
use wayray.Wm.Protocol.Connection.{replaced_seat_gets_keys}
use wayray.Wm.Protocol.Traces
use wayray.Wm.Protocol.Traces.{
  Message, new_window, connects, manage_start, disconnects, from_window, from_seat, deliver,
  deliver_all, deliver_all-start,
}

abbrev messages : List Message
messages =
    connects 1 ((5, 6) ∷ [])
    ∷ new_window 7 (some 8)
    ∷ from_seat 2 (bind_key 15 8 "")
    ∷ from_seat 2 (bind_key 103 0 "resize")
    ∷ from_window 7 (set_borders 300 0 0 255 (pos 2))
    ∷ manage_start
    ∷ []

abbrev busy : WmProtocolState
busy = deliver_all start messages

deliver_all-start_example : Traces.Inv busy
deliver_all-start_example = deliver_all-start messages

busy_client : busy.wm_client ≡ some 1
unfolding deliver_all deliver bind send_full_window_list start start_manage_phase window_request
    seat_request notify_new_window
busy_client = refl

busy_seat : busy.wm_seat ≡ some 2
unfolding deliver_all deliver bind send_full_window_list start start_manage_phase window_request
    seat_request notify_new_window
busy_seat = refl

replaced_seat_gets_keys_example :
    check_key_binding (seat_request (bind busy 10 []) 12 (bind_key 62 8 "")) 62 8 false
    ≡ (true, some (binding_released 2 62 8))
replaced_seat_gets_keys_example =
    replaced_seat_gets_keys busy 10 2 12 [] 62 8 "" false busy_seat (inl refl)

abbrev placed : WmProtocolState
placed = (window_request busy 5 (set_position (pos 10) (pos 20))).0
