-- ===== src/Client/Input/Modifiers.antt =====
-- The modifiers of the client's keyboard (crates/wrclient), and those that the server tracks.
use wayray.Base.{
  ℕ, ◌≡◌, ◌∙◌, ap, refl, Bool, true, false, ◌||◌, Option, none, some, List, [], ◌∷◌, ◌++◌, ◌==◌,
  if◌then◌else◌, arith, nat_eq, Bool-cases, inl, inr,
}
use wayray.Base.Member.{contains, contains-filter_ne}
use wayray.Base.Dict.{is_some}
use wayray.Wire.Messages.{KeyboardEvent}
use wayray.Server.Keyboard.{modifier_bit, insert_key, remove_key, on_key, is_pressed}
use wayray.Client.Input.{
  KeyCode, ModifiersState, WindowEvent, keyboard_input, modifiers_changed, is_modifier_key,
  is_caps_lock, is_ascii_uppercase, same_bool, keycode_to_evdev, key_message, single_letter,
  with_case, convert_coded, convert_key, convert_physical, convert_keyboard, emit,
  convert_modifiers, window_event,
}

not_modifier :
    (code : KeyCode) (keycode : ℕ)
    → is_modifier_key code ≡ false
    → keycode_to_evdev code ≡ some keycode
    → modifier_bit keycode ≡ none
unfolding is_modifier_key keycode_to_evdev modifier_bit nat_eq
not_modifier code keycode h e = ground arith

-- the server's tracker over the messages of the client
unfoldable pub track : List ℕ → List KeyboardEvent → List ℕ
unfolding on_key
track held [] = held
track held (ev ∷ evs) = track (on_key held ev.keycode (is_pressed ev.state)) evs

track-append :
    (xs ys : List KeyboardEvent) (held : List ℕ) → track held (xs ++ ys) ≡ track (track held xs) ys
unfolding track
track-append [] ys held = refl
track-append (x ∷ xs) ys held = track-append xs ys _

-- The tracker holds exactly the left keys of the client's modifiers.
pub record Mirrors (m : ModifiersState) (held : List ℕ) : Type 0 where
  pub shift : contains 42 held ≡ m.shift_key
  pub right_shift : contains 54 held ≡ false
  pub ctrl : contains 29 held ≡ m.control_key
  pub right_ctrl : contains 97 held ≡ false
  pub alt : contains 56 held ≡ m.alt_key
  pub right_alt : contains 100 held ≡ false
  pub meta : contains 125 held ≡ m.super_key
  pub right_meta : contains 126 held ≡ false

contains-on_key :
    (j key : ℕ) (down : Bool) (held : List ℕ)
    → is_some (modifier_bit key) ≡ true
    → contains j (on_key held key down) ≡ (if key == j then down else contains j held)
unfolding on_key insert_key remove_key contains
contains-on_key j key true held h = rw h (ground arith)
contains-on_key j key false held h = rw h (ground (arith, contains-filter_ne j key held))

on_key_other :
    (held : List ℕ) (key : ℕ) (down : Bool) → modifier_bit key ≡ none → on_key held key down ≡ held
unfolding on_key
on_key_other held key down h = rw h refl

-- A toggle of a left modifier key makes the tracker follow.
emit-contains :
    (held : List ℕ) (was is : Bool) (key j : ℕ)
    → is_some (modifier_bit key) ≡ true
    → contains key held ≡ was
    → contains j (track held (emit was is key)) ≡ (if key == j then is else contains j held)
unfolding track
emit-contains held true true key j h e = ground arith
emit-contains held false false key j h e = ground arith
emit-contains held true false key j h e = contains-on_key j key false held h
emit-contains held false true key j h e = contains-on_key j key true held h

abbrev after_modifiers : ModifiersState → ModifiersState → List ℕ → List ℕ
after_modifiers prev now held =
    let a = track held (emit prev.shift_key now.shift_key 42) in
    let b = track a (emit prev.control_key now.control_key 29) in
    let c = track b (emit prev.alt_key now.alt_key 56) in
    track c (emit prev.super_key now.super_key 125)

track-convert_modifiers :
    (prev now : ModifiersState) (held : List ℕ)
    → track held (convert_modifiers prev now) ≡ after_modifiers prev now held
unfolding convert_modifiers
track-convert_modifiers prev now held =
    let s = emit prev.shift_key now.shift_key 42 in
    let c = emit prev.control_key now.control_key 29 in
    let a = emit prev.alt_key now.alt_key 56 in
    let m = emit prev.super_key now.super_key 125 in
    track-append s (c ++ (a ++ m)) held
    ∙ track-append c (a ++ m) (track held s)
    ∙ track-append a m (track (track held s) c)

contains-convert_modifiers :
    (prev now : ModifiersState) (held : List ℕ) (j : ℕ)
    → Mirrors prev held
    → contains j (track held (convert_modifiers prev now)) ≡ (
        if 125 == j
        then now.super_key
        else if 56 == j
        then now.alt_key
        else if 29 == j
        then now.control_key
        else if 42 == j
        then now.shift_key
        else contains j held)
unfolding modifier_bit nat_eq
contains-convert_modifiers prev now held j h =
    let a = track held (emit prev.shift_key now.shift_key 42) in
    let b = track a (emit prev.control_key now.control_key 29) in
    let c = track b (emit prev.alt_key now.alt_key 56) in
    let in_a = λ (k : ℕ). emit-contains held prev.shift_key now.shift_key 42 k refl h.shift in
    let in_b = λ (k : ℕ).
      emit-contains a prev.control_key now.control_key 29 k refl (in_a 29 ∙ h.ctrl)
      ∙ ap (λ was. if 29 == k then now.control_key else was) (in_a k) in
    let in_c = λ (k : ℕ).
      emit-contains b prev.alt_key now.alt_key 56 k refl (in_b 56 ∙ h.alt)
      ∙ ap (λ was. if 56 == k then now.alt_key else was) (in_b k) in
    ap (contains j) (track-convert_modifiers prev now held)
    ∙ emit-contains c prev.super_key now.super_key 125 j refl (in_c 125 ∙ h.meta)
    ∙ ap (λ was. if 125 == j then now.super_key else was) (in_c j)

convert_modifiers-Mirrors :
    (prev now : ModifiersState) (held : List ℕ)
    → Mirrors prev held
    → Mirrors now (track held (convert_modifiers prev now))
unfolding nat_eq
convert_modifiers-Mirrors prev now held h =
    let has = λ (j : ℕ). contains-convert_modifiers prev now held j h in
    record {
      shift = has 42;
      right_shift = has 54 ∙ h.right_shift;
      ctrl = has 29;
      right_ctrl = has 97 ∙ h.right_ctrl;
      alt = has 56;
      right_alt = has 100 ∙ h.right_alt;
      meta = has 125;
      right_meta = has 126 ∙ h.right_meta;
    }

Mirrors-same :
    (m : ModifiersState) (held held' : List ℕ)
    → ((j : ℕ) → contains j held' ≡ contains j held)
    → Mirrors m held
    → Mirrors m held'
Mirrors-same m held held' same h = record {
  shift = same 42 ∙ h.shift;
  right_shift = same 54 ∙ h.right_shift;
  ctrl = same 29 ∙ h.ctrl;
  right_ctrl = same 97 ∙ h.right_ctrl;
  alt = same 56 ∙ h.alt;
  right_alt = same 100 ∙ h.right_alt;
  meta = same 125 ∙ h.meta;
  right_meta = same 126 ∙ h.right_meta;
}

-- Shift that is toggled and put back, around a key that is no modifier.
toggled-contains :
    (held : List ℕ) (keycode j : ℕ) (upper real_shift : Bool)
    → modifier_bit keycode ≡ none
    → contains 42 held ≡ real_shift
    → contains j (on_key (on_key (on_key held 42 upper) keycode true) 42 real_shift)
      ≡ contains j held
unfolding modifier_bit nat_eq
toggled-contains held keycode j upper real_shift other e =
    let up = on_key held 42 upper in
    rw (on_key_other up keycode true other) (
      contains-on_key j 42 real_shift up refl
      ∙ ap (λ was. if 42 == j then real_shift else was) (contains-on_key j 42 upper held refl)
      ∙ ground (arith, e))

is_pressed-key_message :
    (keycode : ℕ) (down : Bool) → is_pressed (key_message keycode down).state ≡ down
is_pressed-key_message keycode true = refl
is_pressed-key_message keycode false = refl

with_case-Mirrors :
    (m : ModifiersState) (held : List ℕ) (keycode : ℕ) (letter : Option ℕ)
    → modifier_bit keycode ≡ none
    → Mirrors m held
    → Mirrors m (track held (with_case keycode m.shift_key letter))
unfolding with_case track
with_case-Mirrors m held keycode none other h = rw (on_key_other held keycode true other) h
with_case-Mirrors m held keycode (some c) other h =
    let upper = is_ascii_uppercase c in
    elim (Bool-cases (same_bool upper m.shift_key)) [
      | inl same ↦ rw same (rw (on_key_other held keycode true other) h)
      | inr differ ↦ rw differ (
          rw (is_pressed-key_message 42 upper, is_pressed-key_message 42 m.shift_key)
            (Mirrors-same m held
              (on_key (on_key (on_key held 42 upper) keycode true) 42 m.shift_key)
              (λ j. toggled-contains held keycode j upper m.shift_key other h.shift) h))
    ]

convert_coded-Mirrors :
    (m : ModifiersState) (held : List ℕ) (down : Bool) (text : Option (List ℕ)) (keycode : Option ℕ)
    → ((k : ℕ) → keycode ≡ some k → modifier_bit k ≡ none)
    → Mirrors m held
    → Mirrors m (track held (convert_coded down text m.shift_key keycode))
unfolding track
convert_coded-Mirrors m held down text none other h = h
convert_coded-Mirrors m held true text (some k) other h =
    with_case-Mirrors m held k (single_letter text) (other k refl) h
convert_coded-Mirrors m held false text (some k) other h =
    rw (on_key_other held k false (other k refl)) h

convert_key-Mirrors :
    (m : ModifiersState) (held : List ℕ) (code : KeyCode) (down : Bool) (text : Option (List ℕ))
    → Mirrors m held
    → Mirrors m (track held (convert_key code down text m.shift_key))
convert_key-Mirrors m held code down text h =
    elim (Bool-cases (is_modifier_key code || is_caps_lock code)) [
      | inl skip ↦ rw skip (unfold track in h)
      | inr plain ↦ rw plain (
          convert_coded-Mirrors m held down text (keycode_to_evdev code)
            (λ k e. not_modifier code k (ground arith) e) h)
    ]

convert_physical-Mirrors :
    (m : ModifiersState) (held : List ℕ) (physical : Option KeyCode) (down : Bool)
    (text : Option (List ℕ))
    → Mirrors m held
    → Mirrors m (track held (convert_physical physical down text m.shift_key))
unfolding track
convert_physical-Mirrors m held none down text h = h
convert_physical-Mirrors m held (some code) down text h =
    convert_key-Mirrors m held code down text h

window_event-Mirrors :
    (m : ModifiersState) (held : List ℕ) (event : WindowEvent)
    → Mirrors m held
    → let (m', sent) = window_event m event in Mirrors m' (track held sent)
unfolding window_event convert_keyboard
window_event-Mirrors m held (keyboard_input event) h =
    convert_physical-Mirrors m held event.physical_key event.is_down event.text h
window_event-Mirrors m held (modifiers_changed now) h = convert_modifiers-Mirrors m now held h

-- the window over a sequence of events
unfoldable pub window_events :
    ModifiersState → List WindowEvent → ModifiersState × List KeyboardEvent
unfolding window_event
window_events m [] = (m, [])
window_events m (event ∷ events) =
    let (m', now) = window_event m event in
    let (m'', later) = window_events m' events in (m'', now ++ later)

-- Whatever the keyboard does, with caps lock or without, after each event of the window the server
-- that has taken the messages so far counts as held exactly the modifiers that are held at the
-- client, if it did before.
pub track-window_events :
    (m : ModifiersState) (held : List ℕ) (events : List WindowEvent)
    → Mirrors m held
    → let (m', sent) = window_events m events in Mirrors m' (track held sent)
unfolding window_events track
track-window_events m held [] h = h
track-window_events m held (event ∷ events) h =
    let (m', now) = window_event m event in
    let (m'', later) = window_events m' events in
    rw (track-append now later held)
      (track-window_events m' (track held now) events (window_event-Mirrors m held event h))
