-- ===== src/Client/Input.antt =====
-- crates/wrclient/src/input.rs: the events of the window, as messages to the server. The events are
-- those of the crate `winit`; of its key codes, `other_key` stands for all that the code never names.
pub mod Modifiers
use wayray.Base.{
  ℕ, ◌+◌, ◌%◌, ◌^◌, Bool, true, false, not, ◌&&◌, ◌||◌, Option, none, some, List, [], ◌∷◌, ◌++◌,
  leb, if◌then◌else◌, ◌>>=◌,
}
use wayray.Wire.Messages.{KeyState, pressed, released, KeyboardEvent}

-- `KeyCode`
pub data KeyCode : Type 0 where
  escape digit1 digit2 digit3 digit4 digit5 digit6 digit7 digit8 digit9 digit0 minus equal backspace
        tab key_q key_w key_e key_r key_t key_y key_u key_i key_o key_p bracket_left bracket_right
        enter control_left key_a key_s key_d key_f key_g key_h key_j key_k key_l semicolon quote
        backquote shift_left backslash key_z key_x key_c key_v key_b key_n key_m comma period slash
        shift_right alt_left space_key caps_lock f1 f2 f3 f4 f5 f6 f7 f8 f9 f10 num_lock scroll_lock
        f11 f12 control_right alt_right home_key arrow_up page_up arrow_left arrow_right end_key
        arrow_down page_down insert_key delete_key super_left super_right :
      KeyCode
  other_key : ℕ → KeyCode

-- `ModifiersState`
pub record ModifiersState : Type 0 where
  pub shift_key : Bool
  pub control_key : Bool
  pub alt_key : Bool
  pub super_key : Bool

-- `KeyEvent`: the physical key, if it is one with a code, and the characters of the text
pub record KeyEvent : Type 0 where
  pub physical_key : Option KeyCode
  pub is_down : Bool
  pub text : Option (List ℕ)

-- `is_modifier_key`
unfoldable pub is_modifier_key : KeyCode → Bool
is_modifier_key shift_left = true
is_modifier_key shift_right = true
is_modifier_key control_left = true
is_modifier_key control_right = true
is_modifier_key alt_left = true
is_modifier_key alt_right = true
is_modifier_key super_left = true
is_modifier_key super_right = true
is_modifier_key _ = false

abbrev pub is_caps_lock : KeyCode → Bool
is_caps_lock caps_lock = true
is_caps_lock _ = false

-- `keycode_to_evdev`
unfoldable pub keycode_to_evdev : KeyCode → Option ℕ
keycode_to_evdev escape = some 1
keycode_to_evdev digit1 = some 2
keycode_to_evdev digit2 = some 3
keycode_to_evdev digit3 = some 4
keycode_to_evdev digit4 = some 5
keycode_to_evdev digit5 = some 6
keycode_to_evdev digit6 = some 7
keycode_to_evdev digit7 = some 8
keycode_to_evdev digit8 = some 9
keycode_to_evdev digit9 = some 10
keycode_to_evdev digit0 = some 11
keycode_to_evdev minus = some 12
keycode_to_evdev equal = some 13
keycode_to_evdev backspace = some 14
keycode_to_evdev tab = some 15
keycode_to_evdev key_q = some 16
keycode_to_evdev key_w = some 17
keycode_to_evdev key_e = some 18
keycode_to_evdev key_r = some 19
keycode_to_evdev key_t = some 20
keycode_to_evdev key_y = some 21
keycode_to_evdev key_u = some 22
keycode_to_evdev key_i = some 23
keycode_to_evdev key_o = some 24
keycode_to_evdev key_p = some 25
keycode_to_evdev bracket_left = some 26
keycode_to_evdev bracket_right = some 27
keycode_to_evdev enter = some 28
keycode_to_evdev control_left = some 29
keycode_to_evdev key_a = some 30
keycode_to_evdev key_s = some 31
keycode_to_evdev key_d = some 32
keycode_to_evdev key_f = some 33
keycode_to_evdev key_g = some 34
keycode_to_evdev key_h = some 35
keycode_to_evdev key_j = some 36
keycode_to_evdev key_k = some 37
keycode_to_evdev key_l = some 38
keycode_to_evdev semicolon = some 39
keycode_to_evdev quote = some 40
keycode_to_evdev backquote = some 41
keycode_to_evdev shift_left = some 42
keycode_to_evdev backslash = some 43
keycode_to_evdev key_z = some 44
keycode_to_evdev key_x = some 45
keycode_to_evdev key_c = some 46
keycode_to_evdev key_v = some 47
keycode_to_evdev key_b = some 48
keycode_to_evdev key_n = some 49
keycode_to_evdev key_m = some 50
keycode_to_evdev comma = some 51
keycode_to_evdev period = some 52
keycode_to_evdev slash = some 53
keycode_to_evdev shift_right = some 54
keycode_to_evdev alt_left = some 56
keycode_to_evdev space_key = some 57
keycode_to_evdev caps_lock = some 58
keycode_to_evdev f1 = some 59
keycode_to_evdev f2 = some 60
keycode_to_evdev f3 = some 61
keycode_to_evdev f4 = some 62
keycode_to_evdev f5 = some 63
keycode_to_evdev f6 = some 64
keycode_to_evdev f7 = some 65
keycode_to_evdev f8 = some 66
keycode_to_evdev f9 = some 67
keycode_to_evdev f10 = some 68
keycode_to_evdev num_lock = some 69
keycode_to_evdev scroll_lock = some 70
keycode_to_evdev f11 = some 87
keycode_to_evdev f12 = some 88
keycode_to_evdev control_right = some 97
keycode_to_evdev alt_right = some 100
keycode_to_evdev home_key = some 102
keycode_to_evdev arrow_up = some 103
keycode_to_evdev page_up = some 104
keycode_to_evdev arrow_left = some 105
keycode_to_evdev arrow_right = some 106
keycode_to_evdev end_key = some 107
keycode_to_evdev arrow_down = some 108
keycode_to_evdev page_down = some 109
keycode_to_evdev insert_key = some 110
keycode_to_evdev delete_key = some 111
keycode_to_evdev super_left = some 125
keycode_to_evdev super_right = some 126
keycode_to_evdev (other_key n) = none

abbrev pub key_left_shift : ℕ
key_left_shift = 42

abbrev pub key_left_ctrl : ℕ
key_left_ctrl = 29

abbrev pub key_left_alt : ℕ
key_left_alt = 56

abbrev pub key_left_meta : ℕ
key_left_meta = 125

abbrev pub key_message : ℕ → Bool → KeyboardEvent
key_message keycode down = record {
  keycode = keycode;
  state = if down then pressed else released;
  time = 0;
}

abbrev pub is_ascii_uppercase : ℕ → Bool
is_ascii_uppercase c = leb 65 c && leb c 90

abbrev pub is_ascii_alphabetic : ℕ → Bool
is_ascii_alphabetic c = is_ascii_uppercase c || (leb 97 c && leb c 122)

-- the letter, if the text is one
abbrev pub single_letter : Option (List ℕ) → Option ℕ
single_letter (some (c ∷ [])) = if is_ascii_alphabetic c then some c else none
single_letter _ = none

abbrev pub same_bool : Bool → Bool → Bool
same_bool true b = b
same_bool false b = not b

-- the press of a letter, between two toggles of Shift if caps lock is responsible for its case
unfoldable pub with_case : ℕ → Bool → Option ℕ → List KeyboardEvent
with_case keycode real_shift none = key_message keycode true ∷ []
with_case keycode real_shift (some c) =
    let want_upper = is_ascii_uppercase c in
    if same_bool want_upper real_shift
    then key_message keycode true ∷ []
    else key_message key_left_shift want_upper
      ∷ key_message keycode true
      ∷ key_message key_left_shift real_shift
      ∷ []

abbrev pub convert_coded : Bool → Option (List ℕ) → Bool → Option ℕ → List KeyboardEvent
convert_coded down text real_shift none = []
convert_coded true text real_shift (some keycode) =
    with_case keycode real_shift (single_letter text)
convert_coded false text real_shift (some keycode) = key_message keycode false ∷ []

-- `convert_keyboard`, for a key with a code
abbrev pub convert_key : KeyCode → Bool → Option (List ℕ) → Bool → List KeyboardEvent
convert_key code down text real_shift =
    if is_modifier_key code || is_caps_lock code
    then []
    else convert_coded down text real_shift (keycode_to_evdev code)

abbrev pub convert_physical : Option KeyCode → Bool → Option (List ℕ) → Bool → List KeyboardEvent
convert_physical none down text real_shift = []
convert_physical (some code) down text real_shift = convert_key code down text real_shift

-- `convert_keyboard`
unfoldable pub convert_keyboard : KeyEvent → Bool → List KeyboardEvent
unfolding is_modifier_key keycode_to_evdev with_case
convert_keyboard event real_shift =
    convert_physical event.physical_key event.is_down event.text real_shift

-- the closure `emit`
abbrev pub emit : Bool → Bool → ℕ → List KeyboardEvent
emit was is keycode = if same_bool was is then [] else key_message keycode is ∷ []

-- `convert_modifiers`
unfoldable pub convert_modifiers : ModifiersState → ModifiersState → List KeyboardEvent
convert_modifiers prev now =
    emit prev.shift_key now.shift_key key_left_shift
    ++ (emit prev.control_key now.control_key key_left_ctrl
        ++ (emit prev.alt_key now.alt_key key_left_alt
            ++ emit prev.super_key now.super_key key_left_meta))

-- the events of the keyboard that `window_event` of crates/wrclient/src/main.rs takes
pub data WindowEvent : Type 0 where
  keyboard_input : KeyEvent → WindowEvent
  modifiers_changed : ModifiersState → WindowEvent

-- `window_event`: the modifiers that the window keeps, and the messages that are sent
unfoldable pub window_event : ModifiersState → WindowEvent → ModifiersState × List KeyboardEvent
unfolding convert_keyboard convert_modifiers
window_event modifiers (keyboard_input event) =
    (modifiers, convert_keyboard event modifiers.shift_key)
window_event modifiers (modifiers_changed now) = (now, convert_modifiers modifiers now)
