-- ===== src/Server/Keyboard/Held.antt =====
-- Which keys the seat holds, from the events that it is sent.
use wayray.Base.{
  ℕ, ◌+◌, ◌≡◌, refl, sym, ◌∙◌, ap, Bool, true, false, not, ◌&&◌, ◌||◌, Option, none, some, List, [],
  ◌∷◌, ◌++◌, map, ◌==◌, ◌!=◌, nat_eq, if◌then◌else◌, arith, Bool-cases, inl, inr,
}
use wayray.Base.Member.{contains, contains-filter_ne}
use wayray.Wire.Messages.{KeyboardEvent}
use wayray.Wm.Protocol.{KeyEvent}
use wayray.Wm.Types.{WindowId, Pair}
use wayray.Wm.Floating.{on_key_binding, geometry_of, focused, key_f4, key_tab}
use wayray.Server.Keyboard.{
  Keyboard, Effect, to_seat, to_manager, send_close, raise_and_focus, configure, insert_key,
  remove_key, on_key, mask, is_pressed, is_arrow, for_open, snap_effect, configured,
  binding_effects, manager_effect, check_protocol, forward_key, offer_key, inject_key,
  release_all_keys,
}

-- Whether the seat holds the key with evdev code `k` after these effects.
unfoldable pub holds_after : Bool → List Effect → ℕ → Bool
holds_after was [] k = was
holds_after was (to_seat code down ∷ effects) k =
    holds_after (if code == k + 8 then down else was) effects k
holds_after was (to_manager e ∷ effects) k = holds_after was effects k
holds_after was (send_close id ∷ effects) k = holds_after was effects k
holds_after was (raise_and_focus id ∷ effects) k = holds_after was effects k
holds_after was (configure id size ∷ effects) k = holds_after was effects k

holds_after-append :
    (xs ys : List Effect) (was : Bool) (k : ℕ)
    → holds_after was (xs ++ ys) k ≡ holds_after (holds_after was xs k) ys k
unfolding holds_after
holds_after-append [] ys was k = refl
holds_after-append (to_seat code down ∷ xs) ys was k = holds_after-append xs ys _ k
holds_after-append (to_manager e ∷ xs) ys was k = holds_after-append xs ys was k
holds_after-append (send_close id ∷ xs) ys was k = holds_after-append xs ys was k
holds_after-append (raise_and_focus id ∷ xs) ys was k = holds_after-append xs ys was k
holds_after-append (configure id size ∷ xs) ys was k = holds_after-append xs ys was k

-- Effects that are nothing to the seat's keyboard.
abbrev Silent : List Effect → Type 0
Silent effects = (was : Bool) (k : ℕ) → holds_after was effects k ≡ was

append-Silent : (xs ys : List Effect) → Silent xs → Silent ys → Silent (xs ++ ys)
append-Silent xs ys a b was k = ground (arith, holds_after-append xs ys was k, a was k, b was k)

for_open-Silent :
    (ids : List WindowId) (id : Option WindowId) (effect : WindowId → Effect)
    → ((w : WindowId) → Silent (effect w ∷ []))
    → Silent (for_open ids id effect)
unfolding holds_after
for_open-Silent ids none effect h was k = refl
for_open-Silent ids (some id) effect h was k = ground (arith, h id was k)

configured-Silent :
    (ids : List WindowId) (id : WindowId) (at : Option (Pair × Pair))
    → Silent (configured ids id at)
unfolding holds_after
configured-Silent ids id none was k = refl
configured-Silent ids id (some (at, size)) was k =
    for_open-Silent ids (some id) (λ w. configure w size) (λ w v j. refl) was k

snap_effect-Silent : (kb : Keyboard) (id : Option WindowId) → Silent (snap_effect kb id)
unfolding holds_after
snap_effect-Silent kb none was k = refl
snap_effect-Silent kb (some id) was k =
    configured-Silent kb.open_windows id (geometry_of kb.builtin id) was k

if-Silent : (c : Bool) (effects : List Effect) → Silent effects → Silent (if c then effects else [])
unfolding holds_after
if-Silent true effects h = h
if-Silent false effects h = λ was k. refl

binding_effects-Silent : (kb : Keyboard) (key : ℕ) → Silent (binding_effects kb key)
unfolding holds_after binding_effects
binding_effects-Silent kb key =
    let closes = for_open kb.open_windows (focused kb.builtin) send_close in
    let raises = for_open kb.open_windows (focused kb.builtin) raise_and_focus in
    let snaps = snap_effect kb (focused kb.builtin) in
    let close : Silent closes =
      for_open-Silent kb.open_windows (focused kb.builtin) send_close (λ w v j. refl) in
    let raise : Silent raises =
      for_open-Silent kb.open_windows (focused kb.builtin) raise_and_focus (λ w v j. refl) in
    append-Silent (if key == key_f4 then closes else [])
      ((if key == key_tab then raises else []) ++ (if is_arrow key then snaps else []))
      (if-Silent (key == key_f4) closes close)
      (append-Silent (if key == key_tab then raises else []) (if is_arrow key then snaps else [])
        (if-Silent (key == key_tab) raises raise)
        (if-Silent (is_arrow key) snaps (snap_effect-Silent kb (focused kb.builtin))))

contains-insert_key :
    (j k : ℕ) (held : List ℕ) → contains j (insert_key k held) ≡ (k == j || contains j held)
unfolding contains insert_key
contains-insert_key j k held = ground arith

contains-remove_key :
    (j k : ℕ) (held : List ℕ) → contains j (remove_key k held) ≡ (contains j held && j != k)
unfolding remove_key
contains-remove_key j k held = contains-filter_ne j k held

-- The keys that the compositor believes to be pressed are those that the seat holds.
abbrev Tracks : Keyboard → Keyboard × List Effect → Type 0
Tracks kb (kb', effects) =
    (k : ℕ) → holds_after (contains k kb.pressed_keys) effects k ≡ contains k kb'.pressed_keys

forward_key-Tracks : (kb : Keyboard) (key : ℕ) (down : Bool) → Tracks kb (forward_key kb key down)
unfolding forward_key holds_after
forward_key-Tracks kb key down k =
    ground
      (arith, contains-insert_key k key kb.pressed_keys, contains-remove_key k key kb.pressed_keys)

holds_after-released :
    (held : List ℕ) (was : Bool) (k : ℕ)
    → holds_after was (map (λ j. to_seat (j + 8) false) held) k ≡ (was && not (contains k held))
unfolding holds_after contains
holds_after-released [] was k = ground arith
holds_after-released (j ∷ held) was k =
    ground (arith, holds_after-released held (if j + 8 == k + 8 then false else was) k)

release_all_keys-Tracks : (kb : Keyboard) → Tracks kb (release_all_keys kb)
unfolding release_all_keys contains
release_all_keys-Tracks kb k =
    ground (arith, holds_after-released kb.pressed_keys (contains k kb.pressed_keys) k)

offer_key-Tracks :
    (kb : Keyboard) (key modifiers : ℕ) (down : Bool) → Tracks kb (offer_key kb key modifiers down)
unfolding offer_key
offer_key-Tracks kb key modifiers true k =
    let (builtin, taken) = on_key_binding kb.builtin key modifiers in
    let kb' = record kb { builtin = builtin } in
    elim (Bool-cases taken) [
      | inl t ↦ rw t (binding_effects-Silent kb' key (contains k kb.pressed_keys) k)
      | inr t ↦ rw t (forward_key-Tracks kb' key true k)
    ]
offer_key-Tracks kb key modifiers false k = forward_key-Tracks kb key false k

manager_effect-Silent : (e : Option KeyEvent) → Silent (manager_effect e)
unfolding holds_after
manager_effect-Silent none was k = refl
manager_effect-Silent (some e) was k = refl

inject_key-Tracks : (kb : Keyboard) (ev : KeyboardEvent) → Tracks kb (inject_key kb ev)
unfolding inject_key
inject_key-Tracks kb ev k =
    let down = is_pressed ev.state in
    let held = on_key kb.modifiers ev.keycode down in
    let kb' = record kb { modifiers = held } in
    let (bound, event) = check_protocol kb.protocol ev.keycode (mask held) down in
    elim (Bool-cases bound) [
      | inl t ↦ rw t (manager_effect-Silent event (contains k kb.pressed_keys) k)
      | inr t ↦ rw t (offer_key-Tracks kb' ev.keycode (mask held) down k)
    ]

-- what reaches the keyboard: an event of the client, or the end of its connection
pub data KeyTurn : Type 0 where
  key : KeyboardEvent → KeyTurn
  client_gone : KeyTurn

abbrev pub key_turn : Keyboard → KeyTurn → Keyboard × List Effect
key_turn kb (key ev) = inject_key kb ev
key_turn kb client_gone = release_all_keys kb

unfoldable pub key_turns : Keyboard → List KeyTurn → Keyboard × List Effect
key_turns kb [] = (kb, [])
key_turns kb (turn ∷ turns) =
    let (kb', now) = key_turn kb turn in
    let (kb'', later) = key_turns kb' turns in (kb'', now ++ later)

key_turn-Tracks : (kb : Keyboard) (turn : KeyTurn) → Tracks kb (key_turn kb turn)
key_turn-Tracks kb (key ev) k = inject_key-Tracks kb ev k
key_turn-Tracks kb client_gone k = release_all_keys-Tracks kb k

-- Through any history, the keys that the compositor believes to be pressed are those that the seat
-- holds.
key_turns-holds_after : (kb : Keyboard) (turns : List KeyTurn) → Tracks kb (key_turns kb turns)
unfolding key_turns holds_after
key_turns-holds_after kb [] k = refl
key_turns-holds_after kb (turn ∷ turns) k =
    let (kb', now) = key_turn kb turn in
    let (kb'', later) = key_turns kb' turns in
    holds_after-append now later (contains k kb.pressed_keys) k
    ∙ ap (λ was. holds_after was later k) (key_turn-Tracks kb turn k)
    ∙ key_turns-holds_after kb' turns k

-- Nothing is left in the compositor's sets at the end of a connection.
key_turns-gone :
    (kb : Keyboard) (turns : List KeyTurn)
    → let kb' = (key_turns kb (turns ++ client_gone ∷ [])).0 in
      (kb'.pressed_keys ≡ []) × (kb'.modifiers ≡ [])
unfolding key_turns release_all_keys
key_turns-gone kb [] = (refl, refl)
key_turns-gone kb (turn ∷ turns) = key_turns-gone (key_turn kb turn).0 turns

-- When a connection ends, whatever keys its client and those before it pressed and released in
-- whatever order, with bindings of either window manager in between, the seat holds no key and no
-- modifier counts as held, so that nothing leaks into the resumed session.
pub release_all_keys-holds_after :
    (kb : Keyboard) (turns : List KeyTurn) (k : ℕ)
    → kb.pressed_keys ≡ []
    → let (kb', effects) = key_turns kb (turns ++ client_gone ∷ []) in
      (holds_after false effects k ≡ false) × (kb'.modifiers ≡ [])
unfolding contains
release_all_keys-holds_after kb turns k e =
    let (empty, none_held) = key_turns-gone kb turns in
    let none_before : contains k kb.pressed_keys ≡ false = rw e refl in
    let tracks = key_turns-holds_after kb (turns ++ client_gone ∷ []) k in
    (
      ap (λ was. holds_after was (key_turns kb (turns ++ client_gone ∷ [])).1 k) (sym none_before)
          ∙ tracks
          ∙ ap (λ held. contains k held) empty,
      none_held,
    )
