-- ===== src/Wire/Pins/Trust.antt =====
-- Trust on first use over a sequence of handshakes.
use wayray.Base.{
  ℕ, String, ◌≡◌, refl, sym, ◌∙◌, ap, Bool, true, Option, none, some, List, [], ◌∷◌, nat_eq,
  string_eq, arith,
}
use wayray.Base.Dict.{lookup, lookup-insert, lookup-insert_self}
use wayray.Base.Member.{same_list, same_list→≡}
use wayray.Wire.Pins.{
  Chars, normalize_fingerprint, fingerprints_match, PinStore, PinPolicy, fixed, tofu, verify_with,
  verify_or_remember, is_accepted, check_pin,
}

same_list_refl : (xs : Chars) → same_list xs xs ≡ true
unfolding same_list
same_list_refl [] = refl
same_list_refl (x ∷ xs) = ground (arith, same_list_refl xs)

-- a handshake: the policy, the fingerprint that is presented, whether the store can be written
pub record Handshake : Type 0 where
  pub policy : PinPolicy
  pub presented : Chars
  pub persists : Bool

module _ (is_whitespace : ℕ → Bool) where
  -- the pin store after a sequence of handshakes
  unfoldable pub handshakes : PinStore → List Handshake → PinStore
  unfolding check_pin
  handshakes pins [] = pins
  handshakes pins (h ∷ hs) =
      handshakes (check_pin is_whitespace h.policy pins h.presented h.persists).0 hs

  match-normalize :
      (a b : Chars)
      → fingerprints_match is_whitespace a b ≡ true
      → normalize_fingerprint is_whitespace a ≡ normalize_fingerprint is_whitespace b
  unfolding fingerprints_match
  match-normalize a b e = same_list→≡ _ _ e

  normalize-match :
      (a b : Chars)
      → normalize_fingerprint is_whitespace a ≡ normalize_fingerprint is_whitespace b
      → fingerprints_match is_whitespace a b ≡ true
  unfolding fingerprints_match
  normalize-match a b e = rw e (same_list_refl (normalize_fingerprint is_whitespace b))

  verify_with-keeps :
      (pins : PinStore) (identity : String) (presented : Chars) (persists : Bool)
      (found : Option Chars) (other : String) (pin : Chars)
      → lookup identity pins ≡ found
      → lookup other pins ≡ some pin
      → lookup other (verify_with is_whitespace pins identity presented persists found).0 ≡ some pin
  verify_with-keeps pins identity presented persists (some expected) other pin e h = h
  verify_with-keeps pins identity presented persists none other pin e h =
      ground (arith, lookup-insert other identity presented pins, e, h)

  check_pin-keeps :
      (policy : PinPolicy) (pins : PinStore) (presented : Chars) (persists : Bool) (other : String)
      (pin : Chars)
      → lookup other pins ≡ some pin
      → lookup other (check_pin is_whitespace policy pins presented persists).0 ≡ some pin
  unfolding check_pin verify_or_remember
  check_pin-keeps (fixed expected) pins presented persists other pin h = h
  check_pin-keeps (tofu identity) pins presented persists other pin h =
      verify_with-keeps pins identity presented persists (lookup identity pins) other pin refl h

  handshakes-keeps :
      (pins : PinStore) (hs : List Handshake) (other : String) (pin : Chars)
      → lookup other pins ≡ some pin
      → lookup other (handshakes pins hs) ≡ some pin
  unfolding handshakes
  handshakes-keeps pins [] other pin h = h
  handshakes-keeps pins (x ∷ xs) other pin h =
      handshakes-keeps (check_pin is_whitespace x.policy pins x.presented x.persists).0 xs other pin
        (check_pin-keeps x.policy pins x.presented x.persists other pin h)

  verify_with-pins :
      (pins : PinStore) (identity : String) (presented : Chars) (persists : Bool)
      (found : Option Chars)
      → lookup identity pins ≡ found
      → let (pins', outcome) = verify_with is_whitespace pins identity presented persists found in
        is_accepted is_whitespace outcome ≡ true
        → (pin : Chars) × (lookup identity pins' ≡ some pin)
          × (fingerprints_match is_whitespace presented pin ≡ true)
  verify_with-pins pins identity presented persists (some expected) e h =
      (expected, e, ground arith)
  verify_with-pins pins identity presented persists none e h = (
    presented,
    lookup-insert_self identity presented pins,
    normalize-match presented presented refl,
  )

  -- A handshake that goes on leaves a pin that matches.
  check_pin-pins :
      (pins : PinStore) (identity : String) (presented : Chars) (persists : Bool)
      → (check_pin is_whitespace (tofu identity) pins presented persists).1 ≡ true
      → (pin : Chars) × (lookup identity
            (check_pin is_whitespace (tofu identity) pins presented persists).0
          ≡ some pin)
        × (fingerprints_match is_whitespace presented pin ≡ true)
  unfolding check_pin verify_or_remember
  check_pin-pins pins identity presented persists h =
      verify_with-pins pins identity presented persists (lookup identity pins) refl h

  -- Two handshakes with the same identity under trust on first use that both go on present matching
  -- certificate fingerprints, whatever handshakes there are in between: nobody else is ever taken
  -- for a server that is known.
  pub check_pin-trust :
      (pins : PinStore) (identity : String) (a b : Chars) (pa pb : Bool) (between : List Handshake)
      → (check_pin is_whitespace (tofu identity) pins a pa).1 ≡ true
      → (check_pin is_whitespace
          (tofu identity)
          (handshakes (check_pin is_whitespace (tofu identity) pins a pa).0 between)
          b
          pb).1
        ≡ true
      → fingerprints_match is_whitespace b a ≡ true
  check_pin-trust pins identity a b pa pb between first second =
      let (pin, found, like_a) = check_pin-pins pins identity a pa first in
      let later = handshakes (check_pin is_whitespace (tofu identity) pins a pa).0 between in
      let kept =
        handshakes-keeps (check_pin is_whitespace (tofu identity) pins a pa).0 between identity pin
          found in
      let (pin', found', like_b) = check_pin-pins later identity b pb second in
      let still = check_pin-keeps (tofu identity) later b pb identity pin kept in
      let same : pin' ≡ pin = ground (arith, found', still) in
      normalize-match b a (
        match-normalize b pin' like_b
        ∙ ap (normalize_fingerprint is_whitespace) same
        ∙ sym (match-normalize a pin like_a))
