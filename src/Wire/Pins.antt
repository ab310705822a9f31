-- ===== src/Wire/Pins.antt =====
-- crates/wayray-protocol/src/tls.rs: certificate pins, and trust on first use. A fingerprint is the
-- list of its character codes; the digest itself is that of the crate `sha2`, and which characters
-- are white space is the standard library's, a parameter.
pub mod Trust
use wayray.Base.{
  ℕ, ◌+◌, String, Bool, true, false, not, ◌&&◌, ◌||◌, Option, none, some, List, [], ◌∷◌, map,
  filter, ◌==◌, ◌!=◌, nat_eq, string_eq, if◌then◌else◌, leb,
}
use wayray.Base.Dict.{Dict, lookup, insert}
use wayray.Base.Member.{same_list}
use wayray.Wire.Messages.Clipboard.{lower}

abbrev pub Chars : Type 0
Chars = List ℕ

-- `"sha256:"`
abbrev pub sha256_prefix : Chars
sha256_prefix = 115 ∷ 104 ∷ 97 ∷ 50 ∷ 53 ∷ 54 ∷ 58 ∷ []

abbrev or_whole : Chars → Option Chars → Chars
or_whole s none = s
or_whole s (some rest) = rest

-- `str::strip_prefix`
unfoldable pub strip_prefix : Chars → Chars → Option Chars
strip_prefix s [] = some s
strip_prefix [] (p ∷ prefix) = none
strip_prefix (c ∷ s) (p ∷ prefix) = if c == p then strip_prefix s prefix else none

module _ (is_whitespace : ℕ → Bool) where
  unfoldable pub trim_start : Chars → Chars
  trim_start [] = []
  trim_start (c ∷ s) = if is_whitespace c then trim_start s else c ∷ s

  abbrev pub is_blank : Chars → Bool
  is_blank [] = true
  is_blank (c ∷ s) = is_whitespace c && is_blank s

  unfoldable pub trim_end : Chars → Chars
  trim_end [] = []
  trim_end (c ∷ s) = if is_blank (c ∷ s) then [] else c ∷ trim_end s

  -- `normalize_fingerprint`
  unfoldable pub normalize_fingerprint : Chars → Chars
  unfolding trim_start trim_end strip_prefix
  normalize_fingerprint fp =
      let trimmed = trim_end (trim_start fp) in
      let bare = or_whole trimmed (strip_prefix trimmed sha256_prefix) in
      map lower (filter (λ c. not (is_whitespace c) && c != 58) bare)

  -- `fingerprints_match`
  unfoldable pub fingerprints_match : Chars → Chars → Bool
  unfolding normalize_fingerprint
  fingerprints_match presented expected =
      same_list (normalize_fingerprint presented) (normalize_fingerprint expected)

-- `PinOutcome`
pub data PinOutcome : Type 0 where
  pin_match first_use : PinOutcome
  mismatch : Chars → Chars → PinOutcome

-- the map of `PinStore`
abbrev pub PinStore : Type 0
PinStore = Dict String Chars

-- `PinPolicy`
pub data PinPolicy : Type 0 where
  fixed : Chars → PinPolicy
  tofu : String → PinPolicy

module _ (is_whitespace : ℕ → Bool) where
  abbrev pub compare_pin : Chars → Chars → PinOutcome
  compare_pin presented expected =
      if fingerprints_match is_whitespace presented expected
      then pin_match
      else mismatch expected presented

  -- `verify_or_remember`. `persists` is whether the file can be written; `none` is the error if it
  -- cannot.
  abbrev pub verify_with :
      PinStore → String → Chars → Bool → Option Chars → PinStore × Option PinOutcome
  verify_with pins identity presented persists (some expected) =
      (pins, some (compare_pin presented expected))
  verify_with pins identity presented persists none =
      (insert identity presented pins, if persists then some first_use else none)

  unfoldable pub verify_or_remember :
      PinStore → String → Chars → Bool → PinStore × Option PinOutcome
  unfolding fingerprints_match
  verify_or_remember pins identity presented persists =
      verify_with pins identity presented persists (lookup identity pins)

  abbrev pub is_accepted : Option PinOutcome → Bool
  is_accepted (some pin_match) = true
  is_accepted (some first_use) = true
  is_accepted (some (mismatch expected presented)) = false
  is_accepted none = false

  -- `check_pin`: whether the handshake goes on
  unfoldable pub check_pin : PinPolicy → PinStore → Chars → Bool → PinStore × Bool
  unfolding verify_or_remember
  check_pin (fixed expected) pins presented persists =
      (pins, fingerprints_match is_whitespace presented expected)
  check_pin (tofu identity) pins presented persists =
      let (pins', outcome) = verify_or_remember pins identity presented persists in
      (pins', is_accepted outcome)
