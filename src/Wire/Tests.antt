-- ===== src/Wire/Tests.antt =====
-- Tests of the wire formats, with the identity for the parts that other crates do.
use wayray.Base.{ℕ, suc, ◌*◌, ◌<◌, ◌≡◌, refl, sym, zero, some, [], ◌∷◌, ◌++◌, length, arith}
use wayray.Wire.Codec.{Bytes, Postcard, RoundTrips, ok, encode, try_decode_framed, to_le_bytes}
use wayray.Wire.Codec.Framing.{try_decode_framed-encode}
use wayray.Wire.Encoding.{
  DamageRegion, Zstd, Lossless, bpp, encode_region, apply_region, extract_rows, slice, checksum,
}
use wayray.Wire.Encoding.Regions.{Copies, covers, apply_region-encode_region}
use wayray.Wire.Encoding.Checksum.{checksum_visible}
use wayray.Base.{Bool, true, not, leb, ◌≤◌, ℕ, List, nat_eq, string_eq}
use wayray.Base.Dict.{lookup, insert}
use wayray.Base.Member.{same_list}
use wayray.Wire.Messages.Clipboard.{
  text_plain, to_ascii_lowercase, is_text_mime, cap_clipboard_payload, max_clipboard_data,
}
use wayray.Wire.Messages.Clipboard.Cap.{
  Char, ascii, wide, IsText, text_bytes, Kept, cap_clipboard_payload-text,
  cap_clipboard_payload_bound,
}
use wayray.Wire.Pins.{Chars, tofu, check_pin, fingerprints_match}
use wayray.Wire.Pins.Trust.{Handshake, handshakes, check_pin-trust}

abbrev raw : Postcard Bytes
raw = record { to_allocvec = some; from_bytes = some }

raw-RoundTrips : RoundTrips raw
raw-RoundTrips msg payload e = sym e

abbrev frame : Bytes
frame = 3 ∷ 0 ∷ 0 ∷ 0 ∷ 7 ∷ 8 ∷ 9 ∷ []

encoded : encode raw (7 ∷ 8 ∷ 9 ∷ []) ≡ ok frame
unfolding encode to_le_bytes
encoded = refl

try_decode_framed-encode_example :
    try_decode_framed raw (frame ++ 1 ∷ 0 ∷ []) ≡ ok (some (7 ∷ 8 ∷ 9 ∷ [], length frame))
try_decode_framed-encode_example =
    try_decode_framed-encode raw (7 ∷ 8 ∷ 9 ∷ []) frame (1 ∷ 0 ∷ []) raw-RoundTrips (omega arith)
      encoded

abbrev stored : Zstd
stored = record { encode_all = some; decode_all = some }

stored-Lossless : Lossless stored
stored-Lossless xs ys e = ground arith

abbrev ones : Bytes
ones = 1 ∷ 2 ∷ 3 ∷ 4 ∷ 5 ∷ 6 ∷ 7 ∷ 8 ∷ 9 ∷ 10 ∷ 11 ∷ 12 ∷ 13 ∷ 14 ∷ 15 ∷ 16 ∷ []

abbrev zeros : Bytes
zeros = 0 ∷ 0 ∷ 0 ∷ 0 ∷ 0 ∷ 0 ∷ 0 ∷ 0 ∷ 0 ∷ 0 ∷ 0 ∷ 0 ∷ 0 ∷ 0 ∷ 0 ∷ 0 ∷ []

-- the right column of two by two pixels
abbrev column : DamageRegion
column = record {
  x = 1;
  y = 0;
  width = 1;
  height = 2;
  payload = 5 ∷ 6 ∷ 7 ∷ 8 ∷ 13 ∷ 14 ∷ 15 ∷ 16 ∷ [];
}

column_encoded : encode_region stored ones 8 1 0 1 2 ≡ some column
unfolding encode_region extract_rows slice
column_encoded = refl

apply_region-encode_region_example :
    Copies ones zeros (covers 8 (1 * bpp) 0 (1 * bpp) 2 0) (apply_region stored zeros 8 column)
apply_region-encode_region_example =
    apply_region-encode_region stored ones zeros 8 1 0 1 2 column stored-Lossless refl
      column_encoded

abbrev padded : Bytes
padded = 1 ∷ 2 ∷ 3 ∷ 4 ∷ 90 ∷ 5 ∷ 6 ∷ 7 ∷ 8 ∷ 91 ∷ []

abbrev tight : Bytes
tight = 1 ∷ 2 ∷ 3 ∷ 4 ∷ 5 ∷ 6 ∷ 7 ∷ 8 ∷ []

rows_same : (i : ℕ) → i < 2 → slice padded (i * 5) 4 ≡ slice tight (i * 4) 4
unfolding slice
rows_same zero h = refl
rows_same (suc zero) h = refl
rows_same (suc (suc i)) h = absurd (omega arith)

checksum_visible_example : checksum padded 5 4 2 ≡ checksum tight 4 4 2
checksum_visible_example = checksum_visible padded tight 5 4 4 2 rows_same

cap_clipboard_payload_bound_example :
    (length (cap_clipboard_payload ones text_plain).0 ≤ max_clipboard_data)
    × ((cap_clipboard_payload ones text_plain).1 ≡ not (leb (length ones) max_clipboard_data))
cap_clipboard_payload_bound_example = cap_clipboard_payload_bound ones text_plain

-- "h" and "é", from the last character to the first
abbrev accented : List Char
accented = wide 0xC3 (0xA9 ∷ []) ∷ ascii 104 ∷ []

accented-IsText : IsText accented
unfolding nat_eq
accented-IsText = ((refl, refl, (refl, tt)), ((refl, refl), tt))

text_plain_text : is_text_mime text_plain ≡ true
unfolding is_text_mime nat_eq to_ascii_lowercase
text_plain_text = refl

cap_clipboard_payload-text_example :
    Kept accented (cap_clipboard_payload (text_bytes accented) text_plain).0
cap_clipboard_payload-text_example =
    cap_clipboard_payload-text accented text_plain accented-IsText text_plain_text

abbrev blank : ℕ → Bool
blank c = leb c 32

-- "sha256:AA:BB" and "aabb"
abbrev spelled : Chars
spelled = 115 ∷ 104 ∷ 97 ∷ 50 ∷ 53 ∷ 54 ∷ 58 ∷ 65 ∷ 65 ∷ 58 ∷ 66 ∷ 66 ∷ []

abbrev bare : Chars
bare = 97 ∷ 97 ∷ 98 ∷ 98 ∷ []

abbrev other_server : List Handshake
other_server = record { policy = tofu "b"; presented = ones; persists = true } ∷ []

first_trusted : (check_pin blank (tofu "a") [] spelled true).1 ≡ true
unfolding check_pin lookup
first_trusted = refl

still_trusted :
    (check_pin blank
      (tofu "a")
      (handshakes blank (check_pin blank (tofu "a") [] spelled true).0 other_server)
      bare
      true).1
    ≡ true
unfolding check_pin lookup handshakes insert string_eq same_list nat_eq
still_trusted = refl

check_pin-trust_example : fingerprints_match blank bare spelled ≡ true
check_pin-trust_example =
    check_pin-trust blank [] "a" spelled bare true true other_server first_trusted still_trusted
