-- ===== src/Wire/Messages/Clipboard.antt =====
-- The clipboard payloads of crates/wayray-protocol/src/messages.rs. A mime type is the list of its
-- character codes here, since the code looks at prefixes and at the case of letters.
pub mod Cap
use Prim.Native.Nat.{bit_and}
use wayray.Base.{
  ℕ, zero, suc, ◌+◌, ◌*◌, ◌≤◌, ◌<◌, ◌≡◌, refl, Bool, true, false, not, ◌&&◌, ◌||◌, Option, none,
  some, List, [], ◌∷◌, ◌++◌, map, length, take, ltb, leb, if◌then◌else◌, ◌==◌, nat_eq, arith,
}
use wayray.Base.Member.{same_list}
use wayray.Wire.Codec.{Bytes}

abbrev pub Mime : Type 0
Mime = List ℕ

-- `u8::to_ascii_lowercase`
abbrev pub lower : ℕ → ℕ
lower c = if leb 65 c && leb c 90 then c + 32 else c

-- `str::to_ascii_lowercase`
unfoldable pub to_ascii_lowercase : Mime → Mime
to_ascii_lowercase = map lower

-- `eq_ignore_ascii_case`
unfoldable pub eq_ignore_ascii_case : Mime → Mime → Bool
unfolding to_ascii_lowercase
eq_ignore_ascii_case a b = same_list (to_ascii_lowercase a) (to_ascii_lowercase b)

-- `str::starts_with`
unfoldable pub starts_with : Mime → Mime → Bool
starts_with s [] = true
starts_with [] (p ∷ prefix) = false
starts_with (c ∷ s) (p ∷ prefix) = (c == p) && starts_with s prefix

-- `iter().find(p)`, also with `any` as whether there is one
unfoldable pub find : (Mime → Bool) → List Mime → Option Mime
find p [] = none
find p (m ∷ ms) = if p m then some m else find p ms

abbrev pub or_else : Option Mime → Option Mime → Option Mime
or_else none b = b
or_else (some a) b = some a

abbrev pub first : List Mime → Option Mime
first [] = none
first (m ∷ ms) = some m

-- The texts of the source, in the order `"text/plain;charset=utf-8"`, `"UTF8_STRING"`, `"text/plain"`, `"text/"`, `"utf8_string"`, `"string"`, `"text"`, `"STRING"`, `"TEXT"`.
abbrev pub text_plain_utf8 : Mime
text_plain_utf8 =
    116 ∷ 101 ∷ 120 ∷ 116 ∷ 47 ∷ 112 ∷ 108 ∷ 97 ∷ 105 ∷ 110 ∷ 59 ∷ 99 ∷ 104 ∷ 97 ∷ 114 ∷ 115 ∷ 101
    ∷ 116 ∷ 61 ∷ 117 ∷ 116 ∷ 102 ∷ 45 ∷ 56 ∷ []

abbrev pub utf8_string : Mime
utf8_string = 85 ∷ 84 ∷ 70 ∷ 56 ∷ 95 ∷ 83 ∷ 84 ∷ 82 ∷ 73 ∷ 78 ∷ 71 ∷ []

abbrev pub text_plain : Mime
text_plain = 116 ∷ 101 ∷ 120 ∷ 116 ∷ 47 ∷ 112 ∷ 108 ∷ 97 ∷ 105 ∷ 110 ∷ []

abbrev pub text_prefix : Mime
text_prefix = 116 ∷ 101 ∷ 120 ∷ 116 ∷ 47 ∷ []

abbrev pub utf8_string_lower : Mime
utf8_string_lower = 117 ∷ 116 ∷ 102 ∷ 56 ∷ 95 ∷ 115 ∷ 116 ∷ 114 ∷ 105 ∷ 110 ∷ 103 ∷ []

abbrev pub string_lower : Mime
string_lower = 115 ∷ 116 ∷ 114 ∷ 105 ∷ 110 ∷ 103 ∷ []

abbrev pub text_lower : Mime
text_lower = 116 ∷ 101 ∷ 120 ∷ 116 ∷ []

abbrev pub string_upper : Mime
string_upper = 83 ∷ 84 ∷ 82 ∷ 73 ∷ 78 ∷ 71 ∷ []

abbrev pub text_upper : Mime
text_upper = 84 ∷ 69 ∷ 88 ∷ 84 ∷ []

-- the loop over `PREFERRED`
unfoldable pub find_preferred : List Mime → List Mime → Option Mime
unfolding find eq_ignore_ascii_case
find_preferred offered [] = none
find_preferred offered (want ∷ wants) =
    or_else (find (λ m. eq_ignore_ascii_case m want) offered) (find_preferred offered wants)

-- `preferred_mime_type`
unfoldable pub preferred_mime_type : List Mime → Option Mime
unfolding find_preferred starts_with
preferred_mime_type offered =
    or_else (find_preferred offered (text_plain_utf8 ∷ utf8_string ∷ text_plain ∷ []))
      (or_else (find (λ m. starts_with (to_ascii_lowercase m) text_prefix) offered) (first offered))

-- `is_text_mime`
unfoldable pub is_text_mime : Mime → Bool
unfolding starts_with
is_text_mime mime =
    let low = to_ascii_lowercase mime in
    (starts_with low text_prefix || same_list low utf8_string_lower)
    || (same_list low string_lower || same_list low text_lower)

abbrev pub is_found : Option Mime → Bool
is_found none = false
is_found (some m) = true

abbrev pub text_flavors : List Mime
text_flavors = text_plain_utf8 ∷ text_plain ∷ utf8_string ∷ string_upper ∷ text_upper ∷ []

-- `clipboard_offer_mimes`
unfoldable pub clipboard_offer_mimes : Mime → List Mime
unfolding is_text_mime find
clipboard_offer_mimes mime =
    if is_text_mime mime
    then if is_found (find (λ m. eq_ignore_ascii_case m mime) text_flavors)
      then text_flavors
      else mime ∷ text_flavors
    else mime ∷ []

-- `MAX_CLIPBOARD_DATA`
abbrev pub max_clipboard_data : ℕ
max_clipboard_data = 1024 * 1024

-- `last & 0xC0 == 0x80`
abbrev pub is_continuation : ℕ → Bool
is_continuation b = bit_and b 0xC0 == 0x80

-- the loop of `cap_clipboard_payload`, over the payload from its last byte to its first
unfoldable pub pop_split : Bytes → Bytes
pop_split [] = []
pop_split (b ∷ bs) =
    let rest = pop_split bs in if is_continuation b then rest else if leb 0x80 b then bs else b ∷ bs

unfoldable pub reverse_onto : Bytes → Bytes → Bytes
reverse_onto acc [] = acc
reverse_onto acc (b ∷ bs) = reverse_onto (b ∷ acc) bs

abbrev pub reversed : Bytes → Bytes
reversed = reverse_onto []

-- `cap_clipboard_payload`: the payload, and whether it was cut
unfoldable pub cap_clipboard_payload : Bytes → Mime → Bytes × Bool
unfolding reverse_onto pop_split is_text_mime
cap_clipboard_payload payload mime =
    if leb (length payload) max_clipboard_data
    then (payload, false)
    else let cut = take max_clipboard_data payload in
      (if is_text_mime mime then reversed (pop_split (reversed cut)) else cut, true)
