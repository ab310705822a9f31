-- ===== src/Wire/Codec.antt =====
-- crates/wayray-protocol/src/codec.rs: messages behind a length prefix of four bytes. The
-- serialisation of a payload is that of the crate `postcard`, which is a parameter.
pub mod Framing
use wayray.Base.{
  ℕ, suc, ◌+◌, ◌*◌, ◌/◌, ◌%◌, ◌^◌, ◌≡◌, Bool, true, false, Option, none, some, List, [], ◌∷◌, ◌++◌,
  length, take, drop, ltb, if◌then◌else◌,
}

-- A byte is a number below 256.
abbrev pub Bytes : Type 0
Bytes = List ℕ

-- `postcard::to_allocvec` and `postcard::from_bytes` for one type of messages
pub record Postcard (T : Type 0) : Type 0 where
  pub to_allocvec : T → Option Bytes
  pub from_bytes : Bytes → Option T

-- What the crate documents: a serialised value deserialises to itself.
abbrev pub RoundTrips : {T : Type 0} → Postcard T → Type 0
RoundTrips {T} p =
    (msg : T) (payload : Bytes) → p.to_allocvec msg ≡ some payload → p.from_bytes payload ≡ some msg

pub data CodecError : Type 0 where
  serialize : CodecError
  too_large : ℕ → ℕ → CodecError

pub data Result {ℓ} (A : Type ℓ) : Type ℓ where
  ok : A → Result A
  err : CodecError → Result A

abbrev pub max_message_size : ℕ
max_message_size = 64 * 1024 * 1024

-- `check_message_size`
unfoldable pub check_message_size : ℕ → Result (Unit {0})
check_message_size size =
    if ltb max_message_size size then err (too_large size max_message_size) else ok tt

-- `u32::to_le_bytes`
unfoldable pub to_le_bytes : ℕ → Bytes
to_le_bytes n = n % 256 ∷ n / 256 % 256 ∷ n / 65536 % 256 ∷ n / 16777216 % 256 ∷ []

-- `u32::from_le_bytes`
unfoldable pub from_le_bytes : ℕ → ℕ → ℕ → ℕ → ℕ
from_le_bytes a b c d = a + 256 * b + 65536 * c + 16777216 * d

-- `encode`. `payload.len() as u32` keeps the low 32 bits.
unfoldable pub encode : {T : Type 0} → Postcard T → T → Result Bytes
encode p msg = elim (p.to_allocvec msg) [
  | none ↦ err serialize
  | some payload ↦ ok (to_le_bytes (length payload % 2 ^ 32) ++ payload)
]

-- `decode`
unfoldable pub decode : {T : Type 0} → Postcard T → Bytes → Result T
decode p bytes = elim (p.from_bytes bytes) [ none ↦ err serialize | some msg ↦ ok msg ]

-- `read_length_prefix`
unfoldable pub read_length_prefix : Bytes → Option (ℕ × Bytes)
read_length_prefix (a ∷ b ∷ c ∷ d ∷ rest) = some (from_le_bytes a b c d, rest)
read_length_prefix _ = none

-- the end of `try_decode_framed`, with the prefix read
unfoldable pub decode_rest : {T : Type 0} → Postcard T → ℕ → Bytes → Result (Option (T × ℕ))
unfolding decode
decode_rest p len rest =
    if ltb (length rest) len
    then ok none
    else elim (decode p (take len rest)) [ err e ↦ err e | ok msg ↦ ok (some (msg, 4 + len)) ]

-- `try_decode_framed`
unfoldable pub try_decode_framed : {T : Type 0} → Postcard T → Bytes → Result (Option (T × ℕ))
unfolding read_length_prefix
try_decode_framed p buf = elim (read_length_prefix buf) [
  | none ↦ ok none
  | some (len, rest) ↦ decode_rest p len rest
]
