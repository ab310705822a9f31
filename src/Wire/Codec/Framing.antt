-- ===== src/Wire/Codec/Framing.antt =====
-- Framed messages of crates/wayray-protocol/src/codec.rs, whole and cut off.
use mathlib.Core.List.{append_assoc}
use wayray.Base.{
  ℕ, zero, suc, ◌+◌, ◌/◌, ◌%◌, ◌^◌, ◌≤◌, ◌<◌, ◌≡◌, refl, subst, ap, ◌∙◌, inl, inr, none, some, [],
  ◌∷◌, ◌++◌, length, take, arith, Option-cases, length-append,
}
use wayray.Wire.Codec.{
  Bytes, Postcard, RoundTrips, ok, encode, decode, to_le_bytes, from_le_bytes, decode_rest,
  try_decode_framed,
}

-- Every 32-bit length survives the prefix.
from_le_bytes-to_le_bytes :
    (n : ℕ)
    → n < 2 ^ 32
    → from_le_bytes (n % 256) (n / 256 % 256) (n / 65536 % 256) (n / 16777216 % 256) ≡ n
unfolding from_le_bytes
from_le_bytes-to_le_bytes n h = omega arith

take-append : (xs ys : Bytes) → take (length xs) (xs ++ ys) ≡ xs
take-append [] ys = refl
take-append (x ∷ xs) ys = ap (◌∷◌ x) (take-append xs ys)

length-take-le : (n : ℕ) (xs : Bytes) → length (take n xs) ≤ n
length-take-le zero xs = omega arith
length-take-le (suc n) [] = omega arith
length-take-le (suc n) (x ∷ xs) = omega (arith, length-take-le n xs)

module _ {T : Type 0} (p : Postcard T) where
  -- The frame of a message.
  encode-ok :
      (msg : T) (frame : Bytes)
      → encode p msg ≡ ok frame
      → (payload : Bytes) × (p.to_allocvec msg ≡ some payload)
        × (frame ≡ to_le_bytes (length payload % 2 ^ 32) ++ payload)
  unfolding encode
  encode-ok msg frame h = elim (Option-cases (p.to_allocvec msg)) [
    | inl e ↦ absurd (ground arith)
    | inr (payload, e) ↦ (payload, e, ground arith)
  ]

  decode_rest-whole :
      (msg : T) (payload rest : Bytes)
      → p.from_bytes payload ≡ some msg
      → decode_rest p (length payload) (payload ++ rest) ≡ ok (some (msg, 4 + length payload))
  unfolding decode_rest decode
  decode_rest-whole msg payload rest h =
      ground (arith, take-append payload rest, length-append payload rest)

  try_decode_framed-prefix :
      (n : ℕ) (xs : Bytes)
      → n < 2 ^ 32
      → try_decode_framed p (to_le_bytes n ++ xs) ≡ decode_rest p n xs
  unfolding try_decode_framed to_le_bytes
  try_decode_framed-prefix n xs h = ap (λ k. decode_rest p k xs) (from_le_bytes-to_le_bytes n h)

  short-prefix :
      (payload : Bytes) (n : ℕ)
      → length (to_le_bytes n ++ payload) < 2 ^ 32
      → length payload < 2 ^ 32
  unfolding to_le_bytes
  short-prefix payload n h = omega arith

  -- A frame of less than 4 GiB at the head of a buffer, whatever follows it, decodes to its
  -- message, and the bytes consumed are those of the frame, if the payloads round-trip.
  pub try_decode_framed-encode :
      (msg : T) (frame rest : Bytes)
      → RoundTrips p
      → length frame < 2 ^ 32
      → encode p msg ≡ ok frame
      → try_decode_framed p (frame ++ rest) ≡ ok (some (msg, length frame))
  try_decode_framed-encode msg frame rest round short h =
      let (payload, e, f) = encode-ok msg frame h in
      let whole : length payload < 2 ^ 32 =
        short-prefix payload (length payload % 2 ^ 32) (subst (λ x. length x < 2 ^ 32) f short) in
      let same : length payload % 2 ^ 32 ≡ length payload = omega arith in
      let plain : frame ≡ to_le_bytes (length payload) ++ payload = rw same at f in
      let long : length frame ≡ 4 + length payload = rw plain (unfold to_le_bytes in omega arith) in
      rw long (
        rw plain (
          ap (try_decode_framed p) (append_assoc (to_le_bytes (length payload)) payload rest)
          ∙ try_decode_framed-prefix (length payload) (payload ++ rest) whole
          ∙ decode_rest-whole msg payload rest (round msg payload e)))

  -- The beginnings of a frame: less than the prefix, or the prefix and less than the payload.
  begun :
      (n : ℕ) (payload : Bytes)
      → length payload < 2 ^ 32
      → n < length (to_le_bytes (length payload % 2 ^ 32) ++ payload)
      → try_decode_framed p (take n (to_le_bytes (length payload % 2 ^ 32) ++ payload)) ≡ ok none
  unfolding try_decode_framed to_le_bytes decode_rest
  begun zero payload short less = refl
  begun (suc zero) payload short less = refl
  begun (suc (suc zero)) payload short less = refl
  begun (suc (suc (suc zero))) payload short less = refl
  begun (suc (suc (suc (suc n)))) payload short less =
      ground (arith, length-take-le n payload, from_le_bytes-to_le_bytes (length payload % 2 ^ 32))

  -- A buffer that holds only the beginning of a frame of less than 4 GiB asks for more, and is not
  -- an error.
  pub try_decode_framed_incomplete :
      (msg : T) (frame : Bytes) (n : ℕ)
      → length frame < 2 ^ 32
      → encode p msg ≡ ok frame
      → n < length frame
      → try_decode_framed p (take n frame) ≡ ok none
  try_decode_framed_incomplete msg frame n short h less =
      let (payload, e, f) = encode-ok msg frame h in
      rw f (
        begun n payload
          (short-prefix payload (length payload % 2 ^ 32) (subst (λ x. length x < 2 ^ 32) f short))
          (subst (λ x. n < length x) f less))
