-- ===== src/Tests/Stubs/Encoding.antt =====
-- A stand-in for base64: two letters for a byte, the high half first.
use fieldlink.Prelude.{
  ℕ, ◌+◌, ◌-◌, ◌*◌, ◌/◌, ◌%◌, ◌<◌, Bytes, true, [], ◌∷◌, Option, none, some, length, All, take, ◌≡◌,
  refl, arith, ap,
}
use fieldlink.Grant.Keys.{Encodings}
use fieldlink.Grant.Keys.RoundTrip.{IsBase64, IsOctets, is_base64}

abbrev encode : Bytes → Bytes
encode [] = []
encode (c ∷ s) = (b'a' + c / 16) ∷ (b'a' + c % 16) ∷ encode s

abbrev decode : Bytes → Option Bytes
decode [] = some []
decode (c ∷ []) = none
decode (c ∷ d ∷ s) = elim (decode s) [
  | none ↦ none
  | some rest ↦ some (((c - b'a') * 16 + (d - b'a')) ∷ rest)
]

abbrev pub letters : Encodings
letters = record { encode_base64 = encode; decode_base64 = decode; sha256 = take 32; hex = encode }

octet_halves : (c : ℕ) → (b'a' + c / 16 - b'a') * 16 + (b'a' + c % 16 - b'a') ≡ c
octet_halves c = omega arith

decode-encode : (b : Bytes) → decode (encode b) ≡ some b
decode-encode [] = refl
decode-encode (c ∷ s) = rw (decode-encode s) (ap (λ n. some (n ∷ s)) (octet_halves c))

encode-is_base64 : (b : Bytes) → IsOctets b → All (λ c. is_base64 c ≡ true) (encode b)
encode-is_base64 [] h = tt
encode-is_base64 (c ∷ s) (e, h) =
    let high : c / 16 < 16 = omega arith in
    let low : c % 16 < 16 = omega arith in
    (ground (arith, high), (ground (arith, low), encode-is_base64 s h))

length-encode : (b : Bytes) → length (encode b) ≡ 2 * length b
length-encode [] = refl
length-encode (c ∷ s) = omega (arith, length-encode s)

pub letters-IsBase64 : IsBase64 letters
letters-IsBase64 = record {
  decode_encode = λ b h. decode-encode b;
  alphabet = encode-is_base64;
  encoded_some = λ b h. omega (arith, length-encode b);
  encoded_len = λ b. omega (arith, length-encode b);
}
