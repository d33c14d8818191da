-- ===== src/Modbus/Decode/RoundTrip.antt =====
-- The two sides of the word-order convention agree.
use fieldlink.Prelude.{
  ℕ, ◌^◌, ◌<◌, pos, Bool, true, false, List, [], ◌∷◌, ◌≡◌, ap, arith, if◌then◌else◌,
}
use fieldlink.Prelude.Results.{ok}
use fieldlink.Modbus.Decode.{
  Floats, split_words, join_words, combine, encode_uint32, encode_float32, decode_numeric, int32,
}

-- The words that encode a value join to it, in either order.
pub join_words-encode_uint32 :
    (v : ℕ) (swapped : Bool)
    → v < 2 ^ 32
    → combine (join_words (encode_uint32 v swapped).0 (encode_uint32 v swapped).1 swapped) ≡ v
unfolding join_words encode_uint32 split_words
join_words-encode_uint32 v true h = omega arith
join_words-encode_uint32 v false h = omega arith

abbrev pub words : ℕ × ℕ → List ℕ
words p = p.0 ∷ p.1 ∷ []

abbrev pub factor : Floats → ℕ → ℕ
factor lib scale = if lib.is_zero scale then lib.one else scale

-- A value below 2^32 that is encoded as two words, in either order, is decoded to itself as a
-- uint32, to its two's complement as an int32, and to the float with its bits as a float32, times
-- the scale.
pub decode_numeric-encode_uint32 :
    (lib : Floats) (v : ℕ) (swapped : Bool) (scale : ℕ)
    → v < 2 ^ 32
    → (decode_numeric lib "uint32" (words (encode_uint32 v swapped)) swapped scale
        ≡ ok (lib.times (lib.of_integer (pos v)) (factor lib scale)))
      × (decode_numeric lib "int32" (words (encode_uint32 v swapped)) swapped scale
          ≡ ok (lib.times (lib.of_integer (int32 v)) (factor lib scale)))
      × (decode_numeric lib "float32" (words (encode_float32 v swapped)) swapped scale
          ≡ ok (lib.times (lib.of_float32 v) (factor lib scale)))
unfolding decode_numeric encode_float32
decode_numeric-encode_uint32 lib v swapped scale h =
    let joined = join_words-encode_uint32 v swapped h in
    (
      ap (λ n. ok (lib.times (lib.of_integer (pos n)) (factor lib scale))) joined,
      ap (λ n. ok (lib.times (lib.of_integer (int32 n)) (factor lib scale))) joined,
      ap (λ n. ok (lib.times (lib.of_float32 n) (factor lib scale))) joined,
    )
