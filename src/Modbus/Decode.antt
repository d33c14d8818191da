-- ===== src/Modbus/Decode.antt =====
-- internal/exec/device/modbus/decode.go: engineering values from register words and back. A uint16
-- or uint32 is a number below its bound, a float its IEEE-754 bit pattern; the arithmetic of floats
-- is a parameter.
pub mod RoundTrip
use fieldlink.Prelude.{
  ℕ, ◌+◌, ◌-◌, ◌*◌, ◌/◌, ◌%◌, ◌^◌, ℤ, pos, negsuc, ltb, String, Bool, true, false, not, ◌&&◌, List,
  [], ◌∷◌, Option, none, some, ◌==◌, if◌then◌else◌,
}
use fieldlink.Prelude.Results.{Result, ok, err}

-- float64(n), float64(float32), x * y, x == 0, x <= y
pub record Floats : Type 0 where
  pub of_integer : ℤ → ℕ
  pub of_float32 : ℕ → ℕ
  pub times : ℕ → ℕ → ℕ
  pub is_zero : ℕ → Bool
  pub at_most : ℕ → ℕ → Bool
  pub one : ℕ

pub data DecodeError : Type 0 where
  wrong_count unknown_type : DecodeError

-- WordCount
unfoldable pub word_count : String → Option ℕ
word_count typ =
    if typ == "bool"
    then some 0
    else if typ == "uint16"
    then some 1
    else if typ == "int16"
    then some 1
    else if typ == "uint32"
    then some 2
    else if typ == "int32"
    then some 2
    else if typ == "float32"
    then some 2
    else none

-- splitWords
unfoldable pub split_words : ℕ → ℕ → Bool → ℕ × ℕ
split_words hi lo swapped = if swapped then (lo, hi) else (hi, lo)

-- joinWords
unfoldable pub join_words : ℕ → ℕ → Bool → ℕ × ℕ
join_words a b swapped = if swapped then (b, a) else (a, b)

-- uint32(hi)<<16 | uint32(lo)
abbrev pub combine : ℕ × ℕ → ℕ
combine p = p.0 * 2 ^ 16 + p.1

-- EncodeUint32 and EncodeFloat32
unfoldable pub encode_uint32 : ℕ → Bool → ℕ × ℕ
encode_uint32 v swapped = split_words (v / 2 ^ 16 % 2 ^ 16) (v % 2 ^ 16) swapped

unfoldable pub encode_float32 : ℕ → Bool → ℕ × ℕ
encode_float32 bits swapped = encode_uint32 bits swapped

-- int16(n) and int32(n)
abbrev pub int16 : ℕ → ℤ
int16 n = if ltb n (2 ^ 15) then pos n else negsuc (2 ^ 16 - 1 - n)

abbrev pub int32 : ℕ → ℤ
int32 n = if ltb n (2 ^ 31) then pos n else negsuc (2 ^ 32 - 1 - n)

-- One register, and two.
abbrev pub one_word : List ℕ → (ℕ → ℕ) → Result DecodeError ℕ
one_word (w ∷ []) f = ok (f w)
one_word _ f = err wrong_count

abbrev pub two_words : List ℕ → Bool → (ℕ → ℕ) → Result DecodeError ℕ
two_words (a ∷ b ∷ []) swapped f = ok (f (combine (join_words a b swapped)))
two_words _ swapped f = err wrong_count

-- DecodeNumeric
unfoldable pub decode_numeric : Floats → String → List ℕ → Bool → ℕ → Result DecodeError ℕ
decode_numeric lib typ raw swapped scale =
    let factor = if lib.is_zero scale then lib.one else scale in
    if typ == "uint16"
    then one_word raw (λ w. lib.times (lib.of_integer (pos w)) factor)
    else if typ == "int16"
    then one_word raw (λ w. lib.times (lib.of_integer (int16 w)) factor)
    else if typ == "uint32"
    then two_words raw swapped (λ v. lib.times (lib.of_integer (pos v)) factor)
    else if typ == "int32"
    then two_words raw swapped (λ v. lib.times (lib.of_integer (int32 v)) factor)
    else if typ == "float32"
    then two_words raw swapped (λ v. lib.times (lib.of_float32 v) factor)
    else err unknown_type

-- InRange
unfoldable pub in_range : Floats → ℕ → List ℕ → Bool
in_range lib v (low ∷ high ∷ []) = lib.at_most low v && lib.at_most v high
in_range lib v _ = true
