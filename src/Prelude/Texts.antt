-- ===== src/Prelude/Texts.antt =====
-- Text that the program walks is a list of numbers: bytes, or code points where the source
-- converts to runes.
use Prim.Native.Nat.{ℕ}
use Prim.Native.Char.{code}
use Prim.Native.String.{String}
use mathlib.Core.Path.{◌≡◌, refl, ap}
use mathlib.Core.Logic.{◌≢◌, ◌⊎◌, inl, inr}
use mathlib.Core.Bool.{Bool, true, false, ◌&&◌, ◌||◌}
use mathlib.Core.List.{List, [], ◌∷◌, ◌++◌}
use native.Mathlib.Omega.{arith}
use fieldlink.Prelude.Tests.{nat_eq, leb, if◌then◌else◌}
use fieldlink.Prelude.Lists.{All, All-append}

abbrev pub Bytes : Type 0
Bytes = List ℕ

-- The code points of a literal: its bytes, as every literal of the model is ASCII.
abbrev pub codes : String → Bytes
codes String.[] = []
codes (String.◌∷◌ c s) = code c ∷ codes s

-- strings.HasPrefix(s, prefix)
abbrev pub has_prefix : Bytes → Bytes → Bool
has_prefix s [] = true
has_prefix [] (p ∷ ps) = false
has_prefix (c ∷ s) (p ∷ ps) = nat_eq c p && has_prefix s ps

-- Byte-wise equality of two texts.
abbrev pub bytes_eq : Bytes → Bytes → Bool
bytes_eq [] [] = true
bytes_eq (c ∷ s) (d ∷ t) = nat_eq c d && bytes_eq s t
bytes_eq _ _ = false

pub bytes_eq_refl : (s : Bytes) → bytes_eq s s ≡ true
bytes_eq_refl [] = refl
bytes_eq_refl (c ∷ s) = ground (arith, bytes_eq_refl s)

pub bytes_eq→eq : (s t : Bytes) → bytes_eq s t ≡ true → s ≡ t
bytes_eq→eq [] [] h = refl
bytes_eq→eq [] (d ∷ t) h = cc
bytes_eq→eq (c ∷ s) [] h = cc
bytes_eq→eq (c ∷ s) (d ∷ t) h = ground (arith, bytes_eq→eq s t)

-- The text begins with the prefix exactly when something completes it.
pub has_prefix-append : (p r : Bytes) → has_prefix (p ++ r) p ≡ true
has_prefix-append [] r = refl
has_prefix-append (c ∷ p) r = ground (arith, has_prefix-append p r)

-- unicode.IsSpace
abbrev pub is_space : ℕ → Bool
is_space c =
    (leb 9 c && leb c 13)
    || nat_eq c 32
    || nat_eq c 0x85
    || nat_eq c 0xa0
    || nat_eq c 0x1680
    || (leb 0x2000 c && leb c 0x200a)
    || nat_eq c 0x2028
    || nat_eq c 0x2029
    || nat_eq c 0x202f
    || nat_eq c 0x205f
    || nat_eq c 0x3000

-- The text without the characters at its start, or at its end, that satisfy the test.
abbrev pub trim_left : (ℕ → Bool) → Bytes → Bytes
trim_left p [] = []
trim_left p (c ∷ s) = let rest = trim_left p s in if p c then rest else c ∷ s

abbrev trim_step : Bool → ℕ → Bytes → Bytes
trim_step drop c [] = if drop then [] else c ∷ []
trim_step drop c (d ∷ s) = c ∷ d ∷ s

abbrev pub trim_right : (ℕ → Bool) → Bytes → Bytes
trim_right p [] = []
trim_right p (c ∷ s) = trim_step (p c) c (trim_right p s)

-- strings.TrimSpace
unfoldable pub trim_space : Bytes → Bytes
trim_space s = trim_right is_space (trim_left is_space s)

trim_left-none : (p : ℕ → Bool) (s : Bytes) → All (λ c. p c ≡ false) s → trim_left p s ≡ s
trim_left-none p [] h = refl
trim_left-none p (c ∷ s) (e, h) = rw e

trim_right-none : (p : ℕ → Bool) (s : Bytes) → All (λ c. p c ≡ false) s → trim_right p s ≡ s
trim_right-none p [] h = refl
trim_right-none p (c ∷ []) (e, h) = rw e
trim_right-none p (c ∷ d ∷ s) (e, h) = rw (trim_right-none p (d ∷ s) h)

-- A text with no space in it is left alone.
pub trim_space-none : (s : Bytes) → All (λ c. is_space c ≡ false) s → trim_space s ≡ s
unfolding trim_space
trim_space-none s h = rw (trim_left-none is_space s h) (trim_right-none is_space s h)

pub bytes_eq→ne : (s t : Bytes) → bytes_eq s t ≡ false → s ≢ t
bytes_eq→ne s t h e = cc (h, ap (bytes_eq s) e, bytes_eq_refl s)

-- The parts of a format, one after another.
abbrev pub flatten : List Bytes → Bytes
flatten [] = []
flatten (s ∷ ss) = s ++ flatten ss

pub All-flatten : (P : ℕ → Type 0) (ss : List Bytes) → All (All P) ss → All P (flatten ss)
All-flatten P [] h = tt
All-flatten P (s ∷ ss) (p, h) = All-append P s (flatten ss) p (All-flatten P ss h)

pub Bytes-cases : (s : Bytes) → (s ≡ []) ⊎ ((c : ℕ) × (r : Bytes) × (s ≡ c ∷ r))
Bytes-cases [] = inl refl
Bytes-cases (c ∷ r) = inr (c, r, refl)
