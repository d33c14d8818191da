-- ===== src/Prelude/Lines.antt =====
-- bufio.Scanner with ScanLines: the lines of a text without their newlines, each rid of one
-- carriage return at its end, up to a line that does not fit in the scanner's buffer.
use Prim.Native.Nat.{ℕ, ◌<◌}
use mathlib.Core.Path.{◌≡◌, refl, ap, sym}
use mathlib.Core.Logic.{◌≢◌}
use mathlib.Core.Bool.{Bool, true, false}
use mathlib.Core.List.{List, [], ◌∷◌, ◌++◌, append_assoc}
use native.Mathlib.Omega.{arith}
use fieldlink.Prelude.Tests.{nat_eq, ltb, if◌then◌else◌}
use fieldlink.Prelude.Lists.{length, All}
use fieldlink.Prelude.Texts.{Bytes}

-- The character in front of the lines that follow it.
abbrev prepend : ℕ → List Bytes → List Bytes
prepend c [] = (c ∷ []) ∷ []
prepend c (l ∷ ls) = (c ∷ l) ∷ ls

-- What stands before each newline, and behind the last one unless nothing does.
lines : Bytes → List Bytes
lines [] = []
lines (c ∷ s) = let rest = lines s in if nat_eq c b'\n' then [] ∷ rest else prepend c rest

drop_cr : Bytes → Bytes
drop_cr [] = []
drop_cr (c ∷ []) = if nat_eq c b'\r' then [] else c ∷ []
drop_cr (c ∷ d ∷ s) = c ∷ drop_cr (d ∷ s)

-- The tokens, and whether the scan stopped with bufio.ErrTooLong.
scan_from : ℕ → List Bytes → List Bytes × Bool
scan_from max [] = ([], false)
scan_from max (l ∷ ls) =
    let rest = scan_from max ls in
    if ltb (length l) max then (drop_cr l ∷ rest.0, rest.1) else ([], true)

unfoldable pub scan_lines : ℕ → Bytes → List Bytes × Bool
unfolding lines drop_cr scan_from
scan_lines max text = scan_from max (lines text)

-- A text of whole lines.
abbrev pub unlines : List Bytes → Bytes
unlines [] = []
unlines (l ∷ ls) = l ++ (b'\n' ∷ unlines ls)

-- A line that the scanner hands over as it stands.
pub record IsLine (max : ℕ) (l : Bytes) : Type 0 where
  pub plain : All (λ c. (c ≢ b'\n') × (c ≢ b'\r')) l
  pub short : length l < max

lines-line :
    (l s : Bytes) → All (λ c. (c ≢ b'\n') × (c ≢ b'\r')) l → lines (l ++ (b'\n' ∷ s)) ≡ l ∷ lines s
unfolding lines
lines-line [] s h = refl
lines-line (c ∷ l) s (p, h) = rw (lines-line l s h) (ground (arith, p.0))

drop_cr-plain : (l : Bytes) → All (λ c. (c ≢ b'\n') × (c ≢ b'\r')) l → drop_cr l ≡ l
unfolding drop_cr
drop_cr-plain [] h = refl
drop_cr-plain (c ∷ []) (p, h) = ground (arith, p.1)
drop_cr-plain (c ∷ d ∷ s) (p, h) = ap (λ t. c ∷ t) (drop_cr-plain (d ∷ s) h)

-- Whole lines that fit come back as they are.
pub scan_lines-unlines :
    (max : ℕ) (ls : List Bytes) → All (IsLine max) ls → scan_lines max (unlines ls) ≡ (ls, false)
unfolding scan_lines
scan_lines-unlines max [] h = refl
scan_lines-unlines max (l ∷ ls) (p, h) =
    rw (lines-line l (unlines ls) p.plain)
      (ground (arith, drop_cr-plain l p.plain, scan_lines-unlines max ls h, p.short))

pub unlines-append : (ls ms : List Bytes) → unlines (ls ++ ms) ≡ unlines ls ++ unlines ms
unlines-append [] ms = refl
unlines-append (l ∷ ls) ms =
    rw (unlines-append ls ms) (sym (append_assoc l (b'\n' ∷ unlines ls) (unlines ms)))
