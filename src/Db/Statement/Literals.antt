-- ===== src/Db/Statement/Literals.antt =====
-- What a literal and a block comment leave behind.
use fieldlink.Prelude.{
  ℕ, suc, Bytes, false, ◌&&◌, ◌||◌, [], ◌∷◌, ◌++◌, nat_eq, length, length-append, if◌then◌else◌,
  ◌≡◌, refl, sym, ap, ◌∙◌, arith, Bool-cases, inl, inr, ◌⊎◌,
}
use fieldlink.Db.Statement.{
  skip_block, skip_quoted, next_is, strip, strip_comments_and_literals, validate_statement,
}
use fieldlink.Db.Statement.Stripping.{strip_fuel, strip-block, strip-literal, strip-plain}

-- A text with each quote doubled, and the literal that holds it.
abbrev pub doubled : ℕ → Bytes → Bytes
doubled q [] = []
doubled q (c ∷ s) = if nat_eq c q then q ∷ q ∷ doubled q s else c ∷ doubled q s

abbrev pub literal : ℕ → Bytes → Bytes → Bytes
literal q body rest = q ∷ (doubled q body ++ (q ∷ rest))

skip_quoted-other :
    (q c : ℕ) (t : Bytes) → nat_eq c q ≡ false → skip_quoted q (c ∷ t) ≡ skip_quoted q t
unfolding skip_quoted
skip_quoted-other q c [] h = refl
skip_quoted-other q c (d ∷ s) h = rw h

skip_quoted-doubled :
    (q : ℕ) (body rest : Bytes)
    → next_is q rest ≡ false
    → skip_quoted q (doubled q body ++ (q ∷ rest)) ≡ rest
unfolding skip_quoted
skip_quoted-doubled q [] [] h = refl
skip_quoted-doubled q [] (d ∷ rest) h = ground (arith, h)
skip_quoted-doubled q (c ∷ body) rest h = elim (Bool-cases (nat_eq c q)) [
  | inl e ↦ rw e (ground (arith, skip_quoted-doubled q body rest h))
  | inr e ↦
      rw e
        (skip_quoted-other q c (doubled q body ++ (q ∷ rest)) e ∙ skip_quoted-doubled q body rest h)
]

-- A block comment's text: its end mark does not stand in it.
abbrev pub NoClose : Bytes → Type 0
NoClose [] = Unit
NoClose (c ∷ s) = ((nat_eq c b'*' && next_is b'/' s) ≡ false) × NoClose s

skip_block-NoClose :
    (body rest : Bytes) → NoClose body → skip_block (body ++ (b'*' ∷ b'/' ∷ rest)) ≡ rest
unfolding skip_block
skip_block-NoClose [] rest h = refl
skip_block-NoClose (c ∷ []) rest (p, h) = ground arith
skip_block-NoClose (c ∷ d ∷ s) rest (p, h) = ground (arith, skip_block-NoClose (d ∷ s) rest h)

-- Text that opens no comment and no literal, whatever follows it.
abbrev pub IsPlain : Bytes → Type 0
IsPlain [] = Unit
IsPlain (c ∷ s) =
    (nat_eq c b'-' ≡ false)
    × (nat_eq c b'/' ≡ false)
    × ((nat_eq c 39 || nat_eq c b'"') ≡ false)
    × IsPlain s

-- Plain text stays.
pub strip-append :
    (pre s : Bytes)
    → IsPlain pre
    → strip_comments_and_literals (pre ++ s) ≡ pre ++ strip_comments_and_literals s
unfolding strip_comments_and_literals
strip-append [] s h = refl
strip-append (c ∷ pre) s (a, b, l, h) =
    strip-plain (suc (length (pre ++ s))) c (pre ++ s) (rw a) (rw b) l
    ∙ ap (λ t. c ∷ t) (strip-append pre s h)

-- A literal leaves one space.
pub strip-quoted :
    (q : ℕ) (body rest : Bytes)
    → (q ≡ 39) ⊎ (q ≡ b'"')
    → next_is q rest ≡ false
    → strip_comments_and_literals (literal q body rest) ≡ b' ' ∷ strip_comments_and_literals rest
unfolding strip_comments_and_literals
strip-quoted q body rest quote h =
    strip-literal (suc (length (doubled q body ++ (q ∷ rest)))) q (doubled q body ++ (q ∷ rest))
      (ground arith) (ground arith) (ground arith)
    ∙ ap (λ t. b' ' ∷ t)
        (ap (strip (suc (length (doubled q body ++ (q ∷ rest)))))
            (skip_quoted-doubled q body rest h)
          ∙ strip_fuel (suc (length (doubled q body ++ (q ∷ rest)))) (suc (length rest)) rest
              (omega (arith, length-append {0} (doubled q body) (q ∷ rest))) (omega arith))

-- A block comment leaves nothing at all.
pub strip-comment :
    (body rest : Bytes)
    → NoClose body
    → strip_comments_and_literals (b'/' ∷ b'*' ∷ (body ++ (b'*' ∷ b'/' ∷ rest)))
      ≡ strip_comments_and_literals rest
unfolding strip_comments_and_literals
strip-comment body rest h =
    let inner : Bytes = body ++ (b'*' ∷ b'/' ∷ rest) in
    strip-block (suc (suc (length inner))) b'/' (b'*' ∷ inner) refl refl
    ∙ (ap (strip (suc (suc (length inner)))) (skip_block-NoClose body rest h)
        ∙ strip_fuel (suc (suc (length inner))) (suc (length rest)) rest
            (omega (arith, length-append {0} body (b'*' ∷ b'/' ∷ rest))) (omega arith))

same_verdict :
    (s t : Bytes)
    → strip_comments_and_literals s ≡ strip_comments_and_literals t
    → validate_statement s ≡ validate_statement t
unfolding validate_statement
same_verdict s t e = rw e

-- Whatever a literal holds, its quotes doubled, the verdict on the statement round it is the same,
-- where no comment or literal stands before it and no quote right behind it.
pub literal_hidden :
    (pre body body' rest : Bytes) (q : ℕ)
    → IsPlain pre
    → (q ≡ 39) ⊎ (q ≡ b'"')
    → next_is q rest ≡ false
    → validate_statement (pre ++ literal q body rest)
      ≡ validate_statement (pre ++ literal q body' rest)
literal_hidden pre body body' rest q h quote k = same_verdict _ _ (
    strip-append pre (literal q body rest) h
    ∙ (ap (λ t. pre ++ t)
          (strip-quoted q body rest quote k ∙ sym (strip-quoted q body' rest quote k))
        ∙ sym (strip-append pre (literal q body' rest) h)))

-- A block comment leaves nothing, not even a space: behind text without comment marks and quotes the
-- verdict is that on the statement with the comment cut out.
pub comment_vanishes :
    (pre body rest : Bytes)
    → IsPlain pre
    → NoClose body
    → validate_statement (pre ++ (b'/' ∷ b'*' ∷ (body ++ (b'*' ∷ b'/' ∷ rest))))
      ≡ validate_statement (pre ++ rest)
comment_vanishes pre body rest h k = same_verdict _ _ (
    strip-append pre (b'/' ∷ b'*' ∷ (body ++ (b'*' ∷ b'/' ∷ rest))) h
    ∙ (ap (λ t. pre ++ t) (strip-comment body rest k) ∙ sym (strip-append pre rest h)))
