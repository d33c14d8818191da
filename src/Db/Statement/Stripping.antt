-- ===== src/Db/Statement/Stripping.antt =====
-- What the tokenizer takes out of a statement: its fuel is enough, a literal leaves one space
-- whatever it holds, and a block comment leaves nothing.
use fieldlink.Prelude.{
  ℕ, zero, suc, ◌≤◌, ◌<◌, Bytes, true, false, ◌&&◌, ◌||◌, [], ◌∷◌, nat_eq, length, ◌≡◌, refl, sym,
  ap, ◌∙◌, arith, Bool-cases, inl, inr,
}
use fieldlink.Db.Statement.{
  skip_line, skip_block, skip_quoted, next_is, drop_one, strip, strip_comments_and_literals,
}

length-skip_line : (s : Bytes) → length (skip_line s) ≤ length s
unfolding skip_line
length-skip_line [] = omega arith
length-skip_line (c ∷ s) = ground (arith, length-skip_line s)

length-skip_block : (s : Bytes) → length (skip_block s) ≤ length s
unfolding skip_block
length-skip_block [] = omega arith
length-skip_block (c ∷ []) = omega arith
length-skip_block (c ∷ d ∷ s) = ground (arith, length-skip_block (d ∷ s))

length-skip_quoted : (q : ℕ) (s : Bytes) → length (skip_quoted q s) ≤ length s
unfolding skip_quoted
length-skip_quoted q [] = omega arith
length-skip_quoted q (c ∷ []) = omega arith
length-skip_quoted q (c ∷ d ∷ s) =
    ground (arith, length-skip_quoted q s, length-skip_quoted q (d ∷ s))

length-drop_one : (s : Bytes) → length (drop_one s) ≤ length s
length-drop_one [] = omega arith
length-drop_one (c ∷ s) = omega arith

skip_line-dash : (s : Bytes) → skip_line (b'-' ∷ s) ≡ skip_line s
unfolding skip_line
skip_line-dash s = refl

-- The four ways of a round.
pub strip-line :
    (n c : ℕ) (s : Bytes)
    → (nat_eq c b'-' && next_is b'-' s) ≡ true
    → strip (suc n) (c ∷ s) ≡ strip n (skip_line s)
unfolding strip
strip-line n c s h = ground (arith, h, skip_line-dash s)

pub strip-block :
    (n c : ℕ) (s : Bytes)
    → (nat_eq c b'-' && next_is b'-' s) ≡ false
    → (nat_eq c b'/' && next_is b'*' s) ≡ true
    → strip (suc n) (c ∷ s) ≡ strip n (skip_block (drop_one s))
unfolding strip
strip-block n c s h k = rw (h, k)

pub strip-literal :
    (n c : ℕ) (s : Bytes)
    → (nat_eq c b'-' && next_is b'-' s) ≡ false
    → (nat_eq c b'/' && next_is b'*' s) ≡ false
    → (nat_eq c 39 || nat_eq c b'"') ≡ true
    → strip (suc n) (c ∷ s) ≡ b' ' ∷ strip n (skip_quoted c s)
unfolding strip
strip-literal n c s h k l = rw (h, k, l)

pub strip-plain :
    (n c : ℕ) (s : Bytes)
    → (nat_eq c b'-' && next_is b'-' s) ≡ false
    → (nat_eq c b'/' && next_is b'*' s) ≡ false
    → (nat_eq c 39 || nat_eq c b'"') ≡ false
    → strip (suc n) (c ∷ s) ≡ c ∷ strip n s
unfolding strip
strip-plain n c s h k l = rw (h, k, l)

-- Any two amounts of fuel that exceed the length give the same text.
pub strip_fuel : (n m : ℕ) (s : Bytes) → length s < n → length s < m → strip n s ≡ strip m s
strip_fuel zero m s h k = absurd (omega arith)
strip_fuel (suc n) zero s h k = absurd (omega arith)
strip_fuel (suc n) (suc m) [] h k = unfold strip in refl
strip_fuel (suc n) (suc m) (c ∷ s) h k = elim (Bool-cases (nat_eq c b'-' && next_is b'-' s)) [
  | inl a ↦
      strip-line n c s a
      ∙ (strip_fuel n m (skip_line s) (omega (arith, length-skip_line s))
            (omega (arith, length-skip_line s))
          ∙ sym (strip-line m c s a))
  | inr a ↦ elim (Bool-cases (nat_eq c b'/' && next_is b'*' s)) [
    | inl b ↦
        let less : length (skip_block (drop_one s)) ≤ length s =
          omega (arith, length-skip_block (drop_one s), length-drop_one s) in
        strip-block n c s a b
        ∙ (strip_fuel n m (skip_block (drop_one s)) (omega arith) (omega arith)
            ∙ sym (strip-block m c s a b))
    | inr b ↦ elim (Bool-cases (nat_eq c 39 || nat_eq c b'"')) [
      | inl l ↦
          strip-literal n c s a b l
          ∙ (ap (λ t. b' ' ∷ t)
                (strip_fuel n m (skip_quoted c s) (omega (arith, length-skip_quoted c s))
                  (omega (arith, length-skip_quoted c s)))
              ∙ sym (strip-literal m c s a b l))
      | inr l ↦
          strip-plain n c s a b l
          ∙ (ap (λ t. c ∷ t) (strip_fuel n m s (omega arith) (omega arith))
              ∙ sym (strip-plain m c s a b l))
    ]
  ]
]

-- The loop ends on every statement: more rounds than characters change nothing.
pub strip_total :
    (n : ℕ) (sql : Bytes) → length sql < n → strip n sql ≡ strip_comments_and_literals sql
unfolding strip_comments_and_literals
strip_total n sql h = strip_fuel n (suc (length sql)) sql h (omega arith)
