-- ===== src/Db/Statement/Semicolons.antt =====
-- What an accepted statement looks like once comments and literals are gone.
use fieldlink.Prelude.{
  ℕ, Bytes, trim_space, trim_right, Bool, true, false, [], ◌∷◌, none, nat_eq, bytes_eq→eq,
  bytes_eq→ne, ◌≡◌, ◌≢◌, refl, ◌↔◌, inl, inr, arith, All, Bool-cases, Bytes-cases,
}
use fieldlink.Db.Statement.{
  in_cutset, contains_semicolon, leads_with_keyword, validate_statement,
  strip_comments_and_literals,
}

-- Every semicolon has nothing behind it but semicolons, blanks, tabs and line ends.
abbrev pub OnlyTrailing : Bytes → Type 0
OnlyTrailing [] = Unit
OnlyTrailing (c ∷ s) = (c ≡ b';' → All (λ d. in_cutset d ≡ true) s) × OnlyTrailing s

All-OnlyTrailing : (s : Bytes) → All (λ d. in_cutset d ≡ true) s → OnlyTrailing s
All-OnlyTrailing [] h = tt
All-OnlyTrailing (c ∷ s) (p, h) = ((λ e. h), All-OnlyTrailing s h)

module _ (p : ℕ → Bool) where
  trimmed_away : (s : Bytes) → trim_right p s ≡ [] → All (λ d. p d ≡ true) s
  trimmed_away [] h = tt
  trimmed_away (c ∷ s) h = elim (Bytes-cases (trim_right p s)) [
    | inl e ↦ (ground (arith, e, h), trimmed_away s e)
    | inr (d, r, e) ↦ absurd (ground (arith, e, h))
  ]

  trim_right_away : (s : Bytes) → All (λ d. p d ≡ true) s → trim_right p s ≡ []
  trim_right_away [] h = refl
  trim_right_away (c ∷ s) (e, h) = ground (arith, trim_right_away s h)

semicolon_cut : (c : ℕ) → in_cutset c ≡ false → c ≢ b';'
semicolon_cut c h = ground arith

OnlyTrailing-sound :
    (s : Bytes) → contains_semicolon (trim_right in_cutset s) ≡ false → OnlyTrailing s
OnlyTrailing-sound [] h = tt
OnlyTrailing-sound (c ∷ s) h = elim (Bytes-cases (trim_right in_cutset s)) [
  | inl e ↦ let away = trimmed_away in_cutset s e in ((λ _. away), All-OnlyTrailing s away)
  | inr (d, r, e) ↦
      let whole : contains_semicolon (c ∷ d ∷ r) ≡ false = rw e at h in
      ((λ f. absurd (ground arith)), OnlyTrailing-sound s (rw e (ground arith)))
]

OnlyTrailing-complete :
    (s : Bytes) → OnlyTrailing s → contains_semicolon (trim_right in_cutset s) ≡ false
OnlyTrailing-complete [] h = refl
OnlyTrailing-complete (c ∷ s) (q, h) = elim (Bytes-cases (trim_right in_cutset s)) [
  | inl e ↦ rw e (ground (arith, semicolon_cut c))
  | inr (d, r, e) ↦
      let rest : contains_semicolon (d ∷ r) ≡ false = rw e at (OnlyTrailing-complete s h) in
      elim (Bool-cases (nat_eq c b';')) [
        | inl f ↦ absurd (cc (e, trim_right_away in_cutset s (q (ground arith))))
        | inr f ↦ rw e (rw f rest)
      ]
]

-- The text behind comments and literals, trimmed.
abbrev pub bare : Bytes → Bytes
bare sql = trim_space (strip_comments_and_literals sql)

-- A statement is accepted exactly when, with its comments and literals gone and the space round it
-- trimmed, it is not empty, begins with SELECT or WITH in any case, and has nothing behind a
-- semicolon but semicolons, blanks, tabs and line ends.
pub validate_statement_iff :
    (sql : Bytes)
    → (validate_statement sql ≡ none)
      ↔ ((bare sql ≢ []) × (leads_with_keyword (bare sql) ≡ true) × OnlyTrailing (bare sql))
unfolding validate_statement
validate_statement_iff sql = (
  (λ h.
      (bytes_eq→ne _ _ (ground arith), ground arith, OnlyTrailing-sound (bare sql) (ground arith))),
  (λ p. ground (arith, bytes_eq→eq (bare sql) [], p.0, p.1, OnlyTrailing-complete (bare sql) p.2)),
)
