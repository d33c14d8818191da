-- ===== src/Mcp/Oauth/Scopes.antt =====
-- Which tokens are accepted.
use fieldlink.Prelude.{
  Bytes, bytes_eq, bytes_eq→eq, bytes_eq_refl, true, false, List, [], ◌∷◌, ◌++◌, Option, none, some,
  nat_eq, ◌≡◌, ◌≢◌, refl, sym, ap, ◌∙◌, ◌↔◌, inl, inr, arith, All, Some, Bool-cases, Option-cases,
  append_assoc, append-nil,
}
use fieldlink.Prelude.Results.{ok}
use fieldlink.Mcp.Oauth.{
  IdToken, TokenInfo, emit, split_from, split_scopes, join_rest, join_scopes, contains,
  first_missing, scope_or_empty, verify_token,
}

-- The scope is one of the list.
abbrev pub IsIn : List Bytes → Bytes → Type 0
IsIn scopes r = Some (λ s. s ≡ r) scopes

pub contains-IsIn : (scopes : List Bytes) (r : Bytes) → contains scopes r ≡ true → IsIn scopes r
contains-IsIn [] r h = absurd (cc (h))
contains-IsIn (s ∷ scopes) r h = elim (Bool-cases (bytes_eq s r)) [
  | inl e ↦ inl (bytes_eq→eq s r e)
  | inr e ↦ inr (contains-IsIn scopes r (ground (arith, e, h)))
]

pub IsIn-contains : (scopes : List Bytes) (r : Bytes) → IsIn scopes r → contains scopes r ≡ true
IsIn-contains [] r h = absurd h
IsIn-contains (s ∷ scopes) r (inl e) = rw e (ground (arith, bytes_eq_refl r))
IsIn-contains (s ∷ scopes) r (inr h) = ground (arith, IsIn-contains scopes r h)

first_missing-none :
    (scopes required : List Bytes)
    → (first_missing scopes required ≡ none) ↔ All (IsIn scopes) required
first_missing-none scopes [] = ((λ h. tt), (λ h. refl))
first_missing-none scopes (r ∷ rs) = (
  (λ h. elim (Bool-cases (contains scopes r)) [
    | inl e ↦ (contains-IsIn scopes r e, (first_missing-none scopes rs).0 (ground (arith, e, h)))
    | inr e ↦ absurd (ground (arith, e, h))
  ]),
  (λ p. ground (arith, IsIn-contains scopes r p.0, (first_missing-none scopes rs).1 p.1)),
)

-- The scopes of a verified token.
abbrev pub scopes_of : IdToken → List Bytes
scopes_of t = split_scopes (scope_or_empty t.scope)

abbrev pub info_of : IdToken → TokenInfo
info_of t = record { scopes = scopes_of t; expiration = t.expiry; user_id = t.subject }

-- A token is accepted exactly when the verifier accepts it and its scope claim, split at the spaces,
-- has every required scope; the caller is then the token's subject.
pub verify_token_iff :
    (verifier : Bytes → Option IdToken) (required : List Bytes) (token : Bytes) (info : TokenInfo)
    → (verify_token verifier required token ≡ ok info) ↔ (
        (t : IdToken) × (verifier token ≡ some t)
        × All (IsIn (scopes_of t)) required
        × (info_of t ≡ info))
unfolding verify_token
verify_token_iff verifier required token info = (
  (λ h. elim (Option-cases (verifier token)) [
    | inl e ↦ absurd (ground (arith, e, h))
    | inr (t, e) ↦ elim (Option-cases (first_missing (scopes_of t) required)) [
      | inr (r, f) ↦ absurd (ground (arith, e, f, h))
      | inl f ↦ (t, e, (first_missing-none (scopes_of t) required).0 f, ground (arith, e, f, h))
    ]
  ]),
  (λ p. ground (arith, p.1, (first_missing-none (scopes_of p.0) required).1 p.2, p.3)),
)

-- A scope: not empty, and without a space.
pub record IsScope (s : Bytes) : Type 0 where
  pub some_text : s ≢ []
  pub plain : All (λ c. nat_eq c b' ' ≡ false) s

split_from-plain :
    (current s t : Bytes)
    → All (λ c. nat_eq c b' ' ≡ false) s
    → split_from current (s ++ t) ≡ split_from (current ++ s) t
unfolding split_from
split_from-plain current [] t h = ap (λ k. split_from k t) (sym (append-nil current))
split_from-plain current (c ∷ s) t (e, h) = rw e (
    split_from-plain (current ++ c ∷ []) s t h
    ∙ ap (λ k. split_from k t) (append_assoc current (c ∷ []) s))

emit-some : (s : Bytes) (out : List Bytes) → s ≢ [] → emit s out ≡ s ∷ out
emit-some [] out h = absurd (h refl)
emit-some (c ∷ s) out h = refl

split_from-join_rest :
    (s : Bytes) (ss : List Bytes)
    → IsScope s
    → All IsScope ss
    → split_from s (join_rest ss) ≡ s ∷ ss
unfolding split_from
split_from-join_rest s [] p h = emit-some s [] p.some_text
split_from-join_rest s (t ∷ ss) p (q, h) =
    ap (emit s) (split_from-plain [] t (join_rest ss) q.plain ∙ split_from-join_rest t ss q h)
    ∙ emit-some s (t ∷ ss) p.some_text

-- The scopes that the local issuer joins into a token, none of them empty or with a space, are those
-- that the token's verifier splits off.
pub split_scopes-join_scopes :
    (ss : List Bytes) → All IsScope ss → split_scopes (join_scopes ss) ≡ ss
unfolding split_scopes join_scopes split_from
split_scopes-join_scopes [] h = refl
split_scopes-join_scopes (s ∷ ss) (p, h) =
    split_from-plain [] s (join_rest ss) p.plain ∙ split_from-join_rest s ss p h
