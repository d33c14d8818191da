-- ===== src/Mcp/Issuer/Tokens.antt =====
-- Which tokens the issuer signs, and what the server's own check makes of them.
use fieldlink.Prelude.{
  Bytes, codes, bytes_eq, bytes_eq→eq, List, [], ◌∷◌, Option, some, ◌==◌, ◌≡◌, refl, sym, ap, subst,
  ◌∙◌, ◌↔◌, inl, inr, eq_iff, All, Bool-cases, Option-cases,
}
use fieldlink.Prelude.Results.{ok}
use fieldlink.Mcp.Oauth.{
  IdToken, TokenInfo, scope_or_empty, contains, split_scopes, join_scopes, verify_token,
}
use fieldlink.Mcp.Oauth.Scopes.{
  IsIn, IsScope, scopes_of, info_of, contains-IsIn, verify_token_iff, split_scopes-join_scopes,
}
use fieldlink.Mcp.Issuer.{
  Client, LocalIssuer, Services, Token, TokenRequest, issued, find_client, credentials, is_empty,
  keep_allowed, granted_scopes, claims_of, issue, token_handler,
}

keep_allowed-All :
    (allowed requested : List Bytes) → All (IsIn allowed) (keep_allowed allowed requested)
keep_allowed-All allowed [] = tt
keep_allowed-All allowed (s ∷ ss) = elim (Bool-cases (contains allowed s)) [
  | inl h ↦ rw h (contains-IsIn allowed s h, keep_allowed-All allowed ss)
  | inr h ↦ rw h (keep_allowed-All allowed ss)
]

All-IsIn_cons : (s : Bytes) (xs ys : List Bytes) → All (IsIn xs) ys → All (IsIn (s ∷ xs)) ys
All-IsIn_cons s xs [] h = tt
All-IsIn_cons s xs (y ∷ ys) (p, h) = (inr p, All-IsIn_cons s xs ys h)

All-IsIn_self : (xs : List Bytes) → All (IsIn xs) xs
All-IsIn_self [] = tt
All-IsIn_self (x ∷ xs) = (inl refl, All-IsIn_cons x xs xs (All-IsIn_self xs))

granted_scopes-All :
    (c : Client) (requested : List Bytes) → All (IsIn c.scopes) (granted_scopes c requested)
unfolding granted_scopes
granted_scopes-All c requested = elim (Bool-cases (is_empty requested)) [
  | inl h ↦ rw (h, granted_scopes) (All-IsIn_self c.scopes)
  | inr h ↦ rw (h, granted_scopes) (keep_allowed-All c.scopes requested)
]

module _ {K : Type 0} (lib : Services K) (li : LocalIssuer K) (r : TokenRequest) where
  -- The scopes that a client gets.
  abbrev pub granted_to : Client → List Bytes
  granted_to c = granted_scopes c (split_scopes (r.form "scope"))

  -- A token that a known client has got with its own secret, for scopes of its own.
  pub record IsDue (t : Token) : Type 0 where
    pub posted : r.method ≡ "POST"
    pub grant_type : r.form "grant_type" ≡ codes "client_credentials"
    pub client : Client
    pub known : find_client li.clients (credentials r).0 ≡ some client
    pub secret : client.secret ≡ (credentials r).1
    pub own_scopes : All (IsIn client.scopes) (granted_to client)
    pub scope : t.scope ≡ join_scopes (granted_to client)
    pub signed :
        lib.signed_string li.key li.kid (claims_of lib li (credentials r).0 (granted_to client))
        ≡ some t.access_token

  issue-IsDue :
      (c : Client) (t : Token)
      → r.method ≡ "POST"
      → r.form "grant_type" ≡ codes "client_credentials"
      → find_client li.clients (credentials r).0 ≡ some c
      → c.secret ≡ (credentials r).1
      → issue lib li (credentials r).0 c (split_scopes (r.form "scope")) ≡ issued t
      → IsDue t
  unfolding issue
  issue-IsDue c t posted grant_type known secret h =
      elim (Option-cases
        (lib.signed_string li.key li.kid (claims_of lib li (credentials r).0 (granted_to c)))) [
          | inl a ↦ absurd (cc (rw (a, issue) at h))
          | inr (text, a) ↦
              let run = rw (a, issue) at h in
              record {
                posted = posted;
                grant_type = grant_type;
                client = c;
                known = known;
                secret = secret;
                own_scopes = granted_scopes-All c (split_scopes (r.form "scope"));
                scope = cc run;
                signed = cc run;
              }
        ]

  -- The endpoint answers with a token only to a POST of the client-credentials grant by a known client
  -- with its own secret; the token is signed over the client's id and over scopes that are all the
  -- client's own.
  pub token_handler-IsDue : (t : Token) → token_handler lib li r ≡ issued t → IsDue t
  unfolding token_handler credentials
  token_handler-IsDue t h = elim (Bool-cases (r.method == "POST")) [
    | inr a ↦ absurd (cc (rw (a, token_handler) at h))
    | inl a ↦ elim (Bool-cases r.parses) [
      | inr b ↦ absurd (cc (rw (a, b, token_handler) at h))
      | inl b ↦ elim (Bool-cases (bytes_eq (r.form "grant_type") (codes "client_credentials"))) [
        | inr c ↦ absurd (cc (rw (a, b, c, token_handler) at h))
        | inl c ↦ elim (Option-cases (find_client li.clients (credentials r).0)) [
          | inl d ↦ absurd (cc (rw (a, c, d, b, token_handler) at h))
          | inr (client, d) ↦ elim (Bool-cases (bytes_eq client.secret (credentials r).1)) [
            | inr f ↦ absurd (cc (rw (a, c, d, f, b, token_handler) at h))
            | inl f ↦
                issue-IsDue client t ((eq_iff r.method "POST").0 a) (bytes_eq→eq _ _ c) d
                  (bytes_eq→eq client.secret (credentials r).1 f)
                  (rw (a, c, d, f, b, token_handler) at h)
          ]
        ]
      ]
    ]
  ]

  -- The server accepts the token that it has issued exactly when every scope that it requires is one
  -- that the client got, where its verifier reads the signed claims back and no scope of the client is
  -- empty or has a space.
  pub verify_token-IsDue :
      (t : Token) (due : IsDue t) (verifier : Bytes → Option IdToken) (id : IdToken)
      (required : List Bytes) (info : TokenInfo)
      → All IsScope (granted_to due.client)
      → verifier t.access_token ≡ some id
      → id.scope ≡ some (join_scopes (granted_to due.client))
      → (verify_token verifier required t.access_token ≡ ok info)
        ↔ (All (IsIn (granted_to due.client)) required × (info_of id ≡ info))
  verify_token-IsDue t due verifier id required info plain verified claimed =
      let scopes : scopes_of id ≡ granted_to due.client =
        ap (λ c. split_scopes (scope_or_empty c)) claimed
        ∙ split_scopes-join_scopes (granted_to due.client) plain in
      let accepted = verify_token_iff verifier required t.access_token info in
      (
        (λ h.
            let (found, v, all, same) = accepted.0 h in
            let both : some found ≡ some id = sym v ∙ verified in
            let ids : found ≡ id = cc both in
            (
              subst (λ ss. All (IsIn ss) required) (ap scopes_of ids ∙ scopes) all,
              ap info_of (sym ids) ∙ same,
            )),
        (λ p.
            accepted.1 (id, verified, subst (λ ss. All (IsIn ss) required) (sym scopes) p.0, p.1)),
      )
