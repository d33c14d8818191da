-- ===== src/Mcp/Oauth.antt =====
-- internal/mcp/oauth.go and local_issuer.go: scopes as texts, and the check of an access token. The
-- verification of the token itself (go-oidc) is a parameter.
pub mod Scopes
use fieldlink.Prelude.{
  ℕ, ℤ, String, Bytes, bytes_eq, Bool, true, false, not, List, [], ◌∷◌, ◌++◌, Option, none, some,
  any, nat_eq, if◌then◌else◌,
}
use fieldlink.Prelude.Results.{Result, ok, err}

-- What go-oidc returns: `scope` is `none` where the claim cannot be decoded.
pub record IdToken : Type 0 where
  pub subject : String
  pub expiry : ℤ
  pub scope : Option Bytes

pub record TokenInfo : Type 0 where
  pub scopes : List Bytes
  pub expiration : ℤ
  pub user_id : String

pub data TokenError : Type 0 where
  invalid_token : TokenError
  missing_scope : Bytes → TokenError

-- `if i > start { out = append(out, s[start:i]) }`
abbrev pub emit : Bytes → List Bytes → List Bytes
emit [] out = out
emit (c ∷ s) out = (c ∷ s) ∷ out

-- The loop of splitScopes; `current` is s[start:i].
unfoldable pub split_from : Bytes → Bytes → List Bytes
split_from current [] = emit current []
split_from current (c ∷ s) =
    let ended = emit current (split_from [] s) in
    let longer = split_from (current ++ c ∷ []) s in if nat_eq c b' ' then ended else longer

-- splitScopes
unfoldable pub split_scopes : Bytes → List Bytes
unfolding split_from
split_scopes s = split_from [] s

-- slices.Contains
abbrev pub contains : List Bytes → Bytes → Bool
contains scopes scope = any (λ s. bytes_eq s scope) scopes

-- The loop over the required scopes: the first that is missing.
abbrev pub first_missing : List Bytes → List Bytes → Option Bytes
first_missing scopes [] = none
first_missing scopes (r ∷ rs) =
    let rest = first_missing scopes rs in if not (contains scopes r) then some r else rest

abbrev pub scope_or_empty : Option Bytes → Bytes
scope_or_empty none = []
scope_or_empty (some s) = s

-- The function that verifierFromIDTokenVerifier returns.
unfoldable pub verify_token :
    (Bytes → Option IdToken) → List Bytes → Bytes → Result TokenError TokenInfo
verify_token verifier required token = elim (verifier token) [
  | none ↦ err invalid_token
  | some t ↦
      let scopes = split_scopes (scope_or_empty t.scope) in
      elim (first_missing scopes required) [
        | some r ↦ err (missing_scope r)
        | none ↦ ok (record { scopes = scopes; expiration = t.expiry; user_id = t.subject })
      ]
]

-- joinScopes: a space before every scope but the first
abbrev pub join_rest : List Bytes → Bytes
join_rest [] = []
join_rest (s ∷ ss) = b' ' ∷ (s ++ join_rest ss)

unfoldable pub join_scopes : List Bytes → Bytes
join_scopes [] = []
join_scopes (s ∷ ss) = s ++ join_rest ss
