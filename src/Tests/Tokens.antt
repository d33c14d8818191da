-- ===== src/Tests/Tokens.antt =====
-- internal/mcp/oauth.go at one token.
use fieldlink.Prelude.{pos, codes, [], ◌∷◌, some, ◌≡◌, refl, inl, inr}
use fieldlink.Prelude.Results.{ok}
use fieldlink.Mcp.Oauth.{IdToken, verify_token, split_scopes, split_from}
use fieldlink.Mcp.Oauth.Scopes.{verify_token_iff, info_of}

abbrev token : IdToken
token = record { subject = "client"; expiry = pos 9; scope = some (codes "read  write") }

verify_token_iff_example :
    verify_token (λ t. some token) (codes "write" ∷ []) (codes "t") ≡ ok (info_of token)
unfolding split_scopes split_from
verify_token_iff_example =
    (verify_token_iff (λ t. some token) (codes "write" ∷ []) (codes "t") (info_of token)).1
      (token, refl, (inr (inl refl), tt), refl)
