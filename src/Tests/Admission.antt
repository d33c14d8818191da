-- ===== src/Tests/Admission.antt =====
-- internal/mcp/http.go at a server that others can reach, with an identity provider.
use fieldlink.Prelude.{
  pos, codes, [], ◌∷◌, Option, some, none, ◌≡◌, refl, ap, inl, inr, bytes_eq, bytes_eq→eq,
  Bool-cases, ◌∙◌, if◌then◌else◌,
}
use fieldlink.Prelude.Results.{Result, ok, err, Result-cases}
use fieldlink.Policy.{background, with_caller_id}
use fieldlink.Mcp.Oauth.{IdToken, TokenInfo, TokenError, verify_token, split_scopes, split_from}
use fieldlink.Mcp.Issuer.{OauthOptions}
use fieldlink.Mcp.Transport
use fieldlink.Mcp.Transport.{
  Request, handle_mcp, HttpOptions, Server, run_http, check_options, choose_guard, auth_modes,
  is_loopback_host, admit, attach_caller_id,
}
use fieldlink.Mcp.Transport.Admission.{HasChecked, IsAdmitted, HasOrigin, handle_mcp-IsAdmitted}
use fieldlink.Tests.Network.{transport, remote, remote_server}

-- A provider whose one token is of a person with one scope, and the SDK's check of one header.
abbrev provider_token : IdToken
provider_token = record { subject = "ann"; expiry = pos 9; scope = some (codes "read") }

abbrev provider : OauthOptions
provider = record {
  issuer_url = "https://id";
  audience = "plant";
  required_scopes = codes "read" ∷ [];
  resource_url = "";
}

abbrev accepted : Result TokenError TokenInfo → Option TokenInfo
accepted r = elim r [ err x ↦ none | ok info ↦ some info ]

abbrev with_provider : Transport.Services (Unit {0})
with_provider = record transport {
  discover = λ o. some (λ token. some provider_token);
  require_token = λ verifier required header.
      if bytes_eq header (codes "Bearer t") then accepted (verifier (codes "t")) else none;
}

with_provider-HasChecked : (opts : HttpOptions) → HasChecked with_provider opts
with_provider-HasChecked opts verifier required header info h =
    elim (Bool-cases (bytes_eq header (codes "Bearer t"))) [
      | inr a ↦ absurd (cc (rw a at h))
      | inl a ↦ elim (Result-cases (verifier (codes "t"))) [
        | inr (x, b) ↦ absurd (cc (rw (a, b) at h))
        | inl (i, b) ↦
            let same : i ≡ info = cc (rw (a, b) at h) in
            (
              codes "t",
              record {
                before = codes "Bearer ";
                after = [];
                parts = bytes_eq→eq _ _ a;
                not_empty = refl;
              },
              b ∙ ap (λ k. ok k) same,
            )
      ]
    ]

abbrev guarded : HttpOptions
guarded = record remote { bearer_token = []; oauth = some provider }

abbrev guarded_server : Server
guarded_server = record remote_server {
  guard = Transport.access_token (λ token. some provider_token) (codes "read" ∷ []);
}

guarded_server_lem : run_http with_provider guarded ≡ ok guarded_server
unfolding run_http check_options choose_guard auth_modes is_loopback_host
guarded_server_lem = refl

abbrev tool_call : Request
tool_call = record { authorization = codes "Bearer t"; origin = "" }

handle_mcp-IsAdmitted_example :
    HasOrigin with_provider guarded tool_call
    × IsAdmitted with_provider guarded background tool_call.authorization
        (with_caller_id background "ann")
unfolding admit handle_mcp attach_caller_id verify_token split_scopes split_from
handle_mcp-IsAdmitted_example =
    handle_mcp-IsAdmitted with_provider guarded guarded_server background
      (with_caller_id background "ann") tool_call (with_provider-HasChecked guarded) refl
      guarded_server_lem refl
