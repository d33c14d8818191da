-- ===== src/Mcp/Transport.antt =====
-- internal/mcp/http.go: the HTTP transport. The server of the MCP SDK, its check of bearer tokens,
-- net/http and the discovery of an identity provider are parameters.
pub mod Startup
pub mod Admission
use fieldlink.Prelude.{
  ℕ, ltb, suc, zero, ◌+◌, String, Bytes, codes, bytes_eq, Bool, true, false, not, ◌&&◌, ◌||◌, List,
  [], ◌∷◌, ◌++◌, Option, none, some, all, ◌==◌, concat, if◌then◌else◌,
}
use fieldlink.Prelude.Results.{Result, ok, err}
use fieldlink.Policy.{Context, with_caller_id}
use fieldlink.Mcp.Oauth.{IdToken, TokenInfo, TokenError, verify_token}
use fieldlink.Mcp.Issuer.{
  LocalIssuerOptions, LocalIssuer, OauthOptions, new_local_issuer, verifier_options, is_empty,
}

pub record HttpOptions : Type 0 where
  pub bind : String
  pub allow_remote : Bool
  pub bearer_token : Bytes
  pub oauth : Option OauthOptions
  pub local_issuer : Option LocalIssuerOptions
  pub allowed_origins : List String
  pub tls_cert_file : String
  pub tls_key_file : String

abbrev pub Verifier : Type 0
Verifier = Bytes → Option IdToken

-- SplitHostPort's host; ParseIP with IsLoopback; the discovery of newOIDCVerifier and the static
-- verifier; the key of the local issuer; AddTrustedOrigin, and the check of a cross-origin request; and
-- the SDK's check of a header by a verifier and by scopes.
pub record Services (K : Type 0) : Type 0 where
  pub host_of : String → Option String
  pub is_loopback_ip : String → Bool
  pub discover : OauthOptions → Option Verifier
  pub static_verifier : OauthOptions → K → Verifier
  pub issuer_key : String → Option K
  pub add_trusted_origin : String → Bool
  pub passes_origins : List String → String → Bool
  pub require_token : (Bytes → Result TokenError TokenInfo) → List Bytes → Bytes → Option TokenInfo

-- What stands before the server of the SDK.
pub data Guard : Type 0 where
  unguarded : Guard
  bearer : Bytes → Guard
  access_token : Verifier → List Bytes → Guard

-- A server that listens: its address, its routes, the guard of /mcp, the trusted origins, and the files of TLS.
pub record Server : Type 0 where
  pub bind : String
  pub routes : List String
  pub guard : Guard
  pub trusted_origins : List String
  pub tls : Option (String × String)

pub data Failure : Type 0 where
  exclusive_modes invalid_bind refusing_remote no_auth_mode no_verifier no_issuer invalid_origin :
      Failure

-- isLoopbackHost
unfoldable pub is_loopback_host : {K : Type 0} → Services K → String → Bool
is_loopback_host lib host = if host == "localhost" then true else lib.is_loopback_ip host

abbrev is_some : {A : Type 0} → Option A → Bool
is_some none = false
is_some (some a) = true

abbrev one_if : Bool → ℕ
one_if b = if b then 1 else 0

-- authModes
unfoldable pub auth_modes : HttpOptions → ℕ
auth_modes opts =
    one_if (not (is_empty opts.bearer_token))
    + one_if (is_some opts.oauth)
    + one_if (is_some opts.local_issuer)

-- RunHTTP, the checks at its start.
unfoldable pub check_options : {K : Type 0} → Services K → HttpOptions → Option Failure
check_options lib opts =
    if ltb 1 (auth_modes opts) then some exclusive_modes else elim (lib.host_of opts.bind) [
      | none ↦ some invalid_bind
      | some host ↦
          if not (is_loopback_host lib host) && not opts.allow_remote
          then some refusing_remote
          else if opts.allow_remote && not (ltb 0 (auth_modes opts))
          then some no_auth_mode
          else none
    ]

abbrev metadata_route : OauthOptions → List String
metadata_route o =
    if not (o.resource_url == "") then "/.well-known/oauth-protected-resource" ∷ [] else []

-- RunHTTP, the guard of /mcp and the routes beside it.
unfoldable pub choose_guard :
    {K : Type 0} → Services K → HttpOptions → Result Failure (Guard × List String)
choose_guard lib opts = elim opts.oauth [
  | some o ↦ elim (lib.discover o) [
    | none ↦ err no_verifier
    | some v ↦ ok (access_token v o.required_scopes, metadata_route o)
  ]
  | none ↦ elim opts.local_issuer [
    | some l ↦ elim (new_local_issuer lib.issuer_key l) [
      | err reason ↦ err no_issuer
      | ok li ↦
          let o = verifier_options li in
          ok (
            access_token (lib.static_verifier o li.key) l.required_scopes,
            "/.well-known/openid-configuration" ∷ "/oauth/jwks" ∷ "/oauth/token"
                ∷ "/.well-known/oauth-protected-resource" ∷ [],
          )
    ]
    | none ↦
        ok ((if not (is_empty opts.bearer_token) then bearer opts.bearer_token else unguarded), [])
  ]
]

-- RunHTTP, until it listens.
unfoldable pub run_http : {K : Type 0} → Services K → HttpOptions → Result Failure Server
run_http lib opts = elim (check_options lib opts) [
  | some f ↦ err f
  | none ↦ elim (choose_guard lib opts) [
    | err f ↦ err f
    | ok (guard, routes) ↦
        if not (all lib.add_trusted_origin opts.allowed_origins)
        then err invalid_origin
        else ok (record {
          bind = opts.bind;
          routes = routes ++ "/mcp" ∷ [];
          guard = guard;
          trusted_origins = opts.allowed_origins;
          tls =
              if not (opts.tls_cert_file == "") && not (opts.tls_key_file == "")
              then some (opts.tls_cert_file, opts.tls_key_file)
              else none;
        })
  ]
]

-- requireBearerToken: whether the header lets a request through.
unfoldable pub require_bearer_token : Bytes → Bytes → Bool
require_bearer_token token header = bytes_eq header (codes "Bearer " ++ token)

-- attachCallerID
unfoldable pub attach_caller_id : Context → TokenInfo → Context
attach_caller_id ctx info =
    if not (info.user_id == "") then with_caller_id ctx info.user_id else ctx

-- The context in which a request with this Authorization header gets past the guard, if it does.
unfoldable pub admit : {K : Type 0} → Services K → Guard → Context → Bytes → Option Context
admit lib unguarded ctx header = some ctx
admit lib (bearer token) ctx header = if require_bearer_token token header then some ctx else none
admit lib (access_token v required) ctx header =
    elim (lib.require_token (verify_token v required) required header) [
      | none ↦ none
      | some info ↦ some (attach_caller_id ctx info)
    ]

-- A request for /mcp: its Authorization header, and where it comes from.
pub record Request : Type 0 where
  pub authorization : Bytes
  pub origin : String

-- The handler of /mcp: the check of the origin, where origins are configured, before the guard.
unfoldable pub handle_mcp : {K : Type 0} → Services K → Server → Context → Request → Option Context
handle_mcp lib server ctx r =
    if not (is_empty server.trusted_origins)
      && not (lib.passes_origins server.trusted_origins r.origin)
    then none
    else admit lib server.guard ctx r.authorization
