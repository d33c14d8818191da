-- ===== src/Mcp/Issuer.antt =====
-- internal/mcp/local_issuer.go: the built-in issuer of access tokens. RSA, PEM and JWT, the clock and
-- the file of the key are parameters.
pub mod Key
pub mod Tokens
use fieldlink.Prelude.{
  ℤ, pos, ltb_ℤ, ◌*◌, ◌^◌, ◌+ℤ◌, String, Bytes, codes, bytes_eq, Bool, not, List, [], ◌∷◌, Option,
  none, some, ◌==◌, concat, if◌then◌else◌,
}
use fieldlink.Prelude.Results.{Result, ok, err}
use fieldlink.Mcp.Oauth.{contains, split_scopes, join_scopes}

pub record Client : Type 0 where
  pub secret : Bytes
  pub scopes : List Bytes

pub record LocalIssuerOptions : Type 0 where
  pub signing_key_path : String
  pub token_ttl : ℤ
  pub clients : List (Bytes × Client)
  pub self_url : String
  pub required_scopes : List Bytes

pub record LocalIssuer (K : Type 0) : Type 0 where
  pub key : K
  pub kid : String
  pub ttl : ℤ
  pub clients : List (Bytes × Client)
  pub self_url : String
  pub required_scopes : List Bytes

abbrev pub default_ttl : ℤ
default_ttl = pos (15 * 60 * 10 ^ 9)

abbrev pub is_empty : {A : Type 0} → List A → Bool
is_empty [] = Bool.true
is_empty (x ∷ xs) = Bool.false

-- newLocalIssuer, with what loadOrGenerateIssuerKey gives.
unfoldable pub new_local_issuer :
    {K : Type 0} → (String → Option K) → LocalIssuerOptions → Result String (LocalIssuer K)
new_local_issuer load_or_generate opts =
    if is_empty opts.clients
    then err "local_issuer: at least one client must be configured"
    else elim (load_or_generate opts.signing_key_path) [
      | none ↦ err "local_issuer"
      | some key ↦ ok (record {
        key = key;
        kid = "fieldlink-local-issuer-1";
        ttl = if ltb_ℤ (pos 0) opts.token_ttl then opts.token_ttl else default_ttl;
        clients = opts.clients;
        self_url = opts.self_url;
        required_scopes = opts.required_scopes;
      })
    ]

-- The document of discoveryHandler.
pub record Discovery : Type 0 where
  pub issuer : String
  pub jwks_uri : String
  pub token_endpoint : String
  pub grant_types_supported : List String
  pub response_types_supported : List String

unfoldable pub discovery : {K : Type 0} → LocalIssuer K → Discovery
discovery li = record {
  issuer = li.self_url;
  jwks_uri = concat li.self_url "/oauth/jwks";
  token_endpoint = concat li.self_url "/oauth/token";
  grant_types_supported = "client_credentials" ∷ [];
  response_types_supported = "token" ∷ [];
}

-- The one key of the set that jwksHandler serves; `public` is &li.key.PublicKey.
pub record Jwk (P : Type 0) : Type 0 where
  pub key : P
  pub key_id : String
  pub algorithm : String
  pub use_for : String

unfoldable pub jwks : {K P : Type 0} → (K → P) → LocalIssuer K → List (Jwk P)
jwks public li =
    record { key = public li.key; key_id = li.kid; algorithm = "RS256"; use_for = "sig" } ∷ []

-- A request to the token endpoint: its method, whether ParseForm reads it, BasicAuth, and PostForm.Get.
pub record TokenRequest : Type 0 where
  pub method : String
  pub parses : Bool
  pub basic_auth : Option (Bytes × Bytes)
  pub form : String → Bytes

pub record Claims : Type 0 where
  pub iss : String
  pub aud : String
  pub sub : Bytes
  pub scope : Bytes
  pub iat : ℤ
  pub exp : ℤ

-- time.Now in nanoseconds, Unix of such a time, Seconds of a duration cut to an int; and
-- SignedString, with the key's id in the header.
pub record Services (K : Type 0) : Type 0 where
  pub now : ℤ
  pub unix : ℤ → ℤ
  pub seconds : ℤ → ℤ
  pub signed_string : K → String → Claims → Option Bytes

pub record Token : Type 0 where
  pub access_token : Bytes
  pub token_type : String
  pub expires_in : ℤ
  pub scope : Bytes

-- What the endpoint answers: http.Error, writeOAuthError, or a token.
pub data Answer : Type 0 where
  http_error : ℤ → String → Answer
  oauth_error : ℤ → String → Answer
  issued : Token → Answer

-- li.clients[clientID]
abbrev pub find_client : List (Bytes × Client) → Bytes → Option Client
find_client [] id = none
find_client ((k, c) ∷ clients) id = if bytes_eq k id then some c else find_client clients id

-- The client's id and secret.
unfoldable pub credentials : TokenRequest → Bytes × Bytes
credentials r = elim r.basic_auth [
  | some c ↦ c
  | none ↦ (r.form "client_id", r.form "client_secret")
]

-- The loop over the requested scopes.
abbrev pub keep_allowed : List Bytes → List Bytes → List Bytes
keep_allowed allowed [] = []
keep_allowed allowed (s ∷ ss) =
    let rest = keep_allowed allowed ss in if contains allowed s then s ∷ rest else rest

unfoldable pub granted_scopes : Client → List Bytes → List Bytes
granted_scopes c requested =
    if is_empty requested then c.scopes else keep_allowed c.scopes requested

unfoldable pub claims_of : {K : Type 0} → Services K → LocalIssuer K → Bytes → List Bytes → Claims
claims_of lib li id granted = record {
  iss = li.self_url;
  aud = li.self_url;
  sub = id;
  scope = join_scopes granted;
  iat = lib.unix lib.now;
  exp = lib.unix (lib.now +ℤ li.ttl);
}

-- The function of tokenHandler, once the client is known.
unfoldable pub issue :
    {K : Type 0} → Services K → LocalIssuer K → Bytes → Client → List Bytes → Answer
issue lib li id c requested =
    let granted = granted_scopes c requested in
    elim (lib.signed_string li.key li.kid (claims_of lib li id granted)) [
      | none ↦ http_error (pos 500) "token signing failed"
      | some signed ↦ issued (record {
        access_token = signed;
        token_type = "Bearer";
        expires_in = lib.seconds li.ttl;
        scope = join_scopes granted;
      })
    ]

-- The function of tokenHandler
unfoldable pub token_handler : {K : Type 0} → Services K → LocalIssuer K → TokenRequest → Answer
token_handler lib li r =
    if not (r.method == "POST")
    then http_error (pos 405) "method not allowed"
    else if not r.parses
    then http_error (pos 400) "invalid request body"
    else if not (bytes_eq (r.form "grant_type") (codes "client_credentials"))
    then oauth_error (pos 400) "unsupported_grant_type"
    else let (id, secret) = credentials r in
      elim (find_client li.clients id) [
        | none ↦ oauth_error (pos 401) "invalid_client"
        | some c ↦
            if not (bytes_eq c.secret secret)
            then oauth_error (pos 401) "invalid_client"
            else issue lib li id c (split_scopes (r.form "scope"))
      ]

-- OAuthOptions
pub record OauthOptions : Type 0 where
  pub issuer_url : String
  pub audience : String
  pub required_scopes : List Bytes
  pub resource_url : String

-- verifierOptions
unfoldable pub verifier_options : {K : Type 0} → LocalIssuer K → OauthOptions
verifier_options li = record {
  issuer_url = li.self_url;
  audience = li.self_url;
  required_scopes = li.required_scopes;
  resource_url = concat li.self_url "/mcp";
}
