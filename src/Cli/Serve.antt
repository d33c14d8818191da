-- ===== src/Cli/Serve.antt =====
-- cmd/fieldlink/serve.go: from the settings to the options of the HTTP transport.
pub mod Loopback
use fieldlink.Prelude.{
  String, Bytes, Bool, not, ◌&&◌, List, [], ◌∷◌, Option, none, some, map, ◌==◌, concat,
  if◌then◌else◌,
}
use fieldlink.Prelude.Results.{Result, ok, err}
use fieldlink.Config.{
  Config, HttpConfig, TlsConfig, OauthConfig, LocalIssuerConfig, LocalIssuerClient,
}
use fieldlink.Mcp.Issuer.{Client, LocalIssuerOptions, OauthOptions, is_empty}
use fieldlink.Mcp.Transport.{HttpOptions}

-- os.Getenv, as bytes; and the bytes of a name.
pub record Environment : Type 0 where
  pub getenv : String → Bytes
  pub bytes_of : String → Bytes

pub data ServeError : Type 0 where
  unknown_transport no_secret_env secret_not_set : ServeError

-- runServe, the test of the transport.
unfoldable pub has_transport : Config → Bool
has_transport cfg =
    not (not (cfg.server.transport == "stdio") && not (cfg.server.transport == "http"))

-- runServe, the loop over the clients of the local issuer.
unfoldable pub clients_of :
    Environment → List (String × LocalIssuerClient) → Result ServeError (List (Bytes × Client))
clients_of env [] = ok []
clients_of env ((id, c) ∷ more) =
    let rest = clients_of env more in
    if c.secret_env == ""
    then err no_secret_env
    else if is_empty (env.getenv c.secret_env)
    then err secret_not_set
    else elim rest [
      | err x ↦ err x
      | ok cs ↦ ok (
          (
            env.bytes_of id,
            record { secret = env.getenv c.secret_env; scopes = map env.bytes_of c.scopes },
          )
          ∷ cs)
    ]

abbrev has_some : {A : Type 0} → Option A → Bool
has_some none = Bool.false
has_some (some a) = Bool.true

unfoldable pub scheme_of : HttpConfig → String
scheme_of http = if has_some http.tls then "https" else "http"

-- scheme + "://" + httpCfg.Bind
unfoldable pub self_url : HttpConfig → String
self_url http = concat (scheme_of http) (concat "://" http.bind)

unfoldable pub oauth_of : Environment → HttpConfig → Option OauthOptions
oauth_of env http = elim http.oauth [
  | none ↦ none
  | some o ↦ some (record {
    issuer_url = o.issuer_url;
    audience = o.audience;
    required_scopes = map env.bytes_of o.required_scopes;
    resource_url = concat (self_url http) "/mcp";
  })
]

unfoldable pub local_issuer_of :
    Environment → Config → Result ServeError (Option LocalIssuerOptions)
local_issuer_of env cfg = elim cfg.server.http.local_issuer [
  | none ↦ ok none
  | some l ↦ elim (clients_of env l.clients) [
    | err x ↦ err x
    | ok clients ↦ ok (
        some (record {
          signing_key_path =
              if l.signing_key_path == ""
              then concat cfg.config_dir "/local-issuer.key"
              else l.signing_key_path;
          token_ttl = l.token_ttl;
          clients = clients;
          self_url = self_url cfg.server.http;
          required_scopes = [];
        }))
  ]
]

abbrev cert_of : Option TlsConfig → String
cert_of none = ""
cert_of (some t) = t.cert_file

abbrev key_of : Option TlsConfig → String
key_of none = ""
key_of (some t) = t.key_file

-- runServe, the options of RunHTTP; `none` is the stdio transport.
unfoldable pub http_options : Environment → Config → Bool → Result ServeError (Option HttpOptions)
http_options env cfg allow_remote =
    if not (has_transport cfg)
    then err unknown_transport
    else if not (cfg.server.transport == "http")
    then ok none
    else elim (local_issuer_of env cfg) [
      | err x ↦ err x
      | ok issuer ↦ ok (
          some (record {
            bind = cfg.server.http.bind;
            allow_remote = allow_remote;
            bearer_token =
                if not (cfg.server.http.bearer_token_env == "")
                then env.getenv cfg.server.http.bearer_token_env
                else [];
            oauth = oauth_of env cfg.server.http;
            local_issuer = issuer;
            allowed_origins = cfg.server.http.allowed_origins;
            tls_cert_file = cert_of cfg.server.http.tls;
            tls_key_file = key_of cfg.server.http.tls;
          }))
    ]
