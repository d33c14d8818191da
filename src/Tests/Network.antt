-- ===== src/Tests/Network.antt =====
-- internal/mcp and serve.go: tokens, the HTTP transport, the tools, and the resources, at one site.
use fieldlink.Prelude.{
  pos, codes, String, true, false, [], ◌∷◌, some, none, ◌≡◌, ◌↔◌, refl, sym, ap, subst, inl, Some,
  All, ◌==◌, if◌then◌else◌,
}
use fieldlink.Prelude.Results.{ok}
use fieldlink.Policy.GrantEngine.{grant_engine}
use fieldlink.Mcp.Oauth.{IdToken, verify_token, split_scopes, split_from, join_scopes}
use fieldlink.Mcp.Oauth.Scopes.{IsIn, IsScope, info_of}
use fieldlink.Mcp.Issuer
use fieldlink.Mcp.Issuer.{
  OauthOptions, Client, LocalIssuer, find_client, TokenRequest, Token, issued, token_handler,
  credentials, issue, claims_of, granted_scopes,
}
use fieldlink.Mcp.Issuer.Tokens.{IsDue, granted_to, token_handler-IsDue, verify_token-IsDue}
use fieldlink.Mcp.Transport
use fieldlink.Mcp.Transport.{
  Request, handle_mcp, HttpOptions, Server, bearer, run_http, check_options, choose_guard,
  auth_modes, is_loopback_host, admit, attach_caller_id,
}
use fieldlink.Mcp.Server.{tools, add_tools, tool}
use fieldlink.Mcp.Server.Offers.{HasCapability, add_tools-HasCapability}
use fieldlink.Config.{Config}
use fieldlink.Cli.Serve.{Environment, http_options, has_transport, local_issuer_of, oauth_of}
use fieldlink.Cli.Serve.Loopback.{http_options-run_http}
use fieldlink.Tests.Stubs.Site.{site_deps, site_world, site_engine}

-- An issuer with one client, whose tokens are its id.
abbrev signer : Issuer.Services (Unit {0})
signer = record {
  now = pos 0;
  unix = λ t. t;
  seconds = λ t. t;
  signed_string = λ key kid claims. some claims.sub;
}

abbrev issuer : LocalIssuer (Unit {0})
issuer = record {
  key = tt;
  kid = "k";
  ttl = pos 9;
  clients =
      (codes "id", record { secret = codes "s"; scopes = codes "read" ∷ codes "write" ∷ [] }) ∷ [];
  self_url = "https://gw";
  required_scopes = [];
}

abbrev post : TokenRequest
post = record {
  method = "POST";
  parses = true;
  basic_auth = some (codes "id", codes "s");
  form = λ key.
      if key == "grant_type"
      then codes "client_credentials"
      else if key == "scope"
      then codes "read admin"
      else [];
}

abbrev read_token : Token
read_token = record {
  access_token = codes "id";
  token_type = "Bearer";
  expires_in = pos 9;
  scope = codes "read";
}

read_token_lem : token_handler signer issuer post ≡ issued read_token
unfolding token_handler credentials issue granted_scopes claims_of split_scopes split_from
    join_scopes
read_token_lem = refl

token_handler-IsDue_example : IsDue signer issuer post read_token
token_handler-IsDue_example = token_handler-IsDue signer issuer post read_token read_token_lem

abbrev pub transport : Transport.Services (Unit {0})
transport = record {
  host_of = λ bind. some bind;
  is_loopback_ip = λ host. host == "127.0.0.1";
  discover = λ o. none;
  static_verifier = λ o key token. none;
  issuer_key = λ path. some tt;
  add_trusted_origin = λ o. true;
  passes_origins = λ origins origin. false;
  require_token = λ verifier required header. none;
}

abbrev pub remote : HttpOptions
remote = record {
  bind = "0.0.0.0";
  allow_remote = true;
  bearer_token = codes "t";
  oauth = none;
  local_issuer = none;
  allowed_origins = [];
  tls_cert_file = "";
  tls_key_file = "";
}

abbrev pub remote_server : Server
remote_server = record {
  bind = "0.0.0.0";
  routes = "/mcp" ∷ [];
  guard = bearer (codes "t");
  trusted_origins = [];
  tls = none;
}

remote_server_lem : run_http transport remote ≡ ok remote_server
unfolding run_http check_options choose_guard auth_modes is_loopback_host
remote_server_lem = refl

add_tools-HasCapability_example :
    Some
      (λ u. u ≡ tool "query_database" "Query database" true false)
      (add_tools (grant_engine site_deps site_world) tools site_engine).0
    ↔ Some
        (λ row.
          Some (λ u. u ≡ tool "query_database" "Query database" true false) row.1
          × HasCapability site_deps site_world site_engine row.0)
        tools
add_tools-HasCapability_example =
    add_tools-HasCapability site_deps site_world site_engine
      (tool "query_database" "Query database" true false)

abbrev pub local_config : Config
local_config = record {
  agent_id = "plant-1";
  server = record {
    transport = "http";
    http = record {
      bind = "127.0.0.1";
      allowed_origins = [];
      bearer_token_env = "TOKEN";
      tls = none;
      oauth = none;
      local_issuer = none;
    };
  };
  grant = record { path = "grant.yaml"; trusted_key = "key.pub" };
  audit = record { path = ""; rotate_mb = pos 0 };
  devices = [];
  datasources = [];
  opcua_endpoints = [];
  smb_shares = [];
  soap_endpoints = [];
  config_dir = "/etc/fieldlink";
}

abbrev environment : Environment
environment = record { getenv = λ name. codes "t"; bytes_of = codes }

abbrev local_options : HttpOptions
local_options = record remote { bind = "127.0.0.1"; allow_remote = false }

local_options_lem : http_options environment local_config false ≡ ok (some local_options)
unfolding http_options has_transport local_issuer_of oauth_of
local_options_lem = refl

abbrev local_server : Server
local_server = record remote_server { bind = "127.0.0.1" }

local_server_lem : run_http transport local_options ≡ ok local_server
unfolding run_http check_options choose_guard auth_modes is_loopback_host
local_server_lem = refl

http_options-run_http_example :
    (local_server.bind ≡ "127.0.0.1")
    × (host : String) × (some "127.0.0.1" ≡ some host)
    × (is_loopback_host transport host ≡ true)
http_options-run_http_example =
    http_options-run_http transport environment local_config local_options local_server
      local_options_lem local_server_lem

-- A verifier that reads a token of the client with one scope.
abbrev id_token : IdToken
id_token = record { subject = "id"; expiry = pos 9; scope = some (codes "read") }

abbrev client : Client
client = record { secret = codes "s"; scopes = codes "read" ∷ codes "write" ∷ [] }

granted_lem : granted_to signer issuer post client ≡ codes "read" ∷ []
unfolding granted_scopes split_scopes split_from
granted_lem = refl

known_lem : find_client issuer.clients (credentials post).0 ≡ some client
unfolding credentials
known_lem = refl

secret_lem : client.secret ≡ (credentials post).1
unfolding credentials
secret_lem = refl

signed_lem :
    signer.signed_string tt "k"
      (claims_of signer issuer (credentials post).0 (granted_to signer issuer post client))
    ≡ some read_token.access_token
unfolding claims_of credentials
signed_lem = refl

scope_lem : read_token.scope ≡ join_scopes (granted_to signer issuer post client)
unfolding join_scopes granted_scopes split_scopes split_from
scope_lem = refl

abbrev due : IsDue signer issuer post read_token
due = record {
  posted = refl;
  grant_type = refl;
  client = client;
  known = known_lem;
  secret = secret_lem;
  own_scopes = subst (All (IsIn client.scopes)) (sym granted_lem) (inl refl, tt);
  scope = scope_lem;
  signed = signed_lem;
}

granted-IsScope : All IsScope (granted_to signer issuer post client)
granted-IsScope =
    subst (All IsScope) (sym granted_lem)
      (record { some_text = λ h. cc (h); plain = (refl, (refl, (refl, (refl, tt)))) }, tt)

verify_token-IsDue_example :
    (verify_token (λ t. some id_token) (codes "read" ∷ []) (codes "id") ≡ ok (info_of id_token)) ↔ (
      All (IsIn (granted_to signer issuer post client)) (codes "read" ∷ [])
      × (info_of id_token ≡ info_of id_token))
verify_token-IsDue_example =
    verify_token-IsDue signer issuer post read_token due (λ t. some id_token) id_token
      (codes "read" ∷ []) (info_of id_token) granted-IsScope refl (ap some scope_lem)
