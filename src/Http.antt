-- ===== src/Http.antt =====
-- internal/exec/httpx: the tool call_internal_http. The resolver, net/url and net/http are
-- parameters; the client of one call exchanges one request for one response, as it follows no
-- redirect.
pub mod Gate
use fieldlink.Prelude.{
  ℕ, ◌+◌, ◌^◌, ltb, ℤ, String, Bytes, Bool, true, false, not, ◌&&◌, ◌||◌, List, [], ◌∷◌, ◌++◌,
  Option, none, some, any, take, length, ◌==◌, concat, if◌then◌else◌,
}
use fieldlink.Prelude.Results.{Result, ok, err}
use fieldlink.Any.{Map, string}
use fieldlink.Policy.{Engine, Context}
use fieldlink.Policy.Constraints.{Matchers}

-- What url.Parse gives, with Hostname() and Port().
pub record Url : Type 0 where
  pub scheme : String
  pub hostname : String
  pub port : String

-- A response body: what arrives, and whether an error follows it.
pub record Body : Type 0 where
  pub arrived : Bytes
  pub fails : Bool

pub record Response : Type 0 where
  pub status : ℤ
  pub headers : List (String × List String)
  pub body : Body

-- What goes out: where the client dials, the name that it checks the certificate for, and the
-- request.
pub record Request : Type 0 where
  pub dial_addr : String
  pub server_name : String
  pub method : String
  pub url : String
  pub headers : List (String × String)

-- strings.ToUpper, url.Parse, net.LookupIP, ip.String(), net.JoinHostPort, NewRequestWithContext's
-- check, the exchange, and string(b)
pub record Web : Type 0 where
  pub to_upper : String → String
  pub parse_url : String → Option Url
  pub lookup_ip : String → Option (List Bytes)
  pub ip_string : Bytes → String
  pub join_host_port : String → String → String
  pub can_build : String → String → Bool
  pub exchange : Request → Option Response
  pub string_of : Bytes → String

abbrev pub max_body_bytes : ℕ
max_body_bytes = 2 ^ 20

pub record CallInternalHttpInput : Type 0 where
  pub url : String
  pub method : String
  pub headers : List (String × String)

pub record CallInternalHttpOutput : Type 0 where
  pub url : String
  pub status : ℤ
  pub headers : List (String × List String)
  pub body : Bytes
  pub truncated : Bool

-- Executor, with the state of its policy engine, and the requests that have gone out.
pub record Executor (S : Type 0) : Type 0 where
  pub policy : S
  pub requests : List Request

-- metadataBlocks and isMetadataBlocked; mustParseCIDRs accepts each of these texts.
abbrev pub metadata_blocks : List String
metadata_blocks = "169.254.0.0/16" ∷ "fe80::/10" ∷ "fd00:ec2::254/128" ∷ []

abbrev pub block_contains : Matchers → Bytes → String → Bool
block_contains lib ip cidr = elim (lib.parse_cidr cidr) [
  | none ↦ false
  | some n ↦ lib.net_contains n ip
]

unfoldable pub is_metadata_blocked : Matchers → Bytes → Bool
is_metadata_blocked lib ip = any (block_contains lib ip) metadata_blocks

-- resolve: no address is an error.
unfoldable pub resolve : Web → String → Option (Bytes × List Bytes)
resolve web host = elim (web.lookup_ip host) [
  | none ↦ none
  | some ips ↦ elim ips [ [] ↦ none | ip ∷ more ↦ some (ip, more) ]
]

abbrev pub denied : String → String
denied reason = concat "Denied: " reason

-- The method of the request.
unfoldable pub method_of : Web → String → String
method_of web method = let upper = web.to_upper method in if upper == "" then "GET" else upper

-- pinnedClient: it dials this address, whatever the URL's host is.
unfoldable pub pinned_request : Web → Bytes → Url → String → CallInternalHttpInput → Request
pinned_request web ip u method q = record {
  dial_addr = web.join_host_port (web.ip_string ip) (if u.port == "" then "80" else u.port);
  server_name = u.hostname;
  method = method;
  url = q.url;
  headers = q.headers;
}

-- io.ReadAll(io.LimitReader(body, n)): an error behind the limit is not met.
unfoldable pub read_limited : ℕ → Body → Option Bytes
read_limited n body =
    if body.fails && ltb (length body.arrived) n then none else some (take n body.arrived)

-- CallInternalHTTP, once the request has gone out.
unfoldable pub report :
    CallInternalHttpInput → Option Response → Result String CallInternalHttpOutput
report q answer = elim answer [
  | none ↦ err (denied "request failed")
  | some resp ↦ elim (read_limited (max_body_bytes + 1) resp.body) [
    | none ↦ err (denied "response could not be read")
    | some body ↦ ok (record {
      url = q.url;
      status = resp.status;
      headers = resp.headers;
      body = if ltb max_body_bytes (length body) then take max_body_bytes body else body;
      truncated = ltb max_body_bytes (length body);
    })
  ]
]

-- CallInternalHTTP, once the call is authorized.
unfoldable pub send :
    {S : Type 0}
    → Web
    → Bytes
    → Url
    → String
    → CallInternalHttpInput
    → Executor S
    → Result String CallInternalHttpOutput × Executor S
send web ip u method q e =
    let r = pinned_request web ip u method q in
    if not (web.can_build method q.url)
    then (err (denied "request could not be built"), e)
    else (report q (web.exchange r), record e { requests = e.requests ++ r ∷ [] })

abbrev pub request_params : Web → Bytes → String → Map
request_params web ip method =
    ("resolved_ip", string (web.ip_string ip)) ∷ ("method", string method) ∷ []

-- CallInternalHTTP, once the host is resolved: the metadata block, then the policy engine.
unfoldable pub call_resolved :
    {S : Type 0}
    → Web
    → Matchers
    → Engine S
    → Context
    → Url
    → String
    → CallInternalHttpInput
    → Bytes
    → List Bytes
    → Executor S
    → Result String CallInternalHttpOutput × Executor S
call_resolved web lib eng ctx u method q ip more e =
    if any (is_metadata_blocked lib) (ip ∷ more)
    then (err (denied "this address is not permitted"), e)
    else let (decision, policy) =
        eng.authorize e.policy ctx "http.request" (request_params web ip method) in
      let e' = record e { policy = policy } in
      if not decision.allowed then (err (denied decision.reason), e') else send web ip u method q e'

-- CallInternalHTTP
unfoldable pub call_internal_http :
    {S : Type 0}
    → Web
    → Matchers
    → Engine S
    → Context
    → CallInternalHttpInput
    → Executor S
    → Result String CallInternalHttpOutput × Executor S
call_internal_http web lib eng ctx q e =
    let method = method_of web q.method in
    if not (method == "GET") && not (method == "HEAD")
    then (err (denied "method is not permitted"), e)
    else elim (web.parse_url q.url) [
      | none ↦ (err (denied "url is not valid"), e)
      | some u ↦
          if not (u.scheme == "http") && not (u.scheme == "https")
          then (err (denied "url is not valid"), e)
          else if u.hostname == ""
          then (err (denied "url is not valid"), e)
          else elim (resolve web u.hostname) [
            | none ↦ (err (denied "host could not be resolved"), e)
            | some (ip, more) ↦ call_resolved web lib eng ctx u method q ip more e
          ]
    ]
