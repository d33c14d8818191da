-- ===== src/Soap.antt =====
-- internal/exec/soap: the tool call_soap. text/template, encoding/xml's EscapeText, net/http and the
-- environment are parameters.
pub mod Cache
pub mod Gate
use fieldlink.Prelude.{
  ℕ, ℤ, pos, ◌+◌, ◌*◌, ◌^◌, ltb, ltb_ℤ, String, Bytes, Bool, not, ◌||◌, List, [], ◌∷◌, ◌++◌, Option,
  none, some, map, take, length, ◌==◌, concat, if◌then◌else◌,
}
use fieldlink.Prelude.Results.{Result, ok, err}
use fieldlink.Any.{Map, string}
use fieldlink.Config.{SoapEndpoint, SoapOperation, lookup}
use fieldlink.Policy.{Engine, Context}
use fieldlink.Http.{Response, read_limited}

-- A POST of an envelope: the headers that the executor sets, and the credentials.
pub record Request : Type 0 where
  pub url : String
  pub body : Bytes
  pub headers : List (String × String)
  pub basic_auth : Option (String × String)
  pub timeout : ℤ

-- template.New(name).Parse(raw); Execute, where a missing key is an error; EscapeText; os.Getenv;
-- NewRequestWithContext's check; and http.DefaultClient.Do: the requests that it makes when the answers
-- redirect it, in their order, and the last response.
pub record Services : Type 1 where
  pub Template : Type 0
  pub parse : String → String → Option Template
  pub execute : Template → List (String × String) → Option Bytes
  pub escape_text : String → Option String
  pub getenv : String → String
  pub can_build : String → Bool
  pub redirected : Request → List Request
  pub exchange : Request → Option Response

abbrev pub max_response_bytes : ℕ
max_response_bytes = 2 ^ 20

abbrev default_timeout : ℤ
default_timeout = pos (10 * 10 ^ 9)

pub record CallSoapInput : Type 0 where
  pub endpoint : String
  pub operation : String
  pub params : List (String × String)

pub record CallSoapOutput : Type 0 where
  pub endpoint : String
  pub operation : String
  pub status_code : ℤ
  pub body : Bytes

-- Executor, with the state of its policy engine, and the requests that have gone out, those of
-- redirects included.
pub record Executor (lib : Services) (S : Type 0) : Type 0 where
  pub policy : S
  pub endpoints : List (String × SoapEndpoint)
  pub templates : List (String × lib.Template)
  pub requests : List Request

-- NewExecutor
unfoldable pub new_executor :
    {S : Type 0} (lib : Services) → S → List (String × SoapEndpoint) → Executor lib S
new_executor lib eng endpoints = record {
  policy = eng;
  endpoints = endpoints;
  templates = [];
  requests = [];
}

abbrev pub denied : String → String
denied reason = concat "Denied: " reason

-- The key of templateFor.
unfoldable pub template_key : String → String → String
template_key endpoint operation = concat endpoint (concat "\0" operation)

-- templateFor: the template, and the cache after the call.
unfoldable pub template_for :
    (lib : Services)
    → String
    → String
    → String
    → List (String × lib.Template)
    → Option lib.Template × List (String × lib.Template)
template_for lib endpoint operation raw templates =
    let key = template_key endpoint operation in
    elim (lookup templates key) [
      | some t ↦ (some t, templates)
      | none ↦ elim (lib.parse key raw) [
        | none ↦ (none, templates)
        | some t ↦ (some t, (key, t) ∷ templates)
      ]
    ]

-- escapeXMLText
unfoldable pub escape_xml_text : Services → String → String
escape_xml_text lib s = elim (lib.escape_text s) [ none ↦ "" | some t ↦ t ]

unfoldable pub escaped_params : Services → List (String × String) → List (String × String)
escaped_params lib params = map (λ p. (p.0, escape_xml_text lib p.1)) params

-- The request of CallSOAP.
unfoldable pub request_for : Services → SoapEndpoint → SoapOperation → Bytes → Request
request_for lib ep op body = record {
  url = ep.url;
  body = body;
  headers =
      ("Content-Type", "text/xml; charset=utf-8")
      ∷ (if not (op.soap_action == "") then ("SOAPAction", op.soap_action) ∷ [] else []);
  basic_auth =
      if not (ep.username_env == "")
      then some (lib.getenv ep.username_env, lib.getenv ep.password_env)
      else none;
  timeout = if ltb_ℤ (pos 0) ep.timeout then ep.timeout else default_timeout;
}

-- CallSOAP, once the request has gone out.
unfoldable pub report : CallSoapInput → Option Response → Result String CallSoapOutput
report q answer = elim answer [
  | none ↦ err (denied "request failed")
  | some resp ↦ elim (read_limited (max_response_bytes + 1) resp.body) [
    | none ↦ err (denied "response could not be read")
    | some body ↦ ok (record {
      endpoint = q.endpoint;
      operation = q.operation;
      status_code = resp.status;
      body = if ltb max_response_bytes (length body) then take max_response_bytes body else body;
    })
  ]
]

-- CallSOAP, with the operation's template.
unfoldable pub fill_and_send :
    {S : Type 0} (lib : Services)
    → SoapEndpoint
    → SoapOperation
    → CallSoapInput
    → lib.Template
    → Executor lib S
    → Result String CallSoapOutput × Executor lib S
fill_and_send lib ep op q t e = elim (lib.execute t (escaped_params lib q.params)) [
  | none ↦ (err (denied "params do not satisfy the operation's template"), e)
  | some body ↦
      let r = request_for lib ep op body in
      if not (lib.can_build ep.url)
      then (err (denied "request could not be built"), e)
      else (report q (lib.exchange r), record e { requests = e.requests ++ (r ∷ lib.redirected r) })
]

-- CallSOAP, once the call is authorized.
unfoldable pub call_operation :
    {S : Type 0} (lib : Services)
    → SoapEndpoint
    → SoapOperation
    → CallSoapInput
    → Executor lib S
    → Result String CallSoapOutput × Executor lib S
call_operation lib ep op q e =
    let (found, templates) = template_for lib q.endpoint q.operation op.template e.templates in
    let e' = record e { templates = templates } in
    elim found [
      | none ↦ (err (denied "operation template is invalid"), e')
      | some t ↦ fill_and_send lib ep op q t e'
    ]

abbrev pub soap_params : CallSoapInput → Map
soap_params q = ("endpoint", string q.endpoint) ∷ ("operation", string q.operation) ∷ []

-- CallSOAP
unfoldable pub call_soap :
    {S : Type 0} (lib : Services)
    → Engine S
    → Context
    → CallSoapInput
    → Executor lib S
    → Result String CallSoapOutput × Executor lib S
call_soap lib eng ctx q e =
    if q.endpoint == "" || q.operation == ""
    then (err (denied "endpoint and operation are required"), e)
    else elim (lookup e.endpoints q.endpoint) [
      | none ↦ (err (denied "endpoint is not configured"), e)
      | some ep ↦ elim (lookup ep.operations q.operation) [
        | none ↦ (err (denied "operation is not defined for this endpoint"), e)
        | some op ↦
            let (decision, policy) = eng.authorize e.policy ctx "soap.call" (soap_params q) in
            let e' = record e { policy = policy } in
            if not decision.allowed
            then (err (denied decision.reason), e')
            else call_operation lib ep op q e'
      ]
    ]
