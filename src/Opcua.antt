-- ===== src/Opcua.antt =====
-- internal/exec/device/opcua: the tools read_opcua and browse_opcua. The OPC UA client, the
-- environment and the formats of time are parameters.
pub mod Browse
pub mod Gate
pub mod Results
use fieldlink.Prelude.{
  ℕ, nat_eq, String, Bool, not, ◌||◌, List, [], ◌∷◌, ◌++◌, Option, none, some, map, ◌==◌, concat,
  if◌then◌else◌,
}
use fieldlink.Prelude.Results.{Result, ok, err}
use fieldlink.Any.{Map, string, strings}
use fieldlink.Config.{OpcuaEndpoint, lookup}
use fieldlink.Policy.{Engine, Context}

-- How a session logs in.
pub data Auth : Type 0 where
  anonymous : Auth
  username : String → String → Auth

-- A DataValue of a server's answer; StatusOK is 0.
pub record DataValue (V T : Type 0) : Type 0 where
  pub status : ℕ
  pub value : Option V
  pub source_timestamp : T

-- What the client offers: ParseNodeID, NewClient with Connect, Read, and References of a node; with
-- os.Getenv, Error of a status, IsZero and the RFC 3339 form of a time. A reference is its node's id
-- as text, its browse name, and its class.
pub record Clients : Type 1 where
  pub Client : Type 0
  pub NodeId : Type 0
  pub Value : Type 0
  pub Time : Type 0
  pub parse_node_id : String → Option NodeId
  pub getenv : String → String
  pub connect : String → Auth → Option Client
  pub read : Client → List NodeId → Option (List (DataValue Value Time))
  pub references : Client → NodeId → Option (List (String × Option String × String))
  pub status_error : ℕ → String
  pub is_zero : Time → Bool
  pub rfc3339 : Time → String

-- What goes to a server.
pub data ServerCall (N : Type 0) : Type 0 where
  read : List N → ServerCall N
  browse : N → ServerCall N

-- Executor, with the state of its policy engine, and what has gone to which endpoint.
pub record Executor (lib : Clients) (S : Type 0) : Type 0 where
  pub policy : S
  pub endpoints : List (String × OpcuaEndpoint)
  pub conns : List (String × lib.Client)
  pub calls : List (String × ServerCall lib.NodeId)

-- NewExecutor
unfoldable pub new_executor :
    {S : Type 0} (lib : Clients) → S → List (String × OpcuaEndpoint) → Executor lib S
new_executor lib eng endpoints = record {
  policy = eng;
  endpoints = endpoints;
  conns = [];
  calls = [];
}

abbrev pub denied : String → String
denied reason = concat "Denied: " reason

-- What a handler does: it returns, or an index out of range panics.
pub data Call (A : Type 0) : Type 0 where
  returned : Result String A → Call A
  panicked : Call A

-- The authentication options of clientFor.
unfoldable pub auth_of : Clients → OpcuaEndpoint → Option Auth
auth_of lib ep =
    if ep.auth == "" || ep.auth == "anonymous"
    then some anonymous
    else if ep.auth == "username"
    then (if lib.getenv ep.username_env == ""
        then none
        else some (username (lib.getenv ep.username_env) (lib.getenv ep.password_env)))
    else none

-- clientFor: the client, and the connections after it.
unfoldable pub client_for :
    (lib : Clients)
    → String
    → OpcuaEndpoint
    → List (String × lib.Client)
    → Option lib.Client × List (String × lib.Client)
client_for lib name ep conns = elim (lookup conns name) [
  | some c ↦ (some c, conns)
  | none ↦ elim (auth_of lib ep) [
    | none ↦ (none, conns)
    | some auth ↦ elim (lib.connect ep.url auth) [
      | none ↦ (none, conns)
      | some c ↦ (some c, (name, c) ∷ conns)
    ]
  ]
]

-- resetConn
unfoldable pub reset_conn : {C : Type 0} → String → List (String × C) → List (String × C)
reset_conn name [] = []
reset_conn name ((k, c) ∷ conns) =
    let rest = reset_conn name conns in if k == name then rest else (k, c) ∷ rest

-- The loop of ReadOPCUA over the node ids.
unfoldable pub parse_node_ids : (lib : Clients) → List String → Option (List lib.NodeId)
parse_node_ids lib [] = some []
parse_node_ids lib (s ∷ names) = elim (lib.parse_node_id s) [
  | none ↦ none
  | some n ↦ elim (parse_node_ids lib names) [ none ↦ none | some ns ↦ some (n ∷ ns) ]
]

pub record NodeResult (V : Type 0) : Type 0 where
  pub node_id : String
  pub value : Option V
  pub status : String
  pub source_timestamp : String

-- OPCUANodeResult{}
abbrev pub no_result : {V : Type 0} → NodeResult V
no_result = record { node_id = ""; value = none; status = ""; source_timestamp = "" }

unfoldable pub result_of :
    (lib : Clients) → String → DataValue lib.Value lib.Time → NodeResult lib.Value
result_of lib name dv =
    if nat_eq dv.status 0
    then record {
      node_id = name;
      value = dv.value;
      status = "good";
      source_timestamp =
          if not (lib.is_zero dv.source_timestamp) then lib.rfc3339 dv.source_timestamp else "";
    }
    else record no_result { node_id = name; status = lib.status_error dv.status }

-- The loop of ReadOPCUA over the answer, into one place for each node id; `none` is the panic.
unfoldable pub collect :
    (lib : Clients)
    → List String
    → List (DataValue lib.Value lib.Time)
    → Option (List (NodeResult lib.Value))
collect lib names [] = some (map (λ _. no_result) names)
collect lib [] (dv ∷ dvs) = none
collect lib (name ∷ names) (dv ∷ dvs) = elim (collect lib names dvs) [
  | none ↦ none
  | some rs ↦ some (result_of lib name dv ∷ rs)
]

pub record ReadOpcuaInput : Type 0 where
  pub endpoint : String
  pub node_ids : List String

pub record ReadOpcuaOutput (V : Type 0) : Type 0 where
  pub endpoint : String
  pub results : List (NodeResult V)

abbrev pub opcua_params : String → List String → Map
opcua_params endpoint node_ids = ("endpoint", string endpoint) ∷ ("node_ids", strings node_ids) ∷ []

-- ReadOPCUA, with the client.
unfoldable pub read_nodes :
    {S : Type 0} (lib : Clients)
    → ReadOpcuaInput
    → List lib.NodeId
    → lib.Client
    → Executor lib S
    → Call (ReadOpcuaOutput lib.Value) × Executor lib S
read_nodes lib q ids c e =
    let e' = record e { calls = e.calls ++ (q.endpoint, read ids) ∷ [] } in
    elim (lib.read c ids) [
      | none ↦ (
        returned (err (denied "read failed")),
        record e' { conns = reset_conn q.endpoint e.conns },
      )
      | some dvs ↦ elim (collect lib q.node_ids dvs) [
        | none ↦ (panicked, e')
        | some rs ↦ (returned (ok (record { endpoint = q.endpoint; results = rs })), e')
      ]
    ]

-- ReadOPCUA, once the call is authorized.
unfoldable pub parse_and_read :
    {S : Type 0} (lib : Clients)
    → OpcuaEndpoint
    → ReadOpcuaInput
    → Executor lib S
    → Call (ReadOpcuaOutput lib.Value) × Executor lib S
parse_and_read lib ep q e = elim (parse_node_ids lib q.node_ids) [
  | none ↦ (returned (err (denied "a node id is not valid")), e)
  | some ids ↦
      let (found, conns) = client_for lib q.endpoint ep e.conns in
      let e' = record e { conns = conns } in
      elim found [
        | none ↦ (returned (err (denied "could not connect to endpoint")), e')
        | some c ↦ read_nodes lib q ids c e'
      ]
]

abbrev pub is_empty : {A : Type 0} → List A → Bool
is_empty [] = Bool.true
is_empty (x ∷ xs) = Bool.false

-- ReadOPCUA
unfoldable pub read_opcua :
    {S : Type 0} (lib : Clients)
    → Engine S
    → Context
    → ReadOpcuaInput
    → Executor lib S
    → Call (ReadOpcuaOutput lib.Value) × Executor lib S
read_opcua lib eng ctx q e =
    if q.endpoint == "" || is_empty q.node_ids
    then (returned (err (denied "endpoint and node_ids are required")), e)
    else elim (lookup e.endpoints q.endpoint) [
      | none ↦ (returned (err (denied "endpoint is not configured")), e)
      | some ep ↦
          let (decision, policy) =
            eng.authorize e.policy ctx "device.opcua.read" (opcua_params q.endpoint q.node_ids) in
          let e' = record e { policy = policy } in
          if not decision.allowed
          then (returned (err (denied decision.reason)), e')
          else parse_and_read lib ep q e'
    ]
