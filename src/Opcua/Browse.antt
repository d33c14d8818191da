-- ===== src/Opcua/Browse.antt =====
-- internal/exec/device/opcua: the tool browse_opcua.
use fieldlink.Prelude.{
  String, Bool, not, ◌||◌, List, [], ◌∷◌, ◌++◌, Option, none, some, any, ◌==◌, starts_with,
  if◌then◌else◌,
}
use fieldlink.Prelude.Results.{Result, ok, err}
use fieldlink.Config.{OpcuaEndpoint, lookup}
use fieldlink.Policy.{Engine, Context}
use fieldlink.Opcua.{Clients, Executor, ServerCall, client_for, reset_conn, opcua_params, denied}

pub record BrowseOpcuaInput : Type 0 where
  pub endpoint : String
  pub node_id : String

pub record ChildNode : Type 0 where
  pub node_id : String
  pub browse_name : String
  pub node_class : String

pub record BrowseOpcuaOutput : Type 0 where
  pub endpoint : String
  pub node_id : String
  pub children : List ChildNode

-- hasAnyPrefix
unfoldable pub has_any_prefix : String → List String → Bool
has_any_prefix s prefixes = any (λ p. starts_with s p) prefixes

abbrev pub is_filtered : Option (List String) → String → Bool
is_filtered none child = Bool.false
is_filtered (some prefixes) child = not (has_any_prefix child prefixes)

abbrev pub name_of : Option String → String
name_of none = ""
name_of (some name) = name

-- The loop of BrowseOPCUA over the references; no prefixes, nil, filter nothing.
unfoldable pub children_of :
    Option (List String) → List (String × Option String × String) → List ChildNode
children_of prefixes [] = []
children_of prefixes ((child, name, class) ∷ refs) =
    let rest = children_of prefixes refs in
    if is_filtered prefixes child
    then rest
    else record { node_id = child; browse_name = name_of name; node_class = class } ∷ rest

-- BrowseOPCUA, with the client; the second engine is the policy engine as it is when the server has
-- answered.
unfoldable pub browse_node :
    {S : Type 0} (lib : Clients)
    → Engine S
    → BrowseOpcuaInput
    → lib.NodeId
    → lib.Client
    → Executor lib S
    → Result String BrowseOpcuaOutput × Executor lib S
browse_node lib later q start c e =
    let e' = record e { calls = e.calls ++ (q.endpoint, ServerCall.browse start) ∷ [] } in
    elim (lib.references c start) [
      | none ↦ (err (denied "browse failed"), record e' { conns = reset_conn q.endpoint e.conns })
      | some refs ↦
          let (prefixes, policy) =
            later.granted_values e.policy "device.opcua.read" "node_prefixes" in
          (
            ok (record {
              endpoint = q.endpoint;
              node_id = q.node_id;
              children = children_of prefixes refs;
            }),
            record e' { policy = policy },
          )
    ]

-- BrowseOPCUA, once the call is authorized.
unfoldable pub parse_and_browse :
    {S : Type 0} (lib : Clients)
    → Engine S
    → OpcuaEndpoint
    → BrowseOpcuaInput
    → Executor lib S
    → Result String BrowseOpcuaOutput × Executor lib S
parse_and_browse lib later ep q e = elim (lib.parse_node_id q.node_id) [
  | none ↦ (err (denied "node_id is not valid"), e)
  | some start ↦
      let (found, conns) = client_for lib q.endpoint ep e.conns in
      let e' = record e { conns = conns } in
      elim found [
        | none ↦ (err (denied "could not connect to endpoint"), e')
        | some c ↦ browse_node lib later q start c e'
      ]
]

-- BrowseOPCUA
unfoldable pub browse_opcua :
    {S : Type 0} (lib : Clients)
    → Engine S
    → Engine S
    → Context
    → BrowseOpcuaInput
    → Executor lib S
    → Result String BrowseOpcuaOutput × Executor lib S
browse_opcua lib eng later ctx q e =
    if q.endpoint == "" || q.node_id == ""
    then (err (denied "endpoint and node_id are required"), e)
    else elim (lookup e.endpoints q.endpoint) [
      | none ↦ (err (denied "endpoint is not configured"), e)
      | some ep ↦
          let (decision, policy) =
            eng.authorize e.policy ctx "device.opcua.read"
              (opcua_params q.endpoint (q.node_id ∷ [])) in
          let e' = record e { policy = policy } in
          if not decision.allowed
          then (err (denied decision.reason), e')
          else parse_and_browse lib later ep q e'
    ]
