-- ===== src/Mcp/Session/Earned.antt =====
-- What it is for a thing that an executor lets out to be earned by a call.
use fieldlink.Prelude.{ℕ, String, Bytes, codes, false, [], ◌∷◌, none, some, ◌≡◌, ◌⊎◌, All, Some}
use fieldlink.Any.{Map}
use fieldlink.Config.{SoapEndpoint, SoapOperation, lookup}
use fieldlink.Policy.GrantEngine.{Deps, World, GrantEngine}
use fieldlink.Policy.GrantEngine.Soundness.{Authorized}
use fieldlink.Db.Statement.{validate_statement}
use fieldlink.Db.Query.{Sent, QueryDatabaseInput, query_params, requested_rows}
use fieldlink.Modbus.Read.{ReadModbusInput, read_params}
use fieldlink.Http
use fieldlink.Http.{
  Url, CallInternalHttpInput, call_internal_http, pinned_request, request_params,
  is_metadata_blocked, method_of,
}
use fieldlink.Soap
use fieldlink.Soap.{CallSoapInput, call_soap, soap_params, request_for}
use fieldlink.Soap.Cache.{HasPlainNames, IsCurrent}
use fieldlink.Opcua.{ReadOpcuaInput, ServerCall, parse_node_ids, opcua_params}
use fieldlink.Opcua.Browse.{BrowseOpcuaInput}
use fieldlink.Files
use fieldlink.Files.{Target, ReadFileInput, resolve_safe, list_params, limit_of}
use fieldlink.Files.SmbPath.{parse_smb_path}
use fieldlink.Files.Walk.{ListDirectoryInput}
use fieldlink.Mcp.Session.{
  Libraries, ToolCall, on_database, on_device, on_web, on_soap, on_nodes, on_node, on_file,
  on_directory,
}

-- `Made` says which calls have been made: in which world, and with which state of the policy engine.
module _ (lib : Libraries) (deps : Deps) (Made : World → GrantEngine → ToolCall → Type 0) where
  -- The call has been made, and where it was, a verified grant permitted these parameters.
  abbrev pub IsEarned : ToolCall → String → Map → Type 0
  IsEarned c capability params =
      (w : World) × (e : GrantEngine) × Made w e c × Authorized deps w e capability params

  -- A statement that the guard accepts, on a datasource that a grant permits.
  abbrev pub IsEarnedQuery : Sent → Type 0
  IsEarnedQuery s =
      (validate_statement (codes s.sql) ≡ none)
      × (q : QueryDatabaseInput) × IsEarned (on_database q) "db.query"
          (query_params s.datasource (requested_rows q))

  abbrev pub IsEarnedRead : ReadModbusInput → Type 0
  IsEarnedRead q = IsEarned (on_device q) "device.modbus.read" (read_params q)

  -- A request that is pinned to an address outside the metadata blocks, which a grant permits.
  pub record IsEarnedRequest (r : Http.Request) : Type 0 where
    pub ip : Bytes
    pub u : Url
    pub method : String
    pub q : CallInternalHttpInput
    pub pinned : r ≡ pinned_request lib.web ip u method q
    pub unblocked : is_metadata_blocked deps.matchers ip ≡ false
    pub earned : IsEarned (on_web q) "http.request" (request_params lib.web ip method)

  -- An envelope for an operation that a grant permits, or a request to which the answers to such an
  -- envelope have redirected http.DefaultClient.
  pub record IsEarnedEnvelope (r : Soap.Request) : Type 0 where
    pub ep : SoapEndpoint
    pub op : SoapOperation
    pub envelope : Bytes
    pub q : CallSoapInput
    pub posted :
        let first = request_for lib.soap ep op envelope in
        Some (λ x. x ≡ r) (first ∷ lib.soap.redirected first)
    pub named : lookup ep.operations q.operation ≡ some op
    pub earned : IsEarned (on_soap q) "soap.call" (soap_params q)

  -- The state of the SOAP executor, with its cache current and every request earned.
  pub record IsEarnedSoap (e : Soap.Executor lib.soap GrantEngine) : Type 0 where
    pub plain : HasPlainNames lib.soap e.endpoints
    pub current : IsCurrent lib.soap e.endpoints e.templates
    pub requests : All IsEarnedEnvelope e.requests

  -- A node that is read or browsed under a name that a grant permits.
  abbrev pub IsEarnedCall : String × ServerCall lib.opcua.NodeId → Type 0
  IsEarnedCall (endpoint, ServerCall.read ids) =
      (q : ReadOpcuaInput) × (q.endpoint ≡ endpoint)
      × (parse_node_ids lib.opcua q.node_ids ≡ some ids)
      × IsEarned (on_nodes q) "device.opcua.read" (opcua_params endpoint q.node_ids)
  IsEarnedCall (endpoint, ServerCall.browse start) =
      (q : BrowseOpcuaInput) × (q.endpoint ≡ endpoint)
      × (lib.opcua.parse_node_id q.node_id ≡ some start)
      × IsEarned (on_node q) "device.opcua.read" (opcua_params endpoint (q.node_id ∷ []))

  -- A call for the path `asked`, where a grant permits `path` to be read or listed.
  abbrev pub IsEarnedPath : String → String → Type 0
  IsEarnedPath asked path =
      ((q : ReadFileInput) × (q.path ≡ asked)
        × IsEarned (on_file q) "fs.read" (Files.read_params path (limit_of q)))
      ⊎ ((fuel : ℕ) × (q : ListDirectoryInput) × (q.path ≡ asked)
          × IsEarned (on_directory fuel q) "fs.list" (list_params path q.recursive))

  -- The resolved path is permitted, or the call's own path for a place on a share.
  abbrev pub IsEarnedTarget : Target → Type 0
  IsEarnedTarget (Target.local resolved) =
      (path : String) × (resolve_safe lib.files path ≡ some resolved) × IsEarnedPath path resolved
  IsEarnedTarget (Target.on_share name rel) =
      (path : String) × (share : Bytes) × (parse_smb_path (codes path) ≡ some (share, rel))
      × (lib.files.string_of share ≡ name)
      × IsEarnedPath path path
