-- ===== src/Mcp/Server.antt =====
-- internal/mcp/server.go: the tools that the server offers, by the grant at its start.
pub mod Offers
use fieldlink.Prelude.{String, Bool, true, false, List, [], ◌∷◌, ◌++◌, if◌then◌else◌}
use fieldlink.Policy.{Engine}

-- A gosdk.Tool with its annotations; the descriptions are left out.
pub record Tool : Type 0 where
  pub name : String
  pub title : String
  pub read_only_hint : Bool
  pub destructive_hint : Bool
  pub idempotent_hint : Bool
  pub open_world_hint : Bool

abbrev pub tool : String → String → Bool → Bool → Tool
tool name title idempotent open_world = record {
  name = name;
  title = title;
  read_only_hint = true;
  destructive_hint = false;
  idempotent_hint = idempotent;
  open_world_hint = open_world;
}

-- New, the tools behind each capability.
abbrev pub tools : List (String × List Tool)
tools =
    ("fs.read", tool "read_file" "Read file" true false ∷ [])
    ∷ ("fs.list", tool "list_directory" "List directory" true false ∷ [])
    ∷ ("device.modbus.read", tool "read_modbus" "Read Modbus register" true false ∷ [])
    ∷ (
      "device.opcua.read",
      tool "read_opcua" "Read OPC-UA nodes" true false
          ∷ tool "browse_opcua" "Browse OPC-UA nodes" true false
          ∷ [],
    )
    ∷ ("http.request", tool "call_internal_http" "Call internal HTTP service" true true ∷ [])
    ∷ ("db.query", tool "query_database" "Query database" true false ∷ [])
    ∷ ("soap.call", tool "call_soap" "Call legacy SOAP operation" false true ∷ [])
    ∷ []

-- New, one `if eng.Granted(capability)` after the other.
unfoldable pub add_tools : {S : Type 0} → Engine S → List (String × List Tool) → S → List Tool × S
add_tools eng [] s = ([], s)
add_tools eng ((capability, offered) ∷ rows) s =
    let (is_granted, s') = eng.granted s capability in
    let (more, s'') = add_tools eng rows s' in ((if is_granted then offered ++ more else more), s'')
