-- ===== src/Mcp/Session.antt =====
-- internal/mcp/server.go: the tools behind one policy engine, call after call. New hands the same
-- engine to every executor; a call finds the world as it is then.
pub mod Earned
pub mod Egress
pub mod Runs
use fieldlink.Prelude.{ℕ, List, []}
use fieldlink.Config.{Config}
use fieldlink.Policy.{Context}
use fieldlink.Policy.GrantEngine.{Deps, World, GrantEngine, grant_engine}
use fieldlink.Db.Query.{QueryDatabaseInput, query_database}
use fieldlink.Db.Query
use fieldlink.Modbus.Read.{ReadModbusInput, read_modbus}
use fieldlink.Modbus.Read
use fieldlink.Http.{CallInternalHttpInput, call_internal_http}
use fieldlink.Http
use fieldlink.Soap.{CallSoapInput, call_soap}
use fieldlink.Soap
use fieldlink.Opcua.{ReadOpcuaInput, read_opcua}
use fieldlink.Opcua
use fieldlink.Opcua.Browse.{BrowseOpcuaInput, browse_opcua}
use fieldlink.Files.{ReadFileInput}
use fieldlink.Files
use fieldlink.Files.Smb.{read_file, list_directory}
use fieldlink.Files.Walk.{DirEntry, ListDirectoryInput}

-- The libraries of the executors.
pub record Libraries : Type 1 where
  pub databases : Query.Databases
  pub modbus : Read.Clients
  pub web : Http.Web
  pub soap : Soap.Services
  pub opcua : Opcua.Clients
  pub files : Files.Services
  pub sort : List DirEntry → List DirEntry

-- The executors that New makes, and the engine that they share: the one in an executor is that of its
-- last call.
pub record Site (lib : Libraries) : Type 0 where
  pub policy : GrantEngine
  pub databases : Query.Executor lib.databases GrantEngine
  pub modbus : Read.Executor lib.modbus GrantEngine
  pub web : Http.Executor GrantEngine
  pub soap : Soap.Executor lib.soap GrantEngine
  pub opcua : Opcua.Executor lib.opcua GrantEngine
  pub files : Files.Executor lib.files GrantEngine

-- New, the executors.
unfoldable pub new_site : (lib : Libraries) → GrantEngine → Config → Site lib
new_site lib eng cfg = record {
  policy = eng;
  databases = Query.new_executor lib.databases eng cfg.datasources;
  modbus = record { policy = eng; devices = cfg.devices; conns = []; reads = [] };
  web = record { policy = eng; requests = [] };
  soap = Soap.new_executor lib.soap eng cfg.soap_endpoints;
  opcua = Opcua.new_executor lib.opcua eng cfg.opcua_endpoints;
  files = record { policy = eng; smb_shares = cfg.smb_shares; smb_conns = []; targets = [] };
}

-- A call of a tool. A listing carries its fuel.
pub data ToolCall : Type 0 where
  on_database : QueryDatabaseInput → ToolCall
  on_device : ReadModbusInput → ToolCall
  on_web : CallInternalHttpInput → ToolCall
  on_soap : CallSoapInput → ToolCall
  on_nodes : ReadOpcuaInput → ToolCall
  on_node : BrowseOpcuaInput → ToolCall
  on_file : ReadFileInput → ToolCall
  on_directory : ℕ → ListDirectoryInput → ToolCall

-- The site after a call; `later` is the world when a server has answered a browse.
unfoldable pub handle :
    (lib : Libraries) → Deps → World → World → Context → ToolCall → Site lib → Site lib
handle lib deps w later ctx (on_database q) s =
    let e =
      (query_database lib.databases (grant_engine deps w) ctx q
        (record s.databases { policy = s.policy })).1 in
    record s { policy = e.policy; databases = e }
handle lib deps w later ctx (on_device q) s =
    let e =
      (read_modbus lib.modbus (grant_engine deps w) ctx q
        (record s.modbus { policy = s.policy })).1 in
    record s { policy = e.policy; modbus = e }
handle lib deps w later ctx (on_web q) s =
    let e =
      (call_internal_http lib.web deps.matchers (grant_engine deps w) ctx q
        (record s.web { policy = s.policy })).1 in
    record s { policy = e.policy; web = e }
handle lib deps w later ctx (on_soap q) s =
    let e =
      (call_soap lib.soap (grant_engine deps w) ctx q (record s.soap { policy = s.policy })).1 in
    record s { policy = e.policy; soap = e }
handle lib deps w later ctx (on_nodes q) s =
    let e =
      (read_opcua lib.opcua (grant_engine deps w) ctx q (record s.opcua { policy = s.policy })).1 in
    record s { policy = e.policy; opcua = e }
handle lib deps w later ctx (on_node q) s =
    let e =
      (browse_opcua lib.opcua (grant_engine deps w) (grant_engine deps later) ctx q
        (record s.opcua { policy = s.policy })).1 in
    record s { policy = e.policy; opcua = e }
handle lib deps w later ctx (on_file q) s =
    let e =
      (read_file lib.files (grant_engine deps w) ctx q (record s.files { policy = s.policy })).1 in
    record s { policy = e.policy; files = e }
handle lib deps w later ctx (on_directory fuel q) s =
    let e =
      (list_directory lib.files lib.sort fuel (grant_engine deps w) ctx q
        (record s.files { policy = s.policy })).1 in
    record s { policy = e.policy; files = e }

-- A session: any calls, in any order, each in a world of its own.
pub data Run (lib : Libraries) (deps : Deps) (s : Site lib) : Site lib → Type 0 where
  begin : Run lib deps s s
  after :
      (s' : Site lib)
      → Run lib deps s s'
      → (w later : World) (ctx : Context) (c : ToolCall)
      → Run lib deps s (handle lib deps w later ctx c s')
