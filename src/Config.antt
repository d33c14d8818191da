-- ===== src/Config.antt =====
-- internal/config/config.go: the operator's settings, the defaults of Load, and the fault tables.
-- A map is an association list, a Duration its nanoseconds, and a float64 its bit pattern; yaml.v3,
-- time.ParseDuration and path/filepath are parameters.
pub mod Defaults
use fieldlink.Prelude.{
  ℕ, ℤ, String, Bytes, Bool, not, ◌&&◌, List, [], ◌∷◌, Option, none, some, ◌==◌, if◌then◌else◌,
}
use fieldlink.Prelude.Results.{Result, ok, err, or_fail, ◌>>=◌}
use fieldlink.Prelude.Disk.{Disk, read_file}

-- m[key] with its `ok`
abbrev pub lookup : {V : Type 0} → List (String × V) → String → Option V
lookup [] key = none
lookup ((k, v) ∷ m) key = if k == key then some v else lookup m key

pub record OpcuaEndpoint : Type 0 where
  pub url : String
  pub auth : String
  pub username_env : String
  pub password_env : String
  pub timeout : ℤ

pub record SmbShare : Type 0 where
  pub host : String
  pub port : ℤ
  pub share : String
  pub username_env : String
  pub password_env : String
  pub domain : String

pub record SoapOperation : Type 0 where
  pub soap_action : String
  pub template : String

pub record SoapEndpoint : Type 0 where
  pub url : String
  pub timeout : ℤ
  pub username_env : String
  pub password_env : String
  pub operations : List (String × SoapOperation)

pub record Datasource : Type 0 where
  pub driver : String
  pub dsn_env : String
  pub max_open_conns : ℤ

pub record Register : Type 0 where
  pub fc : ℤ
  pub address : ℕ
  pub type_name : String
  pub word_order : String
  pub scale : ℕ
  pub unit : String
  pub range : List ℕ
  pub lookup_file : String

pub record Device : Type 0 where
  pub protocol : String
  pub address : String
  pub unit_id : ℕ
  pub timeout : ℤ
  pub registers : List (String × Register)

pub record TlsConfig : Type 0 where
  pub cert_file : String
  pub key_file : String

pub record OauthConfig : Type 0 where
  pub issuer_url : String
  pub audience : String
  pub required_scopes : List String

pub record LocalIssuerClient : Type 0 where
  pub secret_env : String
  pub scopes : List String

pub record LocalIssuerConfig : Type 0 where
  pub signing_key_path : String
  pub token_ttl : ℤ
  pub clients : List (String × LocalIssuerClient)

-- A pointer is an Option.
pub record HttpConfig : Type 0 where
  pub bind : String
  pub allowed_origins : List String
  pub bearer_token_env : String
  pub tls : Option TlsConfig
  pub oauth : Option OauthConfig
  pub local_issuer : Option LocalIssuerConfig

pub record ServerConfig : Type 0 where
  pub transport : String
  pub http : HttpConfig

pub record GrantConfig : Type 0 where
  pub path : String
  pub trusted_key : String

pub record AuditConfig : Type 0 where
  pub path : String
  pub rotate_mb : ℤ

pub record Config : Type 0 where
  pub agent_id : String
  pub server : ServerConfig
  pub grant : GrantConfig
  pub audit : AuditConfig
  pub devices : List (String × Device)
  pub datasources : List (String × Datasource)
  pub opcua_endpoints : List (String × OpcuaEndpoint)
  pub smb_shares : List (String × SmbShare)
  pub soap_endpoints : List (String × SoapEndpoint)
  pub config_dir : String

abbrev pub FaultTable : Type 0
FaultTable = List (ℤ × String)

-- yaml.Unmarshal into a Config and into a map[int]string; filepath.Abs, Dir, IsAbs and Join
pub record Formats : Type 0 where
  pub unmarshal_config : Bytes → Option Config
  pub unmarshal_table : Bytes → Option FaultTable
  pub abs : String → Option String
  pub dir : String → String
  pub is_abs : String → Bool
  pub join : String → String → String

pub data ConfigError : Type 0 where
  cannot_read_config cannot_parse_config no_agent_id no_absolute_path cannot_parse_table :
      ConfigError

-- The defaults that Load fills in.
unfoldable pub default_transport : ServerConfig → ServerConfig
default_transport s = if s.transport == "" then record s { transport = "stdio" } else s

unfoldable pub default_bind : ServerConfig → ServerConfig
default_bind s =
    if s.transport == "http" && s.http.bind == ""
    then record s { http = record s.http { bind = "127.0.0.1:8765" } }
    else s

-- Load, once the file is parsed.
unfoldable pub fill_in : Formats → String → Config → Result ConfigError Config
unfolding default_transport default_bind
fill_in lib path cfg = if cfg.agent_id == "" then err no_agent_id else elim (lib.abs path) [
  | none ↦ err no_absolute_path
  | some absolute ↦ ok (record cfg {
    server = default_bind (default_transport cfg.server);
    config_dir = lib.dir absolute;
  })
]

-- Load
unfoldable pub load : Formats → Disk → String → Result ConfigError Config
unfolding fill_in
load lib disk path = do
  text ← or_fail (read_file disk path) cannot_read_config
  cfg ← or_fail (lib.unmarshal_config text) cannot_parse_config
  fill_in lib path cfg

-- LoadFaultTable: a file that cannot be read is an empty table.
unfoldable pub load_fault_table : Formats → Disk → Config → String → Result ConfigError FaultTable
load_fault_table lib disk c file =
    if file == ""
    then ok []
    else elim (read_file disk (if lib.is_abs file then file else lib.join c.config_dir file)) [
      | none ↦ ok []
      | some text ↦ or_fail (lib.unmarshal_table text) cannot_parse_table
    ]
