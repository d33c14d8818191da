-- ===== src/Tests/Stubs/Site.antt =====
-- A site with a signed grant, its files, and the audit records of two calls.
use fieldlink.Prelude.{
  ℕ, zero, suc, ◌+◌, ◌%◌, ◌<◌, ℤ, pos, String, Bytes, codes, true, List, [], ◌∷◌, ◌++◌, none, some,
  map, ◌==◌, if◌then◌else◌, take, replicate, bytes_eq, bytes_eq_refl, starts_with, refl, arith,
}
use fieldlink.Prelude.Disk.{Disk}
use fieldlink.Any.{Any, Map, array, array_of, string, int, int64}
use fieldlink.Grant
use fieldlink.Grant.{Grant, Ed25519, signing_bytes}
use fieldlink.Grant.Keys.RoundTrip.{IsOctets}
use fieldlink.Audit.{Record, Chain, whole}
use fieldlink.Policy.Constraints.{Matchers}
use fieldlink.Policy.GrantEngine.{Deps, World, GrantEngine}
use fieldlink.Cli.SignVerify.{IsSigner}
use fieldlink.Tests.Stubs.Encoding.{letters}
use fieldlink.Tests.Stubs.Log.{table_formats}

abbrev pub query_constraints : Map
query_constraints =
    ("datasources", array (array_of (string "plant" ∷ []))) ∷ ("max_rows", int (pos 100)) ∷ []

abbrev read_constraints : Map
read_constraints =
    ("devices", array (array_of (string "boiler" ∷ [])))
    ∷ ("registers", array (array_of (string "temp" ∷ [])))
    ∷ []

abbrev list_of : List String → Any
list_of [] = array (array_of [])
list_of (s ∷ ss) = array (array_of (string s ∷ map string ss))

abbrev request_constraints : Map
request_constraints = ("cidrs", list_of ("10.0.0.5" ∷ [])) ∷ ("methods", list_of ("GET" ∷ [])) ∷ []

abbrev call_constraints : Map
call_constraints = ("endpoints", list_of ("erp" ∷ [])) ∷ ("operations", list_of ("stock" ∷ [])) ∷ []

abbrev node_constraints : Map
node_constraints =
    ("endpoints", list_of ("line" ∷ [])) ∷ ("node_prefixes", list_of ("ns=2;s=Boiler" ∷ [])) ∷ []

abbrev path_constraints : Map
path_constraints = ("paths", list_of ("/data/" ∷ "smb://s/pub/" ∷ [])) ∷ []

abbrev pub sample_grant : Grant
sample_grant = record {
  version = pos 1;
  grant_id = "g1";
  agent_id = "plant-1";
  issued_at = pos 5;
  expires_at = pos 1000;
  issuer = "ops";
  capabilities =
      record { capability = "db.query"; constraints = query_constraints }
      ∷ record { capability = "device.modbus.read"; constraints = read_constraints }
      ∷ [];
}

-- The same grant with more capabilities.
abbrev pub wide_grant : Grant
wide_grant = record sample_grant {
  capabilities =
      record { capability = "db.query"; constraints = query_constraints }
      ∷ record { capability = "device.modbus.read"; constraints = read_constraints }
      ∷ record { capability = "http.request"; constraints = request_constraints }
      ∷ record { capability = "soap.call"; constraints = call_constraints }
      ∷ record { capability = "device.opcua.read"; constraints = node_constraints }
      ∷ record { capability = "fs.read"; constraints = path_constraints }
      ∷ record { capability = "fs.list"; constraints = path_constraints }
      ∷ [];
}

abbrev pub grant_text : Bytes
grant_text = codes "grant"

abbrev pub grant_formats : Grant.Formats
grant_formats = record {
  Generic = Bytes;
  unmarshal_yaml = some;
  marshal_json = some;
  canonicalize = some;
  unmarshal_grant = λ b.
      if bytes_eq b grant_text
      then some sample_grant
      else if bytes_eq b (codes "wide")
      then some wide_grant
      else none;
}

abbrev checksum : Bytes → ℕ
checksum [] = 0
checksum (c ∷ s) = (c + checksum s) % 256

abbrev pub signature : Bytes → Bytes
signature message = checksum message ∷ replicate 63 0

abbrev pub checksums : Ed25519
checksums = record {
  public = take 32;
  sign_bytes = λ priv message. signature message;
  verify_bytes = λ public message sig. bytes_eq sig (signature message);
}

checksum_small : (s : Bytes) → checksum s < 256
checksum_small [] = omega arith
checksum_small (c ∷ s) = omega arith

pub replicate-IsOctets : (n c : ℕ) → c < 256 → IsOctets (replicate n c)
replicate-IsOctets zero c h = tt
replicate-IsOctets (suc n) c h = (h, replicate-IsOctets n c h)

pub checksums-IsSigner : IsSigner checksums
checksums-IsSigner = record {
  verify-sign = λ priv message. bytes_eq_refl (signature message);
  signature_size = λ priv message. refl;
  signature_octets =
      λ priv message. (checksum_small message, replicate-IsOctets 63 0 (omega arith));
}

abbrev matchers : Matchers
matchers = record {
  glob = λ pattern path. starts_with path pattern;
  to_slash = λ path. path;
  parse_ip = λ s. some (codes s);
  parse_cidr = λ s. some (codes s, []);
  net_contains = λ n ip. bytes_eq n.0 ip;
  int64_of_float = pos;
}

abbrev bare_record : ℤ → String → String → String → String → Record
bare_record seq capability decision reason prev_hash = record {
  seq = seq;
  ts = "t1";
  agent_id = "plant-1";
  grant_id = "g1";
  caller_id = "";
  session_id = "s1";
  capability = capability;
  decision = decision;
  reason = reason;
  params_digest = "sha256:";
  prev_hash = prev_hash;
  hash = "";
}

abbrev first_record : Record
first_record = bare_record (pos 1) "db.query" "allow" "" ""

abbrev second_record : Record
second_record = bare_record (pos 2) "fs.read" "deny" "capability is not permitted" "sha256:0"

-- The record after one that was counted and not written.
abbrev late_record : Record
late_record = bare_record (pos 3) "fs.read" "deny" "capability is not permitted" "sha256:0"

abbrev pub first_full : Record
first_full = record first_record { hash = "sha256:0" }

abbrev pub second_full : Record
second_full = record second_record { hash = "sha256:1000000000" }

abbrev pub table : List Record
table =
    first_record
    ∷ second_record
    ∷ late_record
    ∷ first_full
    ∷ second_full
    ∷ record late_record { hash = "sha256:11000000000" }
    ∷ []

abbrev pub site_deps : Deps
site_deps = record {
  formats = grant_formats;
  ed25519 = checksums;
  encodings = letters;
  matchers = matchers;
  audit_formats = table_formats table;
}

abbrev pub site_key : Bytes
site_key = replicate 64 7

abbrev text_line : Bytes → Bytes
text_line raw = letters.encode_base64 raw ++ (b'\n' ∷ [])

abbrev pub site_disk : Disk
site_disk = record {
  contents = λ path.
      if path == "grant.yaml"
      then some grant_text
      else if path == "grant.yaml.sig"
      then some (text_line (signature (codes "fieldlink-grant-v1:grant")))
      else if path == "key.pub"
      then some (text_line (take 32 site_key))
      else if path == "key"
      then some (text_line site_key)
      else none;
  writable = λ path. true;
}

abbrev pub site_world : World
site_world = record { disk = site_disk; now = pos 500; written = whole; timestamp = "t1" }

abbrev pub wide_world : World
wide_world = record site_world {
  disk = record site_disk {
    contents = λ path.
        if path == "grant.yaml"
        then some (codes "wide")
        else if path == "grant.yaml.sig"
        then some (text_line (signature (codes "fieldlink-grant-v1:wide")))
        else site_disk.contents path;
  };
}

abbrev pub empty_log : Chain
empty_log = record {
  file = [];
  agent_id = "plant-1";
  session_id = "s1";
  seq = pos 0;
  prev_hash = "";
}

abbrev pub site_engine : GrantEngine
site_engine = record {
  agent_id = "plant-1";
  grant_path = "grant.yaml";
  trusted_key = "key.pub";
  audit = some empty_log;
  last_fingerprint = [];
  notices = [];
}

abbrev pub query_params : Map
query_params = ("datasource", string "plant") ∷ ("max_rows", int64 (pos 50)) ∷ []

abbrev pub read_params : Map
read_params = ("path", string "/etc/passwd") ∷ []
