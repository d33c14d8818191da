-- ===== src/Policy/GrantEngine.antt =====
-- internal/policy/grant_engine.go and grant_io.go: the engine that reads and verifies the signed
-- grant anew on every call, and records each decision.
pub mod Permits
pub mod Soundness
pub mod Runs
use fieldlink.Prelude.{
  ℤ, String, Bytes, bytes_eq, Bool, true, false, not, List, [], ◌∷◌, ◌++◌, Option, none, some,
  concat, ◌==◌, if◌then◌else◌,
}
use fieldlink.Prelude.Results.{Result, ok, err, or_fail, ◌>>=◌}
use fieldlink.Prelude.Disk.{Disk, read_file}
use fieldlink.Any.{Any, Map, index, as_array, as_string, items}
use fieldlink.Grant
use fieldlink.Grant.{Grant, Ed25519, parse_yaml, validate, verify, find, after, Invalid, ParseError}
use fieldlink.Grant.Keys.{
  Encodings, KeyError, read_public_key_file, read_signature_file, fingerprint,
}
use fieldlink.Audit
use fieldlink.Audit.{Chain, Entry, Written, append, params_digest}
use fieldlink.Policy.{Decision, deny, Context, background, caller_id_from_context, Engine}
use fieldlink.Policy.Constraints.{
  Matchers, authorize_fs_read, authorize_fs_list, authorize_modbus_read, authorize_soap_call,
  authorize_http_request, authorize_db_query, authorize_opcua_read,
}

-- The code that the engine calls and that is not its own.
pub record Deps : Type 1 where
  pub formats : Grant.Formats
  pub ed25519 : Ed25519
  pub encodings : Encodings
  pub matchers : Matchers
  pub audit_formats : Audit.Formats

-- What a call meets: the files, the time, and what becomes of the write to the audit log.
pub record World : Type 0 where
  pub disk : Disk
  pub now : ℤ
  pub written : Written
  pub timestamp : String

-- What noteFingerprint writes to the operator's log.
pub data Notice : Type 0 where
  key_loaded : Bytes → Notice
  key_changed : (previous current : Bytes) → Notice

pub record GrantEngine : Type 0 where
  pub agent_id : String
  pub grant_path : String
  pub trusted_key : String
  pub audit : Option Chain
  pub last_fingerprint : Bytes
  pub notices : List Notice

-- NewGrantEngine, with the audit chain that runServe sets on it
unfoldable pub new_grant_engine : String → String → String → Option Chain → GrantEngine
new_grant_engine agent_id grant_path trusted_key audit = record {
  agent_id = agent_id;
  grant_path = grant_path;
  trusted_key = trusted_key;
  audit = audit;
  last_fingerprint = [];
  notices = [];
}

-- sigPathFor
unfoldable pub sig_path_for : String → String
sig_path_for grant_path = concat grant_path ".sig"

abbrev pub missing_or_invalid : String
missing_or_invalid = "grant is missing or invalid"

-- parseGrantFile
unfoldable pub parse_grant_file : Grant.Formats → Disk → String → Option (Grant × Bytes)
parse_grant_file lib disk path = elim (read_file disk path) [
  | none ↦ none
  | some text ↦ elim (parse_yaml lib text) [ ok p ↦ some p | err _ ↦ none ]
]

abbrev is_nil : {E : Type 0} → Option E → Bool
is_nil none = true
is_nil (some e) = false

-- load, once the signature is read.
unfoldable pub check_signed :
    Deps → World → GrantEngine → Bytes → Grant → Bytes → Bytes → Result String Grant
check_signed deps w e public g canonical sig =
    if not (verify deps.ed25519 public canonical sig)
    then err missing_or_invalid
    else if after w.now g.expires_at
    then err "grant has expired"
    else if not (g.agent_id == e.agent_id)
    then err "grant is not valid for this installation"
    else ok g

-- load, once the grant is parsed.
unfoldable pub check_parsed :
    Deps → World → GrantEngine → Bytes → Grant × Bytes → Result String Grant
check_parsed deps w e public (g, canonical) =
    if not (is_nil (validate g))
    then err missing_or_invalid
    else elim (read_signature_file deps.encodings w.disk (sig_path_for e.grant_path)) [
      | err _ ↦ err missing_or_invalid
      | ok sig ↦ check_signed deps w e public g canonical sig
    ]

-- load, from the trusted key on.
unfoldable pub check_grant : Deps → World → GrantEngine → Bytes → Result String Grant
check_grant deps w e public = elim (parse_grant_file deps.formats w.disk e.grant_path) [
  | none ↦ err missing_or_invalid
  | some p ↦ check_parsed deps w e public p
]

-- noteFingerprint
unfoldable pub note_fingerprint : Deps → Bytes → GrantEngine → GrantEngine
note_fingerprint deps public e =
    let fp = fingerprint deps.encodings public in
    if bytes_eq e.last_fingerprint []
    then record e { last_fingerprint = fp; notices = e.notices ++ key_loaded fp ∷ [] }
    else if not (bytes_eq e.last_fingerprint fp)
    then record e {
      last_fingerprint = fp;
      notices = e.notices ++ key_changed e.last_fingerprint fp ∷ [];
    }
    else e

-- load: the verified grant or the reason for its refusal, and the engine after the call.
unfoldable pub load : Deps → World → GrantEngine → Result String Grant × GrantEngine
load deps w e = elim (read_public_key_file deps.encodings w.disk e.trusted_key) [
  | err _ ↦ (err missing_or_invalid, e)
  | ok public ↦ (check_grant deps w e public, note_fingerprint deps public e)
]

-- Granted
unfoldable pub granted : Deps → World → GrantEngine → String → Bool × GrantEngine
granted deps w e capability =
    let (r, e') = load deps w e in
    (
      elim r [ err _ ↦ false | ok g ↦ elim (find g capability) [ none ↦ false | some _ ↦ true ] ],
      e',
    )

-- The strings of a constraint.
abbrev pub keep_strings : List Any → List String
keep_strings [] = []
keep_strings (v ∷ vs) =
    let rest = keep_strings vs in elim (as_string v) [ none ↦ rest | some s ↦ s ∷ rest ]

abbrev pub string_values : Any → List String
string_values v = elim (as_array v) [ none ↦ [] | some vs ↦ keep_strings vs ]

-- GrantedValues; it never answers nil
unfoldable pub granted_values :
    Deps → World → GrantEngine → String → String → List String × GrantEngine
granted_values deps w e capability key =
    let (r, e') = load deps w e in
    (
      elim r [
        | err _ ↦ []
        | ok g ↦ elim (find g capability) [
          | none ↦ []
          | some constraints ↦ string_values (index constraints key)
        ]
      ],
      e',
    )

abbrev pub not_permitted : String
not_permitted = "capability is not permitted"

-- The switch of authorizeInner.
unfoldable pub dispatch : Matchers → String → Map → Map → Decision
dispatch lib capability constraints params =
    if capability == "fs.read"
    then authorize_fs_read lib constraints params
    else if capability == "fs.list"
    then authorize_fs_list lib constraints params
    else if capability == "device.modbus.read"
    then authorize_modbus_read constraints params
    else if capability == "http.request"
    then authorize_http_request lib constraints params
    else if capability == "db.query"
    then authorize_db_query lib constraints params
    else if capability == "device.opcua.read"
    then authorize_opcua_read constraints params
    else if capability == "soap.call"
    then authorize_soap_call constraints params
    else deny not_permitted

-- What authorizeInner answers to what load returns: the grant's id and the decision.
unfoldable pub decide : Matchers → Result String Grant → String → Map → String × Decision
decide lib (err reason) capability params = ("", deny reason)
decide lib (ok g) capability params = (
  g.grant_id,
  elim (find g capability) [
    | none ↦ deny not_permitted
    | some constraints ↦ dispatch lib capability constraints params
  ],
)

-- authorizeInner
unfoldable pub authorize_inner :
    Deps → World → GrantEngine → String → Map → (String × Decision) × GrantEngine
authorize_inner deps w e capability params =
    let (r, e') = load deps w e in (decide deps.matchers r capability params, e')

-- The record that Authorize asks the chain to append.
unfoldable pub entry_of : Deps → World → Context → String → Map → String × Decision → Entry
entry_of deps w ctx capability params d = record {
  grant_id = d.0;
  caller_id = caller_id_from_context ctx;
  capability = capability;
  decision = if d.1.allowed then "allow" else "deny";
  reason = d.1.reason;
  params_digest = params_digest deps.audit_formats params;
  ts = w.timestamp;
}

-- Authorize. A record that cannot be appended is an error in the operator's log, and the decision
-- stands.
unfoldable pub authorize :
    Deps → World → GrantEngine → Context → String → Map → Decision × GrantEngine
authorize deps w e ctx capability params =
    let (d, e') = authorize_inner deps w e capability params in
    (
      d.1,
      elim e'.audit [
        | none ↦ e'
        | some c ↦ record e' {
          audit =
              some
                (append deps.audit_formats w.written (entry_of deps w ctx capability params d) c).0;
        }
      ],
    )

-- The engine as an implementation of the interface, in one world.
unfoldable pub grant_engine : Deps → World → Engine GrantEngine
grant_engine deps w = record {
  authorize = λ e ctx capability params. authorize deps w e ctx capability params;
  granted = λ e capability. granted deps w e capability;
  granted_values =
      λ e capability key. let (vs, e') = granted_values deps w e capability key in (some vs, e');
}
