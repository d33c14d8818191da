-- ===== src/Mcp/Resources.antt =====
-- internal/mcp/resources.go: the resources, filtered by the grant. sort.Strings, the format of a time,
-- and the shape of JSON are parameters or left out: a resource is what its JSON is made of.
pub mod Uris
pub mod Schema
pub mod Consistency
pub mod Shown
use fieldlink.Prelude.{
  ℕ, ltb, leb, nat_eq, ◌-◌, ℤ, String, Bytes, codes, bytes_eq, has_prefix, drop, take, length, Bool,
  true, false, not, ◌&&◌, ◌||◌, List, [], ◌∷◌, ◌++◌, Option, none, some, any, map, ◌==◌,
  if◌then◌else◌,
}
use fieldlink.Prelude.Results.{Result, ok, err}
use fieldlink.Prelude.Disk.{Disk, read_file}
use fieldlink.Grant
use fieldlink.Grant.{Grant, parse_yaml}
use fieldlink.Config.{
  Config, ConfigError, Device, Register, Datasource, FaultTable, Formats, lookup, load_fault_table,
}
use fieldlink.Policy.{Engine}

-- valueAllowed: no list, nil, is no restriction.
unfoldable pub value_allowed : Option (List String) → String → Bool
value_allowed none v = true
value_allowed (some allowed) v = any (λ a. a == v) allowed

abbrev pub keys : {V : Type 0} → List (String × V) → List String
keys [] = []
keys ((k, v) ∷ m) = k ∷ keys m

-- sortedKeys
unfoldable pub sorted_keys :
    {V : Type 0} → (List String → List String) → List (String × V) → List String
sorted_keys sort m = sort (keys m)

pub record RedactedGrant : Type 0 where
  pub agent_id : String
  pub expires_at : String
  pub capabilities : List String

-- loadGrantDocForDisplay
unfoldable pub load_grant_doc_for_display : Grant.Formats → Disk → String → Option Grant
load_grant_doc_for_display lib disk path = elim (read_file disk path) [
  | none ↦ none
  | some text ↦ elim (parse_yaml lib text) [ err _ ↦ none | ok p ↦ some p.0 ]
]

-- The resource fieldlink://grant; `none` stands for the status that no valid grant is active.
unfoldable pub grant_resource :
    Grant.Formats
    → (List String → List String)
    → (ℤ → String)
    → Disk
    → Config
    → Option RedactedGrant
grant_resource lib sort format disk cfg =
    elim (load_grant_doc_for_display lib disk cfg.grant.path) [
      | none ↦ none
      | some g ↦ some (record {
        agent_id = g.agent_id;
        expires_at = format g.expires_at;
        capabilities = sort (map (λ c. c.capability) g.capabilities);
      })
    ]

pub record DeviceSummary : Type 0 where
  pub name : String
  pub protocol : String
  pub address : String

-- The loop of fieldlink://devices.
unfoldable pub device_summaries :
    List (String × Device) → Option (List String) → List String → List DeviceSummary
device_summaries devices allowed [] = []
device_summaries devices allowed (name ∷ names) =
    let rest = device_summaries devices allowed names in
    if not (value_allowed allowed name) then rest else elim (lookup devices name) [
      | none ↦ record { name = name; protocol = ""; address = "" } ∷ rest
      | some d ↦ record { name = name; protocol = d.protocol; address = d.address } ∷ rest
    ]

-- The resource fieldlink://devices; `allowed` is what the grant held at the start.
unfoldable pub devices_resource :
    (List String → List String) → Config → Option (List String) → List DeviceSummary
devices_resource sort cfg allowed =
    device_summaries cfg.devices allowed (sorted_keys sort cfg.devices)

-- extractID
unfoldable pub has_suffix : Bytes → Bytes → Bool
has_suffix s suffix =
    leb (length suffix) (length s) && bytes_eq (drop (length s - length suffix) s) suffix

unfoldable pub trim_prefix : Bytes → Bytes → Bytes
trim_prefix s prefix = if has_prefix s prefix then drop (length prefix) s else s

unfoldable pub trim_suffix : Bytes → Bytes → Bytes
trim_suffix s suffix = if has_suffix s suffix then take (length s - length suffix) s else s

unfoldable pub extract_id : Bytes → Bytes → Bytes → Option Bytes
extract_id uri prefix suffix =
    if not (has_prefix uri prefix) || not (has_suffix uri suffix)
    then none
    else let id = trim_suffix (trim_prefix uri prefix) suffix in
      if bytes_eq id [] || any (λ c. nat_eq c b'/') id then none else some id

-- The device that a URI names, if the grant of the start permits it; `string_of` is the conversion of
-- bytes.
unfoldable pub named_device :
    (Bytes → String) → Config → Option (List String) → Bytes → Bytes → Option Device
named_device string_of cfg allowed suffix uri =
    elim (extract_id uri (codes "fieldlink://devices/") suffix) [
      | none ↦ none
      | some id ↦ elim (lookup cfg.devices (string_of id)) [
        | none ↦ none
        | some dev ↦ if not (value_allowed allowed (string_of id)) then none else some dev
      ]
    ]

-- The loop of fieldlink://devices/{id}/registers.
unfoldable pub visible_registers :
    Option (List String) → List (String × Register) → List (String × Register)
visible_registers allowed [] = []
visible_registers allowed ((name, reg) ∷ regs) =
    let rest = visible_registers allowed regs in
    if value_allowed allowed name then (name, reg) ∷ rest else rest

-- The resource fieldlink://devices/{id}/registers; `none` is ResourceNotFoundError.
unfoldable pub registers_resource :
    {S : Type 0}
    → (Bytes → String)
    → Engine S
    → Config
    → Option (List String)
    → Bytes
    → S
    → Option (List (String × Register)) × S
registers_resource string_of eng cfg allowed uri s =
    elim (named_device string_of cfg allowed (codes "/registers") uri) [
      | none ↦ (none, s)
      | some dev ↦
          let (registers, s') = eng.granted_values s "device.modbus.read" "registers" in
          (some (visible_registers registers dev.registers), s')
    ]

-- firstLookup
unfoldable pub first_lookup : List (String × Register) → List String → String
first_lookup registers [] = ""
first_lookup registers (name ∷ names) =
    let rest = first_lookup registers names in
    elim (lookup registers name) [
      | none ↦ rest
      | some reg ↦ if not (reg.lookup_file == "") then reg.lookup_file else rest
    ]

-- The resource fieldlink://devices/{id}/faults.
unfoldable pub faults_resource :
    (Bytes → String)
    → (List String → List String)
    → Formats
    → Disk
    → Config
    → Option (List String)
    → Bytes
    → Option (Result ConfigError FaultTable)
faults_resource string_of sort lib disk cfg allowed uri =
    elim (named_device string_of cfg allowed (codes "/faults") uri) [
      | none ↦ none
      | some dev ↦ some (
          load_fault_table lib disk cfg
            (first_lookup dev.registers (sorted_keys sort dev.registers)))
    ]

pub record DatasourceSummary : Type 0 where
  pub name : String
  pub driver : String

-- The loop of fieldlink://datasources.
unfoldable pub datasource_summaries :
    List (String × Datasource) → Option (List String) → List String → List DatasourceSummary
datasource_summaries sources allowed [] = []
datasource_summaries sources allowed (name ∷ names) =
    let rest = datasource_summaries sources allowed names in
    if not (value_allowed allowed name) then rest else elim (lookup sources name) [
      | none ↦ record { name = name; driver = "" } ∷ rest
      | some d ↦ record { name = name; driver = d.driver } ∷ rest
    ]

-- registerResources: the URIs and templates that are there.
unfoldable pub register_resources : {S : Type 0} → Engine S → S → List String × S
register_resources eng s =
    let (devices, s') = eng.granted s "device.modbus.read" in
    let (sources, s'') = eng.granted s' "db.query" in
    (
      "fieldlink://grant" ∷ []
          ++ (if devices
              then "fieldlink://devices" ∷ "fieldlink://devices/{id}/registers"
                ∷ "fieldlink://devices/{id}/faults" ∷ []
              else [])
          ++ (if sources
              then "fieldlink://datasources" ∷ "fieldlink://datasources/{id}/schema" ∷ []
              else []),
      s'',
    )
