-- ===== src/Policy/GrantEngine/Permits.antt =====
-- What a grant permits, capability by capability, and that the engine's checks decide it.
use fieldlink.Prelude.{
  String, Bytes, Bool, true, false, not, ◌&&◌, List, [], ◌∷◌, Option, none, some, all, ◌==◌,
  if◌then◌else◌, ◌≡◌, refl, ◌↔◌, ◌⊎◌, inl, inr, arith, eq_iff, All, iff_and, iff_trans, Bool-cases,
}
use fieldlink.Any.{Any, Map, index, string_or_empty, bool_or_false, strings_or_nil}
use fieldlink.Policy.{Decision, allow, deny}
use fieldlink.Policy.Constraints.{
  Matchers, forbids, address_matches, any_prefix_matches, authorize_fs_read, authorize_fs_list,
  authorize_modbus_read, authorize_soap_call, authorize_http_request, authorize_db_query,
  authorize_opcua_read,
}
use fieldlink.Policy.Constraints.Matching.{
  IsPathGranted, path_matches_any_iff, IsWithin, exceeds_iff, IsListed, string_in_list_iff,
  IsInNetwork, ip_matches_any_cidr_iff, IsNodeGranted, any_prefix_matches_iff,
}
use fieldlink.Policy.GrantEngine.{dispatch}

-- A parameter that should be a string.
abbrev text : Map → String → String
text m key = string_or_empty (index m key)

abbrev pub FsRead : Matchers → Map → Map → Type 0
FsRead lib c p =
    IsPathGranted lib (index c "paths") (text p "path")
    × IsWithin lib (index c "max_bytes") (index p "max_bytes")

-- Recursion is refused only where the grant says `recursive: false`.
abbrev pub FsList : Matchers → Map → Map → Type 0
FsList lib c p =
    IsPathGranted lib (index c "paths") (text p "path")
    × ((forbids (index c "recursive") && bool_or_false (index p "recursive")) ≡ false)

abbrev pub Modbus : Map → Map → Type 0
Modbus c p =
    IsListed (index c "devices") (text p "device")
    × IsListed (index c "registers") (text p "register")

abbrev pub Soap : Map → Map → Type 0
Soap c p =
    IsListed (index c "endpoints") (text p "endpoint")
    × IsListed (index c "operations") (text p "operation")

abbrev IsAddress : Matchers → Any → Option Bytes → Type 0
IsAddress lib cidrs none = ⊥
IsAddress lib cidrs (some ip) = IsInNetwork lib cidrs ip

abbrev pub Http : Matchers → Map → Map → Type 0
Http lib c p =
    IsAddress lib (index c "cidrs") (lib.parse_ip (text p "resolved_ip"))
    × IsListed (index c "methods") (text p "method")

abbrev pub Db : Matchers → Map → Map → Type 0
Db lib c p =
    IsListed (index c "datasources") (text p "datasource")
    × IsWithin lib (index c "max_rows") (index p "max_rows")

abbrev pub Opcua : Map → Map → Type 0
Opcua c p =
    IsListed (index c "endpoints") (text p "endpoint")
    × All (IsNodeGranted (index c "node_prefixes")) (strings_or_nil (index p "node_ids"))

-- A decision by two checks.
check_and_check :
    (a b : Bool) (r s : String)
    → ((if not a then deny r else if not b then deny s else allow).allowed ≡ true)
      ↔ ((a ≡ true) × (b ≡ true))
check_and_check a b r s = ground arith

check_and_ceiling :
    (a b : Bool) (r s : String)
    → ((if not a then deny r else if b then deny s else allow).allowed ≡ true)
      ↔ ((a ≡ true) × (b ≡ false))
check_and_ceiling a b r s = ground arith

all_iff :
    (prefixes : Any) (ids : List String)
    → (all (any_prefix_matches prefixes) ids ≡ true) ↔ All (IsNodeGranted prefixes) ids
all_iff prefixes [] = ((λ h. tt), (λ h. refl))
all_iff prefixes (i ∷ is) =
    iff_trans (ground arith) (iff_and (any_prefix_matches_iff prefixes i) (all_iff prefixes is))

IsAddress-iff :
    (lib : Matchers) (cidrs : Any) (ip : Option Bytes)
    → (address_matches lib cidrs ip ≡ true) ↔ IsAddress lib cidrs ip
IsAddress-iff lib cidrs none = ((λ h. absurd (cc)), (λ h. absurd h))
IsAddress-iff lib cidrs (some ip) = ip_matches_any_cidr_iff lib cidrs ip

module _ (lib : Matchers) (c p : Map) where
  FsRead-iff : ((authorize_fs_read lib c p).allowed ≡ true) ↔ FsRead lib c p
  unfolding authorize_fs_read
  FsRead-iff = iff_trans (check_and_ceiling _ _ _ _) (
      iff_and (path_matches_any_iff lib (index c "paths") (text p "path"))
        (exceeds_iff lib (index c "max_bytes") (index p "max_bytes")))

  FsList-iff : ((authorize_fs_list lib c p).allowed ≡ true) ↔ FsList lib c p
  unfolding authorize_fs_list
  FsList-iff =
      iff_trans (check_and_ceiling _ _ _ _)
        (iff_and (path_matches_any_iff lib (index c "paths") (text p "path")) ((λ h. h), (λ h. h)))

  Modbus-iff : ((authorize_modbus_read c p).allowed ≡ true) ↔ Modbus c p
  unfolding authorize_modbus_read
  Modbus-iff = iff_trans (check_and_check _ _ _ _) (
      iff_and (string_in_list_iff (index c "devices") (text p "device"))
        (string_in_list_iff (index c "registers") (text p "register")))

  Soap-iff : ((authorize_soap_call c p).allowed ≡ true) ↔ Soap c p
  unfolding authorize_soap_call
  Soap-iff = iff_trans (check_and_check _ _ _ _) (
      iff_and (string_in_list_iff (index c "endpoints") (text p "endpoint"))
        (string_in_list_iff (index c "operations") (text p "operation")))

  Http-iff : ((authorize_http_request lib c p).allowed ≡ true) ↔ Http lib c p
  unfolding authorize_http_request
  Http-iff = iff_trans (check_and_check _ _ _ _) (
      iff_and (IsAddress-iff lib (index c "cidrs") (lib.parse_ip (text p "resolved_ip")))
        (string_in_list_iff (index c "methods") (text p "method")))

  Db-iff : ((authorize_db_query lib c p).allowed ≡ true) ↔ Db lib c p
  unfolding authorize_db_query
  Db-iff = iff_trans (check_and_ceiling _ _ _ _) (
      iff_and (string_in_list_iff (index c "datasources") (text p "datasource"))
        (exceeds_iff lib (index c "max_rows") (index p "max_rows")))

  Opcua-iff : ((authorize_opcua_read c p).allowed ≡ true) ↔ Opcua c p
  unfolding authorize_opcua_read
  Opcua-iff = iff_trans (check_and_check _ _ _ _) (
      iff_and (string_in_list_iff (index c "endpoints") (text p "endpoint"))
        (all_iff (index c "node_prefixes") (strings_or_nil (index p "node_ids"))))

-- A capability that the build knows, with the constraints that its call meets.
pub data Permits (lib : Matchers) (capability : String) (c p : Map) : Type 0 where
  fs_read : capability ≡ "fs.read" → FsRead lib c p → Permits lib capability c p
  fs_list : capability ≡ "fs.list" → FsList lib c p → Permits lib capability c p
  modbus_read : capability ≡ "device.modbus.read" → Modbus c p → Permits lib capability c p
  http_request : capability ≡ "http.request" → Http lib c p → Permits lib capability c p
  db_query : capability ≡ "db.query" → Db lib c p → Permits lib capability c p
  opcua_read : capability ≡ "device.opcua.read" → Opcua c p → Permits lib capability c p
  soap_call : capability ≡ "soap.call" → Soap c p → Permits lib capability c p

module _ (lib : Matchers) (c p : Map) where
  dispatch_complete :
      (capability : String)
      → Permits lib capability c p
      → (dispatch lib capability c p).allowed ≡ true
  unfolding dispatch
  dispatch_complete k (fs_read e h) = rw e ((FsRead-iff lib c p).1 h)
  dispatch_complete k (fs_list e h) = rw e ((FsList-iff lib c p).1 h)
  dispatch_complete k (modbus_read e h) = rw e ((Modbus-iff lib c p).1 h)
  dispatch_complete k (http_request e h) = rw e ((Http-iff lib c p).1 h)
  dispatch_complete k (db_query e h) = rw e ((Db-iff lib c p).1 h)
  dispatch_complete k (opcua_read e h) = rw e ((Opcua-iff lib c p).1 h)
  dispatch_complete k (soap_call e h) = rw e ((Soap-iff lib c p).1 h)

  -- One branch of the switch.
  branch :
      (k name : String) (d rest : Decision)
      → (if k == name then d else rest).allowed ≡ true
      → ((k ≡ name) × (d.allowed ≡ true)) ⊎ (rest.allowed ≡ true)
  branch k name d rest h = elim (Bool-cases (k == name)) [
    | inl e ↦ inl ((eq_iff k name).0 e, rw e at h)
    | inr e ↦ inr (rw e at h)
  ]

  dispatch_sound : (k : String) → (dispatch lib k c p).allowed ≡ true → Permits lib k c p
  unfolding dispatch
  dispatch_sound k h₁ = elim (branch k "fs.read" _ _ h₁) [
    | inl a ↦ fs_read a.0 ((FsRead-iff lib c p).0 a.1)
    | inr h₂ ↦ elim (branch k "fs.list" _ _ h₂) [
      | inl a ↦ fs_list a.0 ((FsList-iff lib c p).0 a.1)
      | inr h₃ ↦ elim (branch k "device.modbus.read" _ _ h₃) [
        | inl a ↦ modbus_read a.0 ((Modbus-iff lib c p).0 a.1)
        | inr h₄ ↦ elim (branch k "http.request" _ _ h₄) [
          | inl a ↦ http_request a.0 ((Http-iff lib c p).0 a.1)
          | inr h₅ ↦ elim (branch k "db.query" _ _ h₅) [
            | inl a ↦ db_query a.0 ((Db-iff lib c p).0 a.1)
            | inr h₆ ↦ elim (branch k "device.opcua.read" _ _ h₆) [
              | inl a ↦ opcua_read a.0 ((Opcua-iff lib c p).0 a.1)
              | inr h₇ ↦ elim (branch k "soap.call" _ _ h₇) [
                | inl a ↦ soap_call a.0 ((Soap-iff lib c p).0 a.1)
                | inr h₈ ↦ absurd (cc h₈)
              ]
            ]
          ]
        ]
      ]
    ]
  ]

  -- The switch over capabilities allows exactly the calls that the constraints permit: the capability
  -- is one of the seven that the build knows, and the parameters meet its constraints.
  pub dispatch_iff : (k : String) → ((dispatch lib k c p).allowed ≡ true) ↔ Permits lib k c p
  dispatch_iff k = (dispatch_sound k, dispatch_complete k)
