-- ===== src/Policy/Constraints.antt =====
-- internal/policy/grant_engine.go: how a call's parameters are matched with a grant's constraints.
-- doublestar, the address functions of net, filepath.ToSlash and the conversion of a float64 to an
-- int64 are parameters.
pub mod Matching
use fieldlink.Prelude.{
  ℕ, ℤ, ltb_ℤ, String, Bytes, Bool, true, false, not, ◌&&◌, ◌||◌, List, [], ◌∷◌, Option, none, some,
  any, all, ◌==◌, starts_with, if◌then◌else◌,
}
use fieldlink.Any.{
  Any, Map, index, as_array, as_string, as_bool, bool, int, int64, float64, string_or_empty,
  bool_or_false, strings_or_nil,
}
use fieldlink.Policy.{Decision, allow, deny}

-- A net.IP is its bytes, and a *net.IPNet an address and a mask. A pattern that doublestar refuses
-- does not match.
pub record Matchers : Type 0 where
  pub glob : String → String → Bool
  pub to_slash : String → String
  pub parse_ip : String → Option Bytes
  pub parse_cidr : String → Option (Bytes × Bytes)
  pub net_contains : Bytes × Bytes → Bytes → Bool
  pub int64_of_float : ℕ → ℤ

-- The loops over a constraint: an element that is no string is passed over.
abbrev pub test_string : (String → Bool) → Any → Bool
test_string p v = elim (as_string v) [ none ↦ false | some s ↦ p s ]

unfoldable pub any_string : (String → Bool) → Any → Bool
any_string p v = elim (as_array v) [ none ↦ false | some vs ↦ any (test_string p) vs ]

-- anyPrefixMatches
unfoldable pub any_prefix_matches : Any → String → Bool
unfolding any_string
any_prefix_matches list s = any_string (λ prefix. starts_with s prefix) list

-- stringInList
unfoldable pub string_in_list : Any → String → Bool
unfolding any_string
string_in_list list s = if s == "" then false else any_string (λ item. item == s) list

-- pathMatchesAny
unfoldable pub path_matches_any : Matchers → Any → String → Bool
unfolding any_string
path_matches_any lib patterns path =
    if path == ""
    then false
    else any_string (λ pattern. lib.glob pattern (lib.to_slash path)) patterns

abbrev in_cidr : Matchers → Bytes → String → Bool
in_cidr lib ip cidr = elim (lib.parse_cidr cidr) [ none ↦ false | some n ↦ lib.net_contains n ip ]

-- ipMatchesAnyCIDR
unfoldable pub ip_matches_any_cidr : Matchers → Any → Bytes → Bool
unfolding any_string
ip_matches_any_cidr lib cidrs ip = any_string (in_cidr lib ip) cidrs

-- toInt64
unfoldable pub to_int64 : Matchers → Any → Option ℤ
to_int64 lib (float64 bits) = some (lib.int64_of_float bits)
to_int64 lib (int n) = some n
to_int64 lib (int64 n) = some n
to_int64 lib _ = none

-- `ceiling, ok := …; requested, ok := …; ok && requested > ceiling`
unfoldable pub exceeds : Matchers → Any → Any → Bool
unfolding to_int64
exceeds lib ceiling requested = elim (to_int64 lib ceiling) [
  | none ↦ false
  | some c ↦ elim (to_int64 lib requested) [ none ↦ false | some r ↦ ltb_ℤ c r ]
]

-- authorizeFSRead
unfoldable pub authorize_fs_read : Matchers → Map → Map → Decision
authorize_fs_read lib constraints params =
    if not
      (path_matches_any lib (index constraints "paths") (string_or_empty (index params "path")))
    then deny "path is not permitted"
    else if exceeds lib (index constraints "max_bytes") (index params "max_bytes")
    then deny "max_bytes exceeds what is permitted"
    else allow

-- `recurseAllowed, ok := constraints["recursive"].(bool); ok && !recurseAllowed`
abbrev pub forbids : Any → Bool
forbids (bool b) = not b
forbids _ = false

-- authorizeFSList
unfoldable pub authorize_fs_list : Matchers → Map → Map → Decision
authorize_fs_list lib constraints params =
    if not
      (path_matches_any lib (index constraints "paths") (string_or_empty (index params "path")))
    then deny "path is not permitted"
    else if forbids (index constraints "recursive") && bool_or_false (index params "recursive")
    then deny "recursive listing is not permitted"
    else allow

-- authorizeModbusRead
unfoldable pub authorize_modbus_read : Map → Map → Decision
authorize_modbus_read constraints params =
    if not (string_in_list (index constraints "devices") (string_or_empty (index params "device")))
    then deny "device is not permitted"
    else if not
        (string_in_list (index constraints "registers") (string_or_empty (index params "register")))
    then deny "register is not permitted"
    else allow

-- authorizeSOAPCall
unfoldable pub authorize_soap_call : Map → Map → Decision
authorize_soap_call constraints params =
    if not
      (string_in_list (index constraints "endpoints") (string_or_empty (index params "endpoint")))
    then deny "endpoint is not permitted"
    else if not (
        string_in_list (index constraints "operations")
          (string_or_empty (index params "operation")))
    then deny "operation is not permitted"
    else allow

abbrev pub address_matches : Matchers → Any → Option Bytes → Bool
address_matches lib cidrs none = false
address_matches lib cidrs (some ip) = ip_matches_any_cidr lib cidrs ip

-- authorizeHTTPRequest
unfoldable pub authorize_http_request : Matchers → Map → Map → Decision
authorize_http_request lib constraints params =
    if not (
      address_matches lib (index constraints "cidrs")
        (lib.parse_ip (string_or_empty (index params "resolved_ip"))))
    then deny "this address is not permitted"
    else if not
        (string_in_list (index constraints "methods") (string_or_empty (index params "method")))
    then deny "method is not permitted"
    else allow

-- authorizeDBQuery
unfoldable pub authorize_db_query : Matchers → Map → Map → Decision
authorize_db_query lib constraints params =
    if not (
      string_in_list (index constraints "datasources")
        (string_or_empty (index params "datasource")))
    then deny "datasource is not permitted"
    else if exceeds lib (index constraints "max_rows") (index params "max_rows")
    then deny "max_rows exceeds what is permitted"
    else allow

-- authorizeOPCUARead
unfoldable pub authorize_opcua_read : Map → Map → Decision
authorize_opcua_read constraints params =
    if not
      (string_in_list (index constraints "endpoints") (string_or_empty (index params "endpoint")))
    then deny "endpoint is not permitted"
    else if not (
        all (any_prefix_matches (index constraints "node_prefixes"))
          (strings_or_nil (index params "node_ids")))
    then deny "a node id is not permitted"
    else allow
