-- ===== src/Mcp/Resources/Consistency.antt =====
-- The resources show what the calls may read.
use fieldlink.Prelude.{
  String, Bool, false, ◌&&◌, List, [], ◌∷◌, Option, none, some, any, ◌==◌, ◌≡◌, ◌≢◌, refl, inl, inr,
  arith, eq_iff, Bool-cases,
}
use fieldlink.Prelude.Results.{Result, ok, err}
use fieldlink.Any.{
  Any, Map, index, items, nil, bool, int, int64, float64, string, strings, array, object,
}
use fieldlink.Grant.{Grant, find}
use fieldlink.Policy.{Context, Decision, deny}
use fieldlink.Policy.Constraints.{
  Matchers, test_string, any_string, string_in_list, authorize_modbus_read,
}
use fieldlink.Policy.GrantEngine.{
  Deps, World, GrantEngine, load, not_permitted, dispatch, decide, authorize_inner, authorize,
  granted_values, keep_strings, string_values,
}
use fieldlink.Modbus.Read.{ReadModbusInput, read_params}
use fieldlink.Mcp.Resources.{value_allowed}

any-keep_strings :
    (p : String → Bool) (vs : List Any) → any (test_string p) vs ≡ any p (keep_strings vs)
any-keep_strings p [] = refl
any-keep_strings p (v ∷ vs) = ground (arith, any-keep_strings p vs)

named : (s : String) → s ≢ "" → (s == "") ≡ false
named s h = elim (Bool-cases (s == "")) [ inl k ↦ absurd (h ((eq_iff s "").0 k)) | inr k ↦ k ]

-- The test of a call and the filter of the resources agree on a constraint.
string_in_list-value_allowed :
    (v : Any) (s : String) → s ≢ "" → string_in_list v s ≡ value_allowed (some (string_values v)) s
unfolding string_in_list any_string value_allowed
string_in_list-value_allowed (array vs) s h =
    rw (named s h, string_in_list) (any-keep_strings (λ item. item == s) (items vs))
string_in_list-value_allowed nil s h = rw (named s h, string_in_list)
string_in_list-value_allowed (bool b) s h = rw (named s h, string_in_list)
string_in_list-value_allowed (int n) s h = rw (named s h, string_in_list)
string_in_list-value_allowed (int64 n) s h = rw (named s h, string_in_list)
string_in_list-value_allowed (float64 n) s h = rw (named s h, string_in_list)
string_in_list-value_allowed (string t) s h = rw (named s h, string_in_list)
string_in_list-value_allowed (strings ts) s h = rw (named s h, string_in_list)
string_in_list-value_allowed (object fs) s h = rw (named s h, string_in_list)

-- The values that GrantedValues takes from a capability's constraints.
abbrev values_in : Option Map → String → List String
values_in o key = elim o [ none ↦ [] | some constraints ↦ string_values (index constraints key) ]

abbrev decide_in : Matchers → Option Map → Map → Decision
decide_in lib o params = elim o [
  | none ↦ deny not_permitted
  | some constraints ↦ dispatch lib "device.modbus.read" constraints params
]

decide_in-values_in :
    (lib : Matchers) (o : Option Map) (q : ReadModbusInput)
    → q.device ≢ ""
    → q.register ≢ ""
    → (decide_in lib o (read_params q)).allowed ≡ (
        value_allowed (some (values_in o "devices")) q.device
        && value_allowed (some (values_in o "registers")) q.register)
unfolding dispatch authorize_modbus_read value_allowed
decide_in-values_in lib none q device register = refl
decide_in-values_in lib (some c) q device register =
    let d = string_in_list-value_allowed (index c "devices") q.device device in
    let r = string_in_list-value_allowed (index c "registers") q.register register in
    ground (arith, d, r)

-- What GrantedValues answers to what load returns.
abbrev values_of : Result String Grant → String → List String
values_of r key = elim r [ err _ ↦ [] | ok g ↦ values_in (find g "device.modbus.read") key ]

decide-values_of :
    (lib : Matchers) (r : Result String Grant) (q : ReadModbusInput)
    → q.device ≢ ""
    → q.register ≢ ""
    → (decide lib r "device.modbus.read" (read_params q)).1.allowed ≡ (
        value_allowed (some (values_of r "devices")) q.device
        && value_allowed (some (values_of r "registers")) q.register)
unfolding decide value_allowed
decide-values_of lib (err x) q device register = refl
decide-values_of lib (ok g) q device register =
    decide_in-values_in lib (find g "device.modbus.read") q device register

module _ (deps : Deps) (w : World) (e : GrantEngine) where
  abbrev pub shown : String → String → Bool
  shown key v = value_allowed (some (granted_values deps w e "device.modbus.read" key).0) v

  -- A device and a register, both with a name, are shown by the resources exactly when a call that reads
  -- them is allowed.
  pub authorize-shown :
      (ctx : Context) (q : ReadModbusInput)
      → q.device ≢ ""
      → q.register ≢ ""
      → (authorize deps w e ctx "device.modbus.read" (read_params q)).0.allowed
        ≡ (shown "devices" q.device && shown "registers" q.register)
  unfolding authorize authorize_inner decide granted_values dispatch authorize_modbus_read
  authorize-shown ctx q device register =
      decide-values_of deps.matchers (load deps w e).0 q device register
