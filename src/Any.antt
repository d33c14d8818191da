-- ===== src/Any.antt =====
-- Go's `any`, as decoded from a grant document (nil, bool, float64, string, []any, map[string]any)
-- or put in a call's parameters (string, bool, int, int64, []string), and `map[string]any`.
use fieldlink.Prelude.{ℕ, ℤ, Bool, String, List, [], ◌∷◌, Option, none, some, ◌==◌, if◌then◌else◌}

mutual
  pub data Any : Type 0 where
    nil : Any
    bool : Bool → Any
    int : ℤ → Any
    int64 : ℤ → Any
    -- an IEEE-754 bit pattern
    float64 : ℕ → Any
    string : String → Any
    strings : List String → Any
    array : Items → Any
    object : Fields → Any

  -- []any
  pub data Items : Type 0 where
    end : Items
    item : Any → Items → Items

  -- map[string]any, below another value
  pub data Fields : Type 0 where
    done : Fields
    field : String → Any → Fields → Fields

abbrev pub Map : Type 0
Map = List (String × Any)

abbrev pub items : Items → List Any
items end = []
items (item v vs) = v ∷ items vs

abbrev pub array_of : List Any → Items
array_of [] = end
array_of (v ∷ vs) = item v (array_of vs)

-- m[key]: nil where the key is missing
abbrev pub index : Map → String → Any
index [] key = nil
index ((k, v) ∷ m) key = if k == key then v else index m key

-- The type assertions `v.(string)`, `v.(bool)`, `v.([]any)` and `v.([]string)`.
abbrev pub as_string : Any → Option String
as_string (string s) = some s
as_string _ = none

abbrev pub as_bool : Any → Option Bool
as_bool (bool b) = some b
as_bool _ = none

abbrev pub as_array : Any → Option (List Any)
as_array (array vs) = some (items vs)
as_array _ = none

abbrev pub as_strings : Any → Option (List String)
as_strings (strings ss) = some ss
as_strings _ = none

-- `s, _ := v.(string)`
abbrev pub string_or_empty : Any → String
string_or_empty (string s) = s
string_or_empty _ = ""

abbrev pub bool_or_false : Any → Bool
bool_or_false (bool b) = b
bool_or_false _ = Bool.false

abbrev pub strings_or_nil : Any → List String
strings_or_nil (strings ss) = ss
strings_or_nil _ = []
