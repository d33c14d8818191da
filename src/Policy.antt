-- ===== src/Policy.antt =====
-- internal/policy/policy.go: the interface of the trust boundary, the caller's identity in a
-- context, and the engine that allows everything.
pub mod Constraints
pub mod GrantEngine
use fieldlink.Prelude.{String, Bool, true, List, Option, none, some, ◌==◌, if◌then◌else◌}
use fieldlink.Any.{Map}

pub record Decision : Type 0 where
  pub allowed : Bool
  pub reason : String

abbrev pub allow : Decision
allow = record { allowed = true; reason = "" }

abbrev pub deny : String → Decision
deny reason = record { allowed = Bool.false; reason = reason }

-- A context.Context, of which the package reads the caller's identity alone.
pub record Context : Type 0 where
  pub caller : Option String

abbrev pub background : Context
background = record { caller = none }

-- WithCallerID
unfoldable pub with_caller_id : Context → String → Context
with_caller_id ctx id = if id == "" then ctx else record { caller = some id }

-- CallerIDFromContext
unfoldable pub caller_id_from_context : Context → String
caller_id_from_context ctx = elim ctx.caller [ none ↦ "" | some id ↦ id ]

-- Engine, over the engine's state `S`. In GrantedValues `none` is nil: unrestricted.
pub record Engine (S : Type 0) : Type 0 where
  pub authorize : S → Context → String → Map → Decision × S
  pub granted : S → String → Bool × S
  pub granted_values : S → String → String → Option (List String) × S

-- AllowAll
unfoldable pub allow_all : Engine (Unit {0})
allow_all = record {
  authorize = λ s ctx capability params.
      (record { allowed = true; reason = "AllowAll stub (Week 2 replaces this)" }, s);
  granted = λ s capability. (true, s);
  granted_values = λ s capability key. (none, s);
}
