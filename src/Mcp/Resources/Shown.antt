-- ===== src/Mcp/Resources/Shown.antt =====
-- fieldlink://devices and its registers, against the calls that read them.
use fieldlink.Prelude.{String, Bytes, List, Option, none, some, ◌≡◌, Some}
use fieldlink.Config.{Config, Register}
use fieldlink.Policy.GrantEngine.{Deps, World, GrantEngine, grant_engine, granted_values}
use fieldlink.Mcp.Resources.{DeviceSummary, devices_resource, registers_resource}

-- A device of this name is among the summaries; a register of this name is in the answer.
abbrev pub HasDevice : String → List DeviceSummary → Type 0
HasDevice name ds = Some (λ d. d.name ≡ name) ds

abbrev HasRow : String → List (String × Register) → Type 0
HasRow name rs = Some (λ r. r.0 ≡ name) rs

abbrev pub HasRegister : String → Option (List (String × Register)) → Type 0
HasRegister name o = elim o [ none ↦ ⊥ | some rs ↦ HasRow name rs ]

-- A sort leaves out none of the names.
abbrev pub KeepsNames : (List String → List String) → Type 0
KeepsNames sort =
    (names : List String) (name : String)
    → Some (λ n. n ≡ name) names
    → Some (λ n. n ≡ name) (sort names)

module _ (deps : Deps) (cfg : Config) (sort : List String → List String)
    (string_of : Bytes → String) where
  -- The resources of one server: the granted devices are those of the start, in the world `w₀`; the
  -- granted registers are those of the world `w` of the request.
  module _ (w₀ : World) (e₀ : GrantEngine) (w : World) (e : GrantEngine) where
    abbrev pub at_start : Option (List String)
    at_start = some (granted_values deps w₀ e₀ "device.modbus.read" "devices").0

    abbrev pub devices_shown : List DeviceSummary
    devices_shown = devices_resource sort cfg at_start

    abbrev pub registers_shown : Bytes → Option (List (String × Register))
    registers_shown uri = (registers_resource string_of (grant_engine deps w) cfg at_start uri e).0
