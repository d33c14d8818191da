-- ===== src/Modbus/Read.antt =====
-- internal/exec/device/modbus/executor.go: the tool read_modbus. The Modbus client is a parameter,
-- and a device's mutex makes its transaction one step.
pub mod Gate
use fieldlink.Prelude.{
  ℕ, ℤ, pos, ltb_ℤ, eq_ℤ, String, Bool, true, false, not, ◌||◌, List, [], ◌∷◌, ◌++◌, Option, none,
  some, ◌==◌, concat, ◌*◌, ◌^◌, if◌then◌else◌,
}
use fieldlink.Prelude.Results.{Result, ok, err}
use fieldlink.Any.{Map, string}
use fieldlink.Config.{Device, Register, lookup}
use fieldlink.Policy.{Engine, Context}
use fieldlink.Modbus.Decode.{Floats, word_count, decode_numeric, in_range}

pub data RegType : Type 0 where
  holding_register input_register : RegType

-- What the client offers: NewClient with Open, SetUnitId, and the reads; and the time of a read.
pub record Clients : Type 1 where
  pub Client : Type 0
  pub connect : String → ℤ → Option Client
  pub set_unit_id : Client → ℕ → Bool
  pub read_coil : Client → ℕ → Option Bool
  pub read_discrete_input : Client → ℕ → Option Bool
  pub read_registers : Client → ℕ → ℕ → RegType → Option (List ℕ)
  pub now : String
  pub floats : Floats

-- The `any` of a value: a bool or the bits of a float64.
pub data Reading : Type 0 where
  bit : Bool → Reading
  number : ℕ → Reading

pub record ReadModbusInput : Type 0 where
  pub device : String
  pub register : String

pub record ReadModbusOutput : Type 0 where
  pub device : String
  pub register : String
  pub value : Reading
  pub unit : String
  pub raw : List ℕ
  pub quality : String
  pub read_at : String

-- Executor, with the state of its policy engine, and which registers it has set out to read.
pub record Executor (lib : Clients) (S : Type 0) : Type 0 where
  pub policy : S
  pub devices : List (String × Device)
  pub conns : List (String × Option lib.Client)
  pub reads : List ReadModbusInput

-- c.conns[key] = c
abbrev pub set_conn : {C : Type 0} → List (String × C) → String → C → List (String × C)
set_conn [] key c = (key, c) ∷ []
set_conn ((k, d) ∷ conns) key c =
    let rest = set_conn conns key c in if k == key then (k, c) ∷ conns else (k, d) ∷ rest

-- The key of connFor, where a new entry holds no client.
unfoldable pub conn_key : Device → String
conn_key dev = concat dev.protocol (concat "://" dev.address)

abbrev pub client_of : {C : Type 0} → List (String × Option C) → String → Option C
client_of conns key = elim (lookup conns key) [ none ↦ none | some c ↦ c ]

-- dial
unfoldable pub dial : (lib : Clients) → Device → Option lib.Client
dial lib dev =
    if not (dev.protocol == "modbus-tcp")
    then none
    else lib.connect (concat "tcp://" dev.address)
        (if ltb_ℤ (pos 0) dev.timeout then dev.timeout else pos (2 * 10 ^ 9))

-- How a transaction ends: with a value, with an error that leaves the connection, or with one after
-- which it is reset.
pub data Transaction : Type 0 where
  done : Reading → List ℕ → Transaction
  refused : Transaction
  reset : Transaction

abbrev bit_or_reset : Option Bool → Transaction
bit_or_reset none = reset
bit_or_reset (some v) = done (bit v) []

-- read, for a register of type bool.
unfoldable pub read_bit : (lib : Clients) → lib.Client → Register → Transaction
read_bit lib c reg =
    if eq_ℤ reg.fc (pos 1)
    then bit_or_reset (lib.read_coil c reg.address)
    else if eq_ℤ reg.fc (pos 2)
    then bit_or_reset (lib.read_discrete_input c reg.address)
    else refused

unfoldable pub reg_type : ℤ → Option RegType
reg_type fc =
    if eq_ℤ fc (pos 3)
    then some holding_register
    else if eq_ℤ fc (pos 4)
    then some input_register
    else none

-- read, for a numeric register.
unfoldable pub read_number : (lib : Clients) → lib.Client → Register → Transaction
read_number lib c reg = elim (word_count reg.type_name) [
  | none ↦ refused
  | some words ↦ elim (reg_type reg.fc) [
    | none ↦ refused
    | some t ↦ elim (lib.read_registers c reg.address words t) [
      | none ↦ reset
      | some raw ↦
          elim (decode_numeric lib.floats reg.type_name raw (reg.word_order == "swapped")
            reg.scale) [ err _ ↦ refused | ok v ↦ done (number v) raw ]
    ]
  ]
]

-- read, with the client.
unfoldable pub transact : (lib : Clients) → lib.Client → Device → Register → Transaction
transact lib c dev reg =
    if not (lib.set_unit_id c dev.unit_id)
    then reset
    else if reg.type_name == "bool"
    then read_bit lib c reg
    else read_number lib c reg

-- The client that read uses: the kept one, or a new one.
unfoldable pub client_for :
    (lib : Clients) → List (String × Option lib.Client) → Device → Option lib.Client
client_for lib conns dev = elim (client_of conns (conn_key dev)) [
  | some c ↦ some c
  | none ↦ dial lib dev
]

-- read: the value with the raw words, and the connections after it.
unfoldable pub read :
    (lib : Clients)
    → Device
    → Register
    → List (String × Option lib.Client)
    → Option (Reading × List ℕ) × List (String × Option lib.Client)
read lib dev reg conns = elim (client_for lib conns dev) [
  | none ↦ (none, set_conn conns (conn_key dev) none)
  | some c ↦ elim (transact lib c dev reg) [
    | done v raw ↦ (some (v, raw), set_conn conns (conn_key dev) (some c))
    | refused ↦ (none, set_conn conns (conn_key dev) (some c))
    | reset ↦ (none, set_conn conns (conn_key dev) none)
  ]
]

-- denied
abbrev pub denied_read : String → String
denied_read reason = concat "Denied: " reason

abbrev pub read_params : ReadModbusInput → Map
read_params q = ("device", string q.device) ∷ ("register", string q.register) ∷ []

abbrev pub quality_of : Floats → Reading → List ℕ → String
quality_of lib (bit v) range = "good"
quality_of lib (number v) range = if not (in_range lib v range) then "out_of_range" else "good"

-- ReadModbus, once the call is authorized.
unfoldable pub read_and_report :
    {S : Type 0} (lib : Clients)
    → ReadModbusInput
    → Device
    → Register
    → Executor lib S
    → Result String ReadModbusOutput × Executor lib S
read_and_report lib q dev reg e =
    let (answer, conns) = read lib dev reg e.conns in
    let e' = record e { conns = conns; reads = e.reads ++ q ∷ [] } in
    (
      elim answer [
        | none ↦ err (denied_read "device read failed")
        | some r ↦ ok (record {
          device = q.device;
          register = q.register;
          value = r.0;
          unit = reg.unit;
          raw = r.1;
          quality = quality_of lib.floats r.0 reg.range;
          read_at = lib.now;
        })
      ],
      e',
    )

-- ReadModbus
unfoldable pub read_modbus :
    {S : Type 0} (lib : Clients)
    → Engine S
    → Context
    → ReadModbusInput
    → Executor lib S
    → Result String ReadModbusOutput × Executor lib S
read_modbus lib eng ctx q e =
    if q.device == "" || q.register == ""
    then (err (denied_read "device and register are required"), e)
    else elim (lookup e.devices q.device) [
      | none ↦ (err (denied_read "device is not configured"), e)
      | some dev ↦ elim (lookup dev.registers q.register) [
        | none ↦ (err (denied_read "register is not defined for this device"), e)
        | some reg ↦
            let (decision, policy) =
              eng.authorize e.policy ctx "device.modbus.read" (read_params q) in
            let e' = record e { policy = policy } in
            if not decision.allowed
            then (err (denied_read decision.reason), e')
            else read_and_report lib q dev reg e'
      ]
    ]
