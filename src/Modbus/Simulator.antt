-- ===== src/Modbus/Simulator.antt =====
-- internal/simulator/simulator.go: the register bank and the handlers of the requests. Each step of
-- the drift holds the mutex once per register that it sets, and so does a read.
pub mod Reads
use fieldlink.Prelude.{
  ℕ, zero, suc, ◌+◌, ◌≤◌, leb, Bool, true, false, List, [], ◌∷◌, take, drop, replicate, Option,
  none, some, if◌then◌else◌,
}
use fieldlink.Prelude.Results.{Result, ok, err}
use fieldlink.Modbus.Decode.{encode_float32}

abbrev pub addr_boiler_temp : ℕ
addr_boiler_temp = 20

abbrev pub addr_line_speed : ℕ
addr_line_speed = 32

abbrev pub addr_fault_code : ℕ
addr_fault_code = 40

abbrev pub bank_size : ℕ
bank_size = 64

pub data RequestError : Type 0 where
  illegal_function illegal_data_address : RequestError

-- s.bank[addr] = v, for an address inside the bank
unfoldable pub set_uint16 : ℕ → ℕ → List ℕ → List ℕ
set_uint16 addr v [] = []
set_uint16 zero v (w ∷ bank) = v ∷ bank
set_uint16 (suc addr) v (w ∷ bank) = w ∷ set_uint16 addr v bank

-- setBoilerTemp, on the bits of float32(celsius/0.1)
unfoldable pub set_boiler_temp : ℕ → List ℕ → List ℕ
set_boiler_temp bits bank =
    let words = encode_float32 bits true in
    set_uint16 (addr_boiler_temp + 1) words.1 (set_uint16 addr_boiler_temp words.0 bank)

-- What Start and each tick of the drift set: the temperature, the speed and the fault code.
unfoldable pub drift_step : (bits speed fault : ℕ) → List ℕ → List ℕ
drift_step bits speed fault bank =
    set_uint16 addr_fault_code fault (set_uint16 addr_line_speed speed (set_boiler_temp bits bank))

-- readBank
unfoldable pub read_bank : ℕ → ℕ → List ℕ → Result RequestError (List ℕ)
read_bank addr quantity bank =
    if leb (addr + quantity) bank_size
    then ok (take quantity (drop addr bank))
    else err illegal_data_address

-- The handlers; coils and discrete inputs are all false.
unfoldable pub handle_coils : Bool → ℕ → Result RequestError (List Bool)
handle_coils is_write quantity =
    if is_write then err illegal_function else ok (replicate quantity false)

unfoldable pub handle_discrete_inputs : ℕ → Result RequestError (List Bool)
handle_discrete_inputs quantity = ok (replicate quantity false)

unfoldable pub handle_holding_registers : Bool → ℕ → ℕ → List ℕ → Result RequestError (List ℕ)
handle_holding_registers is_write addr quantity bank =
    if is_write then err illegal_function else read_bank addr quantity bank

unfoldable pub handle_input_registers : ℕ → ℕ → List ℕ → Result RequestError (List ℕ)
handle_input_registers addr quantity bank = read_bank addr quantity bank
