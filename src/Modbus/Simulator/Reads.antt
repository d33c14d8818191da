-- ===== src/Modbus/Simulator/Reads.antt =====
-- What a client reads from the simulated device.
use fieldlink.Prelude.{
  ℕ, zero, suc, ◌+◌, ◌≤◌, ◌<◌, ◌^◌, List, [], ◌∷◌, length, take, drop, true, false, ◌≡◌, ◌∙◌, ap,
  refl, ◌↔◌, arith,
}
use fieldlink.Prelude.Results.{ok}
use fieldlink.Modbus.Decode.{Floats, encode_float32, decode_numeric}
use fieldlink.Modbus.Decode.RoundTrip.{words, factor, decode_numeric-encode_uint32}
use fieldlink.Modbus.Simulator.{
  bank_size, addr_boiler_temp, addr_line_speed, addr_fault_code, set_uint16, set_boiler_temp,
  drift_step, read_bank, handle_holding_registers,
}

length-set_uint16 : (addr v : ℕ) (bank : List ℕ) → length (set_uint16 addr v bank) ≡ length bank
unfolding set_uint16
length-set_uint16 addr v [] = refl
length-set_uint16 zero v (w ∷ bank) = refl
length-set_uint16 (suc addr) v (w ∷ bank) = ap suc (length-set_uint16 addr v bank)

length-take-drop :
    (n m : ℕ) (bank : List ℕ) → n + m ≤ length bank → length (take m (drop n bank)) ≡ m
length-take-drop zero zero bank h = refl
length-take-drop zero (suc m) [] h = absurd (omega arith)
length-take-drop zero (suc m) (w ∷ bank) h = ap suc (length-take-drop zero m bank (omega arith))
length-take-drop (suc n) m [] h = absurd (omega arith)
length-take-drop (suc n) m (w ∷ bank) h = length-take-drop n m bank (omega arith)

-- A register above those that are read does not matter.
set_above :
    (n m k v : ℕ) (bank : List ℕ)
    → n + m ≤ k
    → take m (drop n (set_uint16 k v bank)) ≡ take m (drop n bank)
unfolding set_uint16
set_above n m k v [] h = refl
set_above zero zero k v (w ∷ bank) h = refl
set_above zero (suc m) zero v (w ∷ bank) h = absurd (omega arith)
set_above zero (suc m) (suc k) v (w ∷ bank) h =
    ap (λ ws. w ∷ ws) (set_above zero m k v bank (omega arith))
set_above (suc n) m zero v (w ∷ bank) h = absurd (omega arith)
set_above (suc n) m (suc k) v (w ∷ bank) h = set_above n m k v bank (omega arith)

-- Two registers that are set are read.
set_two :
    (n a b : ℕ) (bank : List ℕ)
    → n + 2 ≤ length bank
    → take 2 (drop n (set_uint16 (suc n) b (set_uint16 n a bank))) ≡ a ∷ b ∷ []
unfolding set_uint16
set_two n a b [] h = absurd (omega arith)
set_two n a b (w ∷ []) h = absurd (omega arith)
set_two zero a b (w ∷ x ∷ bank) h = refl
set_two (suc n) a b (w ∷ x ∷ bank) h = set_two n a b (x ∷ bank) (omega arith)

-- A read of a bank of 64 registers succeeds exactly inside the bank, and brings as many words as are
-- asked for.
pub read_bank_iff :
    (addr quantity : ℕ) (bank : List ℕ)
    → length bank ≡ bank_size
    → ((ws : List ℕ) × (read_bank addr quantity bank ≡ ok ws) × (length ws ≡ quantity))
      ↔ (addr + quantity ≤ bank_size)
unfolding read_bank
read_bank_iff addr quantity bank h = (
  (λ p. ground (arith, p.1)),
  (λ k. (
    take quantity (drop addr bank),
    ground arith,
    length-take-drop addr quantity bank (omega arith),
  )),
)

-- After each step of the drift a client that reads the two temperature registers, in swapped order,
-- decodes the float whose bits the step wrote, times the scale.
pub decode_numeric-drift_step :
    (lib : Floats) (bits speed fault scale : ℕ) (bank : List ℕ)
    → length bank ≡ bank_size
    → bits < 2 ^ 32
    → (ws : List ℕ) × (handle_holding_registers false addr_boiler_temp 2
          (drift_step bits speed fault bank)
        ≡ ok ws)
      × (decode_numeric lib "float32" ws true scale
          ≡ ok (lib.times (lib.of_float32 bits) (factor lib scale)))
unfolding handle_holding_registers read_bank drift_step set_boiler_temp
decode_numeric-drift_step lib bits speed fault scale bank h k =
    let w = encode_float32 bits true in
    (
      words w,
      ap ok (
          set_above addr_boiler_temp 2 addr_fault_code fault _ (omega arith)
          ∙ (set_above addr_boiler_temp 2 addr_line_speed speed _ (omega arith)
              ∙ set_two addr_boiler_temp w.0 w.1 bank (omega arith))),
      (decode_numeric-encode_uint32 lib bits true scale k).2,
    )
