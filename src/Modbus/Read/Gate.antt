-- ===== src/Modbus/Read/Gate.antt =====
-- What read_modbus lets through to a device, and what becomes of a connection that failed.
use fieldlink.Prelude.{
  String, true, ◌||◌, List, [], ◌∷◌, ◌++◌, Option, none, some, ◌==◌, ◌≡◌, ◌⊎◌, inl, inr, arith,
  Option-cases, Bool-cases, eq_refl,
}
use fieldlink.Config.{lookup, Device, Register}
use fieldlink.Policy.{Decision, Engine, Context}
use fieldlink.Policy.GrantEngine.{Deps, World, GrantEngine, grant_engine}
use fieldlink.Policy.GrantEngine.Soundness.{Authorized, authorize_iff}
use fieldlink.Modbus.Read.{
  Clients, ReadModbusInput, Executor, read, read_and_report, read_modbus, read_params, client_of,
  client_for, conn_key, set_conn, transact, reset, dial,
}

module _ {S : Type 0} (lib : Clients) (eng : Engine S) (ctx : Context) (q : ReadModbusInput)
    (e : Executor lib S) where
  -- What the policy engine answers to the call.
  abbrev pub answer : Decision × S
  answer = eng.authorize e.policy ctx "device.modbus.read" (read_params q)

  -- read_modbus sets out to read nothing but the register that it is asked for, and only where the
  -- policy engine allows it.
  pub read_modbus-reads :
      ((read_modbus lib eng ctx q e).1.reads ≡ e.reads)
      ⊎ (((read_modbus lib eng ctx q e).1.reads ≡ e.reads ++ q ∷ []) × (answer.0.allowed ≡ true))
  unfolding read_modbus read_and_report
  read_modbus-reads = elim (Bool-cases (q.device == "" || q.register == "")) [
    | inl a ↦ inl (rw (a, read_modbus))
    | inr a ↦ elim (Option-cases (lookup e.devices q.device)) [
      | inl b ↦ inl (rw (a, b, read_modbus))
      | inr (dev, b) ↦ elim (Option-cases (lookup dev.registers q.register)) [
        | inl c ↦ inl (rw (a, b, c, read_modbus))
        | inr (reg, c) ↦ elim (Bool-cases answer.0.allowed) [
          | inr d ↦ inl (rw (a, b, c, d, read_modbus))
          | inl d ↦ inr (rw (a, b, c, d, read_modbus), d)
        ]
      ]
    ]
  ]

-- Behind the grant engine a register is read only where a verified grant on disk permits the device
-- and the register.
pub read_modbus-Authorized :
    (lib : Clients) (deps : Deps) (w : World) (ctx : Context) (q : ReadModbusInput)
    (e : Executor lib GrantEngine)
    → ((read_modbus lib (grant_engine deps w) ctx q e).1.reads ≡ e.reads)
      ⊎ (((read_modbus lib (grant_engine deps w) ctx q e).1.reads ≡ e.reads ++ q ∷ [])
          × Authorized deps w e.policy "device.modbus.read" (read_params q))
unfolding grant_engine
read_modbus-Authorized lib deps w ctx q e =
    elim (read_modbus-reads lib (grant_engine deps w) ctx q e) [
      | inl k ↦ inl k
      | inr (k, p) ↦
          inr (k, (authorize_iff deps w e.policy ctx "device.modbus.read" (read_params q)).0 p)
    ]

lookup-set_conn :
    {C : Type 0} (conns : List (String × C)) (key : String) (c : C)
    → lookup (set_conn conns key c) key ≡ some c
lookup-set_conn [] key c = ground (arith, eq_refl key)
lookup-set_conn ((k, d) ∷ conns) key c = elim (Bool-cases (k == key)) [
  | inl h ↦ ground (arith, h)
  | inr h ↦ ground (arith, h, lookup-set_conn conns key c)
]

-- After a transaction that fails on the wire the connection is dropped, and the next read of the
-- device dials anew.
pub client_for-read :
    (lib : Clients) (dev : Device) (reg : Register) (conns : List (String × Option lib.Client))
    (c : lib.Client)
    → client_for lib conns dev ≡ some c
    → transact lib c dev reg ≡ reset
    → ((read lib dev reg conns).0 ≡ none)
      × (client_for lib (read lib dev reg conns).1 dev ≡ dial lib dev)
unfolding read client_for
client_for-read lib dev reg conns c h k =
    let dropped : client_of (set_conn conns (conn_key dev) none) (conn_key dev) ≡ none =
      rw (lookup-set_conn conns (conn_key dev) none, client_of) in
    let after : (read lib dev reg conns).1 ≡ set_conn conns (conn_key dev) none = rw (h, k, read) in
    (rw (h, k, read), rw after (rw (dropped, client_for)))
