-- ===== src/Config/Defaults.antt =====
-- What a configuration that Load returns can be relied on for.
use fieldlink.Prelude.{
  String, Bytes, ◌&&◌, some, ◌==◌, ◌≡◌, ◌≢◌, refl, subst, inl, inr, arith, eq_iff, Bool-cases,
  Option-cases,
}
use fieldlink.Prelude.Results.{ok}
use fieldlink.Prelude.Disk.{Disk, read_file}
use fieldlink.Config.{Config, ServerConfig, Formats, default_transport, default_bind, fill_in, load}

-- The server's settings are complete.
pub record IsServable (s : ServerConfig) : Type 0 where
  pub transport : s.transport ≢ ""
  pub bind : s.transport ≡ "http" → s.http.bind ≢ ""

default_bind-IsServable : (s : ServerConfig) → s.transport ≢ "" → IsServable (default_bind s)
unfolding default_bind
default_bind-IsServable s h = elim (Bool-cases (s.transport == "http" && s.http.bind == "")) [
  | inl e ↦ rw (e, default_bind) (record { transport = h; bind = λ _. λ k. cc (k) })
  | inr e ↦
      rw (e, default_bind)
        (record {
          transport = h;
          bind = λ a b. ground (arith, e, eq_iff s.transport "http", eq_iff s.http.bind "", a, b);
        })
]

default_transport_some : (s : ServerConfig) → (default_transport s).transport ≢ ""
unfolding default_transport
default_transport_some s = elim (Bool-cases (s.transport == "")) [
  | inl e ↦ rw (e, default_transport) (λ k. cc (k))
  | inr e ↦ rw (e, default_transport) (λ k. ground (arith, e, eq_iff s.transport "", k))
]

-- What holds of a configuration `c` that is filled in from `cfg`.
pub record IsFilled (cfg c : Config) : Type 0 where
  pub named : c.agent_id ≢ ""
  pub servable : IsServable c.server
  pub grant : c.grant ≡ cfg.grant
  pub audit : c.audit ≡ cfg.audit

fill_in-IsFilled :
    (lib : Formats) (path : String) (cfg c : Config) → fill_in lib path cfg ≡ ok c → IsFilled cfg c
unfolding fill_in
fill_in-IsFilled lib path cfg c h = elim (Bool-cases (cfg.agent_id == "")) [
  | inl e ↦ absurd (ground (arith, e, h))
  | inr e ↦ elim (Option-cases (lib.abs path)) [
    | inl f ↦ absurd (ground (arith, e, f, h))
    | inr (absolute, f) ↦
        let filled : Config = record cfg {
          server = default_bind (default_transport cfg.server);
          config_dir = lib.dir absolute;
        } in
        let same : filled ≡ c = ground (arith, e, f, h) in
        subst (IsFilled cfg) same (record {
          named = λ k. ground (arith, e, eq_iff cfg.agent_id "", k);
          servable =
              default_bind-IsServable (default_transport cfg.server)
                (default_transport_some cfg.server);
          grant = refl;
          audit = refl;
        })
  ]
]

-- A configuration that Load returns names its installation and its transport, and a bind address
-- where it serves HTTP; its grant and audit settings are those of the file.
pub load-IsFilled :
    (lib : Formats) (disk : Disk) (path : String) (text : Bytes) (cfg c : Config)
    → read_file disk path ≡ some text
    → lib.unmarshal_config text ≡ some cfg
    → load lib disk path ≡ ok c
    → IsFilled cfg c
unfolding load
load-IsFilled lib disk path text cfg c f g h =
    fill_in-IsFilled lib path cfg c (rw (f, g, load) at h)
