-- ===== src/Cli/Serve/Loopback.antt =====
-- What the settings alone can reach: without the flag --allow-remote, this host.
use fieldlink.Prelude.{
  String, Bool, true, false, some, ◌==◌, ◌≡◌, sym, ap, ◌∙◌, inl, inr, Bool-cases,
}
use fieldlink.Prelude.Results.{ok, Result-cases}
use fieldlink.Config.{Config}
use fieldlink.Cli.Serve.{Environment, has_transport, local_issuer_of, http_options}
use fieldlink.Mcp.Transport.{HttpOptions, Services, Server, is_loopback_host, run_http}
use fieldlink.Mcp.Transport.Startup.{run_http_started}

http_options-flag :
    (env : Environment) (cfg : Config) (allow_remote : Bool) (opts : HttpOptions)
    → http_options env cfg allow_remote ≡ ok (some opts)
    → (opts.allow_remote ≡ allow_remote) × (opts.bind ≡ cfg.server.http.bind)
unfolding http_options
http_options-flag env cfg allow_remote opts h = elim (Bool-cases (has_transport cfg)) [
  | inr a ↦ absurd (cc (rw (a, http_options) at h))
  | inl a ↦ elim (Bool-cases (cfg.server.transport == "http")) [
    | inr b ↦ absurd (cc (rw (a, b, http_options) at h))
    | inl b ↦ elim (Result-cases (local_issuer_of env cfg)) [
      | inr (x, c) ↦ absurd (cc (rw (a, b, c, http_options) at h))
      | inl (issuer, c) ↦ let run = rw (a, b, c, http_options) at h in (cc run, cc run)
    ]
  ]
]

-- Without the flag --allow-remote, a server that starts listens on the configured address, and this is
-- a loopback address, whatever else the settings say.
pub http_options-run_http :
    {K : Type 0} (lib : Services K) (env : Environment) (cfg : Config) (opts : HttpOptions)
    (server : Server)
    → http_options env cfg false ≡ ok (some opts)
    → run_http lib opts ≡ ok server
    → (server.bind ≡ cfg.server.http.bind)
      × (host : String) × (lib.host_of cfg.server.http.bind ≡ some host)
      × (is_loopback_host lib host ≡ true)
http_options-run_http lib env cfg opts server h k =
    let (flag, bind) = http_options-flag env cfg false opts h in
    let (p, chosen, origins, listens) = run_http_started lib opts server k in
    (
      listens ∙ bind,
      p.host,
      ap lib.host_of (sym bind) ∙ p.bound,
      elim p.local_or_remote [ inl is_local ↦ is_local | inr remote ↦ absurd (cc (flag, remote)) ],
    )
