-- ===== src/Mcp/Transport/Startup.antt =====
-- Which servers start, and what they have passed.
use fieldlink.Prelude.{
  ltb, ◌≤◌, String, Bytes, true, false, List, none, some, all, ◌≡◌, ◌≢◌, refl, subst, ◌∙◌, ◌⊎◌, inl,
  inr, arith, Bool-cases, Option-cases,
}
use fieldlink.Prelude.Results.{ok, Result-cases}
use fieldlink.Mcp.Issuer.{
  LocalIssuer, LocalIssuerOptions, OauthOptions, is_empty, new_local_issuer, verifier_options,
}
use fieldlink.Mcp.Transport.{
  HttpOptions, Services, Verifier, Guard, unguarded, bearer, access_token, Server, is_loopback_host,
  auth_modes, check_options, choose_guard, run_http,
}

module _ {K : Type 0} (lib : Services K) (opts : HttpOptions) where
  -- What the options of a server that starts have passed.
  pub record IsHardened (server : Server) : Type 0 where
    pub one_mode : auth_modes opts ≤ 1
    pub host : String
    pub bound : lib.host_of opts.bind ≡ some host
    pub local_or_remote : (is_loopback_host lib host ≡ true) ⊎ (opts.allow_remote ≡ true)
    pub guarded : (opts.allow_remote ≡ false) ⊎ (server.guard ≢ unguarded)

  -- The verifier and the scopes that the options name: those of the configured provider, or, where none
  -- is configured, those of the local issuer.
  pub data IsVerifier (v : Verifier) (required : List Bytes) : Type 0 where
    of_provider :
        (o : OauthOptions)
        → opts.oauth ≡ some o
        → lib.discover o ≡ some v
        → required ≡ o.required_scopes
        → IsVerifier v required
    of_issuer :
        (l : LocalIssuerOptions) (li : LocalIssuer K)
        → opts.oauth ≡ none
        → opts.local_issuer ≡ some l
        → new_local_issuer lib.issuer_key l ≡ ok li
        → v ≡ lib.static_verifier (verifier_options li) li.key
        → required ≡ l.required_scopes
        → IsVerifier v required

  -- The guards that RunHTTP chooses from.
  pub data IsGuard (g : Guard) : Type 0 where
    nothing : g ≡ unguarded → ltb 0 (auth_modes opts) ≡ false → IsGuard g
    secret :
        g ≡ bearer opts.bearer_token
        → opts.oauth ≡ none
        → opts.local_issuer ≡ none
        → is_empty opts.bearer_token ≡ false
        → IsGuard g
    tokens :
        (v : Verifier) (required : List Bytes)
        → g ≡ access_token v required
        → IsVerifier v required
        → IsGuard g

  choose_guard-IsGuard :
      (g : Guard) (routes : List String) → choose_guard lib opts ≡ ok (g, routes) → IsGuard g
  unfolding choose_guard auth_modes
  choose_guard-IsGuard g routes h = elim (Option-cases opts.oauth) [
    | inr (o, a) ↦ elim (Option-cases (lib.discover o)) [
      | inl b ↦ absurd (cc (rw (a, b, choose_guard) at h))
      | inr (v, b) ↦
          tokens v o.required_scopes (cc (rw (a, b, choose_guard) at h)) (of_provider o a b refl)
    ]
    | inl a ↦ elim (Option-cases opts.local_issuer) [
      | inr (l, b) ↦ elim (Result-cases (new_local_issuer lib.issuer_key l)) [
        | inl (li, c) ↦
            tokens (lib.static_verifier (verifier_options li) li.key) l.required_scopes
              (cc (rw (a, b, c, choose_guard) at h)) (of_issuer l li a b c refl refl)
        | inr (reason, c) ↦ absurd (cc (rw (a, b, c, choose_guard) at h))
      ]
      | inl b ↦ elim (Bool-cases (is_empty opts.bearer_token)) [
        | inl c ↦ nothing (cc (rw (a, b, c, choose_guard) at h)) (rw (c, a, b, auth_modes))
        | inr c ↦ secret (cc (rw (a, b, c, choose_guard) at h)) a b c
      ]
    ]
  ]

  IsGuard-guarded : (g : Guard) → IsGuard g → ltb 0 (auth_modes opts) ≡ true → g ≢ unguarded
  IsGuard-guarded g (nothing p none_set) k q = cc
  IsGuard-guarded g (secret p _ _ _) k q = cc
  IsGuard-guarded g (tokens v required p _) k q = cc

  check_options-none :
      (server : Server)
      → check_options lib opts ≡ none
      → (ltb 0 (auth_modes opts) ≡ true → server.guard ≢ unguarded)
      → IsHardened server
  unfolding check_options
  check_options-none server h k = elim (Bool-cases (ltb 1 (auth_modes opts))) [
    | inl a ↦ absurd (cc (rw (a, check_options) at h))
    | inr a ↦ elim (Option-cases (lib.host_of opts.bind)) [
      | inl b ↦ absurd (cc (rw (a, b, check_options) at h))
      | inr (host, b) ↦ elim (Bool-cases (is_loopback_host lib host)) [
        | inl c ↦ elim (Bool-cases opts.allow_remote) [
          | inr d ↦ record {
            one_mode = ground (arith, a);
            host = host;
            bound = b;
            local_or_remote = inl c;
            guarded = inl d;
          }
          | inl d ↦ elim (Bool-cases (ltb 0 (auth_modes opts))) [
            | inl z ↦ record {
              one_mode = ground (arith, a);
              host = host;
              bound = b;
              local_or_remote = inl c;
              guarded = inr (k z);
            }
            | inr z ↦ absurd (cc (rw (a, b, c, z, d, check_options) at h))
          ]
        ]
        | inr c ↦ elim (Bool-cases opts.allow_remote) [
          | inr d ↦ absurd (cc (rw (a, b, c, d, check_options) at h))
          | inl d ↦ elim (Bool-cases (ltb 0 (auth_modes opts))) [
            | inl z ↦ record {
              one_mode = ground (arith, a);
              host = host;
              bound = b;
              local_or_remote = inr d;
              guarded = inr (k z);
            }
            | inr z ↦ absurd (cc (rw (a, b, c, z, d, check_options) at h))
          ]
        ]
      ]
    ]
  ]

  pub run_http_started :
      (server : Server)
      → run_http lib opts ≡ ok server
      → IsHardened server
        × IsGuard server.guard
        × (server.trusted_origins ≡ opts.allowed_origins)
        × (server.bind ≡ opts.bind)
  unfolding run_http
  run_http_started server h = elim (Option-cases (check_options lib opts)) [
    | inr (f, a) ↦ absurd (cc (rw (a, run_http) at h))
    | inl a ↦ elim (Result-cases (choose_guard lib opts)) [
      | inl ((g, routes), b) ↦ elim (Bool-cases (all lib.add_trusted_origin opts.allowed_origins)) [
        | inr c ↦ absurd (cc (rw (a, b, c, run_http) at h))
        | inl c ↦
            let same : g ≡ server.guard = cc (rw (a, b, c, run_http) at h) in
            let chosen = choose_guard-IsGuard g routes b in
            (
              check_options-none server a (λ z p. IsGuard-guarded g chosen z (same ∙ p)),
              subst IsGuard same chosen,
              cc (rw (a, b, c, run_http) at h),
              cc (rw (a, b, c, run_http) at h),
            )
      ]
      | inr (f, b) ↦ absurd (cc (rw (a, b, run_http) at h))
    ]
  ]

  -- A server that starts has at most one kind of authentication, and listens on a loopback address
  -- unless --allow-remote is given; where it is given, requests meet a guard.
  run_http-IsHardened : (server : Server) → run_http lib opts ≡ ok server → IsHardened server
  run_http-IsHardened server h = (run_http_started server h).0
