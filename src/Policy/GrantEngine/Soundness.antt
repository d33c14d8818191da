-- ===== src/Policy/GrantEngine/Soundness.antt =====
-- When Authorize allows a call: exactly when a grant on disk is verified now and permits it.
use fieldlink.Prelude.{
  String, Bytes, true, none, some, ◌≡◌, refl, ◌↔◌, inl, inr, arith, eq_iff, Option-cases, ◌≤ℤ◌,
  subst,
}
use fieldlink.Prelude.Results.{ok, Result-cases}
use fieldlink.Prelude.Disk.{read_file}
use fieldlink.Any.{Map}
use fieldlink.Grant.{Grant, validate, verify, find, parse_yaml}
use fieldlink.Grant.Keys.{read_public_key_file, read_signature_file}
use fieldlink.Policy.{Context}
use fieldlink.Policy.GrantEngine.{
  Deps, World, GrantEngine, sig_path_for, parse_grant_file, check_signed, check_parsed, check_grant,
  load, decide, authorize_inner, authorize,
}
use fieldlink.Policy.GrantEngine.Permits.{Permits, dispatch_iff}

-- A grant that the files hold, signed by the trusted key over its whole canonical form, of the
-- right shape, not expired, and issued for this installation.
pub record Verified (deps : Deps) (w : World) (e : GrantEngine) (g : Grant) : Type 0 where
  pub public : Bytes
  pub trusted : read_public_key_file deps.encodings w.disk e.trusted_key ≡ ok public
  pub raw : Bytes
  pub on_disk : read_file w.disk e.grant_path ≡ some raw
  pub canonical : Bytes
  pub parsed : parse_yaml deps.formats raw ≡ ok (g, canonical)
  pub well_formed : validate g ≡ none
  pub sig : Bytes
  pub signature : read_signature_file deps.encodings w.disk (sig_path_for e.grant_path) ≡ ok sig
  pub signed : verify deps.ed25519 public canonical sig ≡ true
  pub unexpired : w.now ≤ℤ g.expires_at
  pub for_us : g.agent_id ≡ e.agent_id

module _ (deps : Deps) (w : World) (e : GrantEngine) where
  parse_grant_file_sound :
      (g : Grant) (canonical : Bytes)
      → parse_grant_file deps.formats w.disk e.grant_path ≡ some (g, canonical)
      → (raw : Bytes) × (read_file w.disk e.grant_path ≡ some raw)
        × (parse_yaml deps.formats raw ≡ ok (g, canonical))
  unfolding parse_grant_file
  parse_grant_file_sound g canonical h = elim (Option-cases (read_file w.disk e.grant_path)) [
    | inl f ↦ absurd (ground (arith, f))
    | inr (raw, f) ↦ elim (Result-cases (parse_yaml deps.formats raw)) [
      | inl (q, k) ↦ (raw, f, ground (arith, f, k))
      | inr (x, k) ↦ absurd (ground (arith, f, k))
    ]
  ]

  parse_grant_file_complete :
      (raw : Bytes) (g : Grant) (canonical : Bytes)
      → read_file w.disk e.grant_path ≡ some raw
      → parse_yaml deps.formats raw ≡ ok (g, canonical)
      → parse_grant_file deps.formats w.disk e.grant_path ≡ some (g, canonical)
  unfolding parse_grant_file
  parse_grant_file_complete raw g canonical f k = ground (arith, f, k)

  check_signed_iff :
      (public : Bytes) (g g' : Grant) (canonical sig : Bytes)
      → (check_signed deps w e public g canonical sig ≡ ok g') ↔ (
          (verify deps.ed25519 public canonical sig ≡ true)
          × (w.now ≤ℤ g.expires_at)
          × (g.agent_id ≡ e.agent_id)
          × (g ≡ g'))
  unfolding check_signed
  check_signed_iff public g g' canonical sig = ground (arith, eq_iff g.agent_id e.agent_id)

  check_parsed_sound :
      (public : Bytes) (g g' : Grant) (canonical : Bytes)
      → check_parsed deps w e public (g, canonical) ≡ ok g'
      → (sig : Bytes) × (validate g ≡ none)
        × (read_signature_file deps.encodings w.disk (sig_path_for e.grant_path) ≡ ok sig)
        × (check_signed deps w e public g canonical sig ≡ ok g')
  unfolding check_parsed
  check_parsed_sound public g g' canonical h = elim (Option-cases (validate g)) [
    | inr (x, bad) ↦ absurd (ground (arith, bad))
    | inl good ↦
        elim (Result-cases
          (read_signature_file deps.encodings w.disk (sig_path_for e.grant_path))) [
            | inr (x, f) ↦ absurd (ground (arith, good, f))
            | inl (sig, f) ↦ (sig, good, f, ground (arith, good, f))
          ]
  ]

  check_parsed_complete :
      (public : Bytes) (g : Grant) (canonical sig : Bytes)
      → validate g ≡ none
      → read_signature_file deps.encodings w.disk (sig_path_for e.grant_path) ≡ ok sig
      → check_parsed deps w e public (g, canonical) ≡ check_signed deps w e public g canonical sig
  unfolding check_parsed
  check_parsed_complete public g canonical sig valid read = ground (arith, valid, read)

  check_grant_sound :
      (public : Bytes) (g : Grant)
      → read_public_key_file deps.encodings w.disk e.trusted_key ≡ ok public
      → check_grant deps w e public ≡ ok g
      → Verified deps w e g
  unfolding check_grant
  check_grant_sound public g trusted h =
      elim (Option-cases (parse_grant_file deps.formats w.disk e.grant_path)) [
        | inl f ↦ absurd (ground (arith, f))
        | inr ((g', canonical), f) ↦
            let (raw, on_disk, parsed) = parse_grant_file_sound g' canonical f in
            let (sig, valid, signature, k) =
              check_parsed_sound public g' g canonical (ground (arith, f, h)) in
            let (signed, unexpired, for_us, same) =
              (check_signed_iff public g' g canonical sig).0 k in
            subst (Verified deps w e) same (record {
              public = public;
              trusted = trusted;
              raw = raw;
              on_disk = on_disk;
              canonical = canonical;
              parsed = parsed;
              well_formed = valid;
              sig = sig;
              signature = signature;
              signed = signed;
              unexpired = unexpired;
              for_us = for_us;
            })
      ]

  -- load succeeds exactly with a grant that the files hold, signed by the trusted key, well formed,
  -- unexpired and issued for this installation.
  pub load_iff : (g : Grant) → ((load deps w e).0 ≡ ok g) ↔ Verified deps w e g
  unfolding load check_grant
  load_iff g = (
    (λ h. elim (Result-cases (read_public_key_file deps.encodings w.disk e.trusted_key)) [
      | inl (public, k) ↦ check_grant_sound public g k (ground (arith, k, h))
      | inr (x, k) ↦ absurd (ground (arith, k, h))
    ]),
    (λ v. ground (
      arith,
      v.trusted,
      parse_grant_file_complete v.raw g v.canonical v.on_disk v.parsed,
      check_parsed_complete v.public g v.canonical v.sig v.well_formed v.signature,
      (check_signed_iff v.public g g v.canonical v.sig).1 (v.signed, v.unexpired, v.for_us, refl),
    )),
  )

  -- What must hold for a call to be allowed.
  pub record Authorized (capability : String) (params : Map) : Type 0 where
    pub g : Grant
    pub verified : Verified deps w e g
    pub constraints : Map
    pub found : find g capability ≡ some constraints
    pub permits : Permits deps.matchers capability constraints params

  decide_iff :
      (g : Grant) (capability : String) (params : Map)
      → ((decide deps.matchers (ok g) capability params).1.allowed ≡ true)
        ↔ ((c : Map) × (find g capability ≡ some c) × Permits deps.matchers capability c params)
  unfolding decide
  decide_iff g capability params = (
    (λ h. elim (Option-cases (find g capability)) [
      | inl f ↦ absurd (ground (arith, f))
      | inr (c, f) ↦ (c, f, (dispatch_iff deps.matchers c params capability).0 (ground (arith, f)))
    ]),
    (λ p. ground (arith, p.1, (dispatch_iff deps.matchers p.0 params capability).1 p.2)),
  )

  -- Authorize allows a call exactly when the files hold, at this moment, a grant that is signed by
  -- the trusted key, well formed, unexpired and issued for this installation, and that grant lists
  -- the capability with constraints that the call's parameters meet.
  pub authorize_iff :
      (ctx : Context) (capability : String) (params : Map)
      → ((authorize deps w e ctx capability params).0.allowed ≡ true) ↔ Authorized capability params
  unfolding authorize authorize_inner
  authorize_iff ctx capability params = (
    (λ h. elim (Result-cases (load deps w e).0) [
      | inr (x, f) ↦ absurd (unfold decide in ground (arith, f))
      | inl (g, f) ↦
          let (c, found, permits) = (decide_iff g capability params).0 (rw f at h) in
          record {
            g = g;
            verified = (load_iff g).0 f;
            constraints = c;
            found = found;
            permits = permits;
          }
    ]),
    (λ a.
        rw ((load_iff a.g).1 a.verified)
          ((decide_iff a.g capability params).1 (a.constraints, a.found, a.permits))),
  )
