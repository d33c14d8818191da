-- ===== src/Cli/SignVerify.antt =====
-- What `grant sign` writes, `grant verify` accepts and the engine loads.
use fieldlink.Prelude.{
  String, Bytes, true, none, some, ◌≡◌, ◌≢◌, sym, ap, ◌∙◌, arith, length, Option-cases, inl, inr,
  ◌≤ℤ◌,
}
use fieldlink.Prelude.Results.{ok, Result-cases}
use fieldlink.Prelude.Disk.{Disk, read_file, read_file-write_file_ne}
use Prim.Native.String.{count}
use text.Mathlib.TextLemmas.{length-append}
use fieldlink.Grant.{Grant, Ed25519, parse_yaml, validate, sign, verify, signing_bytes}
use fieldlink.Grant.Keys.{
  read_private_key_file, read_public_key_file, read_signature_file, write_signature_file,
}
use fieldlink.Grant.Keys.RoundTrip.{IsBase64, IsOctets, read-write_signature_file}
use fieldlink.Policy.GrantEngine.{Deps, World, GrantEngine, sig_path_for, load}
use fieldlink.Policy.GrantEngine.Soundness.{load_iff}
use fieldlink.Cli.{read_grant, sign_command, verify_command}

-- What crypto/ed25519 documents: signatures have 64 bytes and verify under the key's public half.
pub record IsSigner (lib : Ed25519) : Type 0 where
  pub verify-sign :
      (priv message : Bytes)
      → lib.verify_bytes (lib.public priv) message (lib.sign_bytes priv message) ≡ true
  pub signature_size : (priv message : Bytes) → length (lib.sign_bytes priv message) ≡ 64
  pub signature_octets : (priv message : Bytes) → IsOctets (lib.sign_bytes priv message)

-- What a `grant sign` to the default path that succeeds has met and done.
record Signed (deps : Deps) (disk disk' : Disk) (grant_path key_path : String) : Type 0 where
  raw : Bytes
  on_disk : read_file disk grant_path ≡ some raw
  g : Grant
  canonical : Bytes
  parsed : parse_yaml deps.formats raw ≡ ok (g, canonical)
  valid : validate g ≡ none
  priv : Bytes
  key : read_private_key_file deps.encodings disk key_path ≡ ok priv
  written :
      write_signature_file deps.encodings disk
        (sig_path_for grant_path)
        (sign deps.ed25519 priv canonical)
      ≡ some disk'

read_grant_sound :
    (deps : Deps) (disk : Disk) (path : String) (p : Grant × Bytes)
    → read_grant deps disk path ≡ ok p
    → (raw : Bytes) × (read_file disk path ≡ some raw)
      × (parse_yaml deps.formats raw ≡ ok p)
      × (validate p.0 ≡ none)
unfolding read_grant
read_grant_sound deps disk path p h = elim (Option-cases (read_file disk path)) [
  | inl a ↦ absurd (ground (arith, a, h))
  | inr (raw, a) ↦ elim (Result-cases (parse_yaml deps.formats raw)) [
    | inr (x, b) ↦ absurd (ground (arith, a, b, h))
    | inl (q, b) ↦ elim (Option-cases (validate q.0)) [
      | inr (x, c) ↦ absurd (ground (arith, a, b, c, h))
      | inl c ↦
          let same : q ≡ p = ground (arith, a, b, c, h) in
          (raw, a, b ∙ ap ok same, ap (λ (k : Grant × Bytes). validate k.0) (sym same) ∙ c)
    ]
  ]
]

sign_command_sound :
    (deps : Deps) (disk disk' : Disk) (grant_path key_path : String)
    → sign_command deps disk grant_path key_path "" ≡ ok disk'
    → Signed deps disk disk' grant_path key_path
unfolding sign_command
sign_command_sound deps disk disk' grant_path key_path h =
    elim (Result-cases (read_grant deps disk grant_path)) [
      | inr (x, a) ↦ absurd (ground (arith, a, h))
      | inl ((g, canonical), a) ↦
          elim (Result-cases (read_private_key_file deps.encodings disk key_path)) [
            | inr (x, b) ↦ absurd (ground (arith, a, b, h))
            | inl (priv, b) ↦
                let (raw, on_disk, parsed, valid) =
                  read_grant_sound deps disk grant_path (g, canonical) a in
                elim (Option-cases (
                  write_signature_file deps.encodings disk (sig_path_for grant_path)
                    (sign deps.ed25519 priv canonical))) [
                      | inl c ↦ absurd (ground (arith, a, b, c, h))
                      | inr (d, c) ↦ record {
                        raw = raw;
                        on_disk = on_disk;
                        g = g;
                        canonical = canonical;
                        parsed = parsed;
                        valid = valid;
                        priv = priv;
                        key = b;
                        written = c ∙ ap some (ground (arith, a, b, c, h));
                      }
                    ]
          ]
    ]

sig_path_for_ne : (path : String) → path ≢ sig_path_for path
unfolding sig_path_for
sig_path_for_ne path e = absurd (omega (arith, ap count e, length-append path ".sig"))

module _ (deps : Deps) (base64 : IsBase64 deps.encodings) (signer : IsSigner deps.ed25519)
    (disk disk' : Disk) (grant_path key_path : String) (priv : Bytes)
    (signed : sign_command deps disk grant_path key_path "" ≡ ok disk')
    (key : read_private_key_file deps.encodings disk key_path ≡ ok priv) where
  -- The facts that both conclusions rest on.
  signature_read :
      (s : Signed deps disk disk' grant_path key_path)
      → read_signature_file deps.encodings disk' (sig_path_for grant_path)
        ≡ ok (sign deps.ed25519 s.priv s.canonical)
  unfolding sign
  signature_read s =
      let message = signing_bytes s.canonical in
      read-write_signature_file deps.encodings base64 disk (sig_path_for grant_path)
        (deps.ed25519.sign_bytes s.priv message) (signer.signature_octets s.priv message)
        (omega (arith, signer.signature_size s.priv message))
        (omega (arith, signer.signature_size s.priv message)) s.written

  grant_kept :
      (s : Signed deps disk disk' grant_path key_path) → read_file disk' grant_path ≡ some s.raw
  unfolding write_signature_file
  grant_kept s =
      read_file-write_file_ne disk (sig_path_for grant_path) grant_path _
        (sig_path_for_ne grant_path) s.written
      ∙ s.on_disk

  same_key : (s : Signed deps disk disk' grant_path key_path) → s.priv ≡ priv
  same_key s = cc (s.key, key)

  signature_good :
      (s : Signed deps disk disk' grant_path key_path)
      → verify deps.ed25519
          (deps.ed25519.public priv)
          s.canonical
          (sign deps.ed25519 s.priv s.canonical)
        ≡ true
  unfolding sign verify
  signature_good s = rw (same_key s) (signer.verify-sign priv (signing_bytes s.canonical))

  -- `grant verify` accepts, under the public half of the signing key, what `grant sign` signed.
  pub verify_command-sign_command :
      (pub_path : String)
      → read_public_key_file deps.encodings disk' pub_path ≡ ok (deps.ed25519.public priv)
      → (g : Grant) × (verify_command deps disk' grant_path "" pub_path ≡ ok g)
  unfolding verify_command read_grant
  verify_command-sign_command pub_path trusted =
      let s = sign_command_sound deps disk disk' grant_path key_path signed in
      (
        s.g,
        ground
            (arith, grant_kept s, s.parsed, s.valid, signature_read s, trusted, signature_good s),
      )

  -- An engine that trusts the public half of the signing key loads a grant that `grant sign` has
  -- signed, until it expires, on the installation that it names.
  pub load-sign_command :
      (w : World) (e : GrantEngine) (g : Grant) (canonical : Bytes)
      → w.disk ≡ disk'
      → e.grant_path ≡ grant_path
      → read_public_key_file deps.encodings disk' e.trusted_key ≡ ok (deps.ed25519.public priv)
      → read_grant deps disk grant_path ≡ ok (g, canonical)
      → w.now ≤ℤ g.expires_at
      → g.agent_id ≡ e.agent_id
      → (load deps w e).0 ≡ ok g
  load-sign_command w e g canonical d p trusted parsed now agent =
      let s = sign_command_sound deps disk disk' grant_path key_path signed in
      let (raw, on_disk, parse, valid) =
        read_grant_sound deps disk grant_path (g, canonical) parsed in
      let same : raw ≡ s.raw = cc (on_disk, s.on_disk) in
      let pair : (s.g, s.canonical) ≡ (g, canonical) = cc (parse, s.parsed, same) in
      (load_iff deps w e g).1 (record {
        public = deps.ed25519.public priv;
        trusted = rw d trusted;
        raw = s.raw;
        on_disk = rw (d, p) (grant_kept s);
        canonical = canonical;
        parsed = s.parsed ∙ ap ok pair;
        well_formed = valid;
        sig = sign deps.ed25519 s.priv s.canonical;
        signature = rw (d, p) (signature_read s);
        signed =
            ap
              (λ (q : Grant × Bytes).
                verify deps.ed25519 (deps.ed25519.public priv) q.1
                  (sign deps.ed25519 s.priv s.canonical))
              (sym pair)
            ∙ signature_good s;
        unexpired = now;
        for_us = agent;
      })
