-- ===== src/Cli.antt =====
-- cmd/fieldlink/grant.go: the commands `grant sign` and `grant verify`, without what they print.
pub mod SignVerify
pub mod Serve
use fieldlink.Prelude.{
  String, Bytes, Bool, true, false, not, Option, none, some, ◌==◌, if◌then◌else◌,
}
use fieldlink.Prelude.Results.{Result, ok, err, or_fail, ◌>>=◌}
use fieldlink.Prelude.Disk.{Disk, read_file, write_file}
use fieldlink.Grant.{Grant, Invalid, parse_yaml, validate, sign, verify}
use fieldlink.Grant.Keys.{
  KeyError, read_private_key_file, read_public_key_file, read_signature_file, write_signature_file,
}
use fieldlink.Policy.GrantEngine.{Deps, sig_path_for}

pub data CommandError : Type 0 where
  no_grant_file unparsable invalid_grant bad_key bad_signature_file cannot_write no_match :
      CommandError

-- The start of both commands: the grant, parsed and of the right shape, and its canonical form.
unfoldable pub read_grant : Deps → Disk → String → Result CommandError (Grant × Bytes)
read_grant deps disk grant_path = elim (read_file disk grant_path) [
  | none ↦ err no_grant_file
  | some text ↦ elim (parse_yaml deps.formats text) [
    | err _ ↦ err unparsable
    | ok p ↦ elim (validate p.0) [ none ↦ ok p | some _ ↦ err invalid_grant ]
  ]
]

-- The default of the flags --out and --sig.
abbrev or_sig_path : String → String → String
or_sig_path path grant_path = if path == "" then sig_path_for grant_path else path

write_or_fail : Option Disk → Result CommandError Disk
write_or_fail none = err cannot_write
write_or_fail (some d) = ok d

-- newGrantSignCmd's RunE
unfoldable pub sign_command :
    Deps → Disk → (grant_path key_path out_path : String) → Result CommandError Disk
unfolding write_or_fail
sign_command deps disk grant_path key_path out_path = elim (read_grant deps disk grant_path) [
  | err e ↦ err e
  | ok p ↦ elim (read_private_key_file deps.encodings disk key_path) [
    | err _ ↦ err bad_key
    | ok priv ↦ write_or_fail (
        write_signature_file deps.encodings disk (or_sig_path out_path grant_path)
          (sign deps.ed25519 priv p.1))
  ]
]

-- newGrantVerifyCmd's RunE: the grant that it reports as validly signed.
unfoldable pub verify_command :
    Deps → Disk → (grant_path sig_path pub_path : String) → Result CommandError Grant
verify_command deps disk grant_path sig_path pub_path = elim (read_grant deps disk grant_path) [
  | err e ↦ err e
  | ok p ↦ elim (read_signature_file deps.encodings disk (or_sig_path sig_path grant_path)) [
    | err _ ↦ err bad_signature_file
    | ok sig ↦ elim (read_public_key_file deps.encodings disk pub_path) [
      | err _ ↦ err bad_key
      | ok public ↦ if not (verify deps.ed25519 public p.1 sig) then err no_match else ok p.0
    ]
  ]
]
