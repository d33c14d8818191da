-- ===== src/Tests/KeyFiles.antt =====
-- internal/grant/keys.go and cmd/fieldlink/grant.go at one key and one grant.
use fieldlink.Prelude.{codes, some, Option, none, take, ◌≡◌, refl, arith}
use fieldlink.Prelude.Results.{ok}
use fieldlink.Prelude.Disk.{Disk, write_file}
use fieldlink.Grant.{Grant, parse_yaml, validate, sign, signing_bytes}
use fieldlink.Prelude.{trim_space}
use fieldlink.Prelude.Lines.{scan_lines}
use fieldlink.Grant.Keys.{
  read_public_key_file, read_private_key_file, first_data_line, write_signature_file,
}
use fieldlink.Policy.GrantEngine.{load, sig_path_for}
use fieldlink.Cli.{verify_command, sign_command, read_grant}
use fieldlink.Cli.SignVerify.{verify_command-sign_command, load-sign_command}
use fieldlink.Tests.Stubs.Encoding.{letters, letters-IsBase64}
use fieldlink.Tests.Stubs.Site.{
  site_disk, site_key, site_deps, site_world, site_engine, sample_grant, grant_text,
  checksums-IsSigner, signature,
}

-- The disk that a write leaves.
abbrev after_write : Option Disk → Disk
after_write none = site_disk
after_write (some d) = d

abbrev with_signature : Disk
unfolding write_signature_file write_file
with_signature = after_write (write_signature_file letters site_disk "new.sig" site_key)

-- The disk once the grant is signed anew.
abbrev signed_disk : Disk
unfolding write_signature_file write_file
signed_disk = after_write (
    write_signature_file letters site_disk "grant.yaml.sig"
      (signature (codes "fieldlink-grant-v1:grant")))

signed : sign_command site_deps site_disk "grant.yaml" "key" "" ≡ ok signed_disk
unfolding sign_command read_grant parse_yaml validate read_private_key_file first_data_line
    scan_lines trim_space write_signature_file write_file sig_path_for sign signing_bytes
signed = refl

key_read : read_private_key_file letters site_disk "key" ≡ ok site_key
unfolding read_private_key_file first_data_line scan_lines trim_space
key_read = refl

public_read : read_public_key_file letters signed_disk "key.pub" ≡ ok (take 32 site_key)
unfolding read_public_key_file first_data_line scan_lines trim_space write_signature_file write_file
public_read = refl

parsed : read_grant site_deps site_disk "grant.yaml" ≡ ok (sample_grant, grant_text)
unfolding read_grant parse_yaml validate
parsed = refl

verify_command-sign_command_example :
    (g : Grant) × (verify_command site_deps signed_disk "grant.yaml" "" "key.pub" ≡ ok g)
verify_command-sign_command_example =
    verify_command-sign_command site_deps letters-IsBase64 checksums-IsSigner site_disk signed_disk
      "grant.yaml" "key" site_key signed key_read "key.pub" public_read

load-sign_command_example :
    (load site_deps (record site_world { disk = signed_disk }) site_engine).0 ≡ ok sample_grant
load-sign_command_example =
    load-sign_command site_deps letters-IsBase64 checksums-IsSigner site_disk signed_disk
      "grant.yaml" "key" site_key signed key_read (record site_world { disk = signed_disk })
      site_engine sample_grant grant_text refl refl public_read parsed (omega arith) refl
