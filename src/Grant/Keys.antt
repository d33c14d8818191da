-- ===== src/Grant/Keys.antt =====
-- internal/grant/keys.go: key and signature files, one line of base64 below comments.
-- A file's text is the list of its code points; base64 and SHA-256 are parameters.
pub mod RoundTrip
use fieldlink.Prelude.{
  ℕ, ◌^◌, String, Bytes, codes, has_prefix, trim_space, Bool, true, false, ◌||◌, List, [], ◌∷◌,
  ◌++◌, Option, nat_eq, length, take, bytes_eq, if◌then◌else◌,
}
use fieldlink.Prelude.Results.{Result, ok, err, or_fail, ◌>>=◌}
use fieldlink.Prelude.Lines.{scan_lines}
use fieldlink.Prelude.Disk.{Disk, read_file, write_file}

-- encoding/base64.StdEncoding, crypto/sha256 and fmt's %x
pub record Encodings : Type 0 where
  pub encode_base64 : Bytes → Bytes
  pub decode_base64 : Bytes → Option Bytes
  pub sha256 : Bytes → Bytes
  pub hex : Bytes → Bytes

pub data KeyError : Type 0 where
  unreadable no_data_line line_too_long not_base64 wrong_size : KeyError

-- ed25519.PublicKeySize and ed25519.PrivateKeySize
abbrev pub public_key_size : ℕ
public_key_size = 32

abbrev pub private_key_size : ℕ
private_key_size = 64

-- bufio.MaxScanTokenSize
abbrev pub max_scan_token_size : ℕ
max_scan_token_size = 2 ^ 16

-- The loop of firstDataLine over the scanner's lines.
first_data : List Bytes → Bool → Result KeyError Bytes
first_data [] true = err line_too_long
first_data [] false = err no_data_line
first_data (l ∷ ls) failed =
    let rest = first_data ls failed in
    let line = trim_space l in
    if bytes_eq line [] || has_prefix line (codes "#") then rest else ok line

unfoldable pub first_data_line : Bytes → Result KeyError Bytes
unfolding first_data
first_data_line text =
    let scanned = scan_lines max_scan_token_size text in first_data scanned.0 scanned.1

-- The decoded data line of a file, as each of the readers starts.
read_data : Encodings → Disk → String → Result KeyError Bytes
read_data lib disk path = do
  text ← or_fail (read_file disk path) unreadable
  line ← first_data_line text
  or_fail (lib.decode_base64 line) not_base64

check_size : ℕ → Bytes → Result KeyError Bytes
check_size size raw = if nat_eq (length raw) size then ok raw else err wrong_size

unfoldable pub read_public_key_file : Encodings → Disk → String → Result KeyError Bytes
unfolding read_data check_size
read_public_key_file lib disk path = do
  raw ← read_data lib disk path
  check_size public_key_size raw

unfoldable pub read_private_key_file : Encodings → Disk → String → Result KeyError Bytes
unfolding read_data check_size
read_private_key_file lib disk path = do
  raw ← read_data lib disk path
  check_size private_key_size raw

unfoldable pub read_signature_file : Encodings → Disk → String → Result KeyError Bytes
unfolding read_data
read_signature_file lib disk path = read_data lib disk path

abbrev newline : Bytes
newline = b'\n' ∷ []

abbrev pub public_header : Bytes
public_header = codes "# fieldlink trusted signing key (Ed25519, base64)"

-- The dash of the header is three bytes in UTF-8.
abbrev pub private_header : Bytes
private_header =
    codes "# fieldlink signing key (Ed25519, base64) "
    ++ (226 ∷ 128 ∷ 148 ∷ codes " OFFLINE USE ONLY")

abbrev pub private_warning : Bytes
private_warning = codes "# Never copy this file to a FieldLink host."

unfoldable pub write_public_key_file : Encodings → Disk → String → Bytes → Option Disk
write_public_key_file lib disk path public =
    write_file disk path (public_header ++ (newline ++ (lib.encode_base64 public ++ newline)))

unfoldable pub write_private_key_file : Encodings → Disk → String → Bytes → Option Disk
write_private_key_file lib disk path priv = write_file disk path (
    private_header
    ++ (newline ++ (private_warning ++ (newline ++ (lib.encode_base64 priv ++ newline)))))

unfoldable pub write_signature_file : Encodings → Disk → String → Bytes → Option Disk
write_signature_file lib disk path sig = write_file disk path (lib.encode_base64 sig ++ newline)

-- Fingerprint: the first eight bytes of the key's digest.
unfoldable pub fingerprint : Encodings → Bytes → Bytes
fingerprint lib public = codes "sha256:" ++ lib.hex (take 8 (lib.sha256 public))
