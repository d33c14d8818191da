-- ===== src/Grant/Keys/RoundTrip.antt =====
-- internal/grant: what is written is read back, and what is signed is verified.
use fieldlink.Prelude.{
  ℕ, ◌+◌, ◌*◌, ◌<◌, ◌≤◌, ◌≡◌, ◌≢◌, refl, String, Bytes, Bool, true, false, ◌&&◌, ◌||◌, is_space,
  List, [], ◌∷◌, ◌++◌, some, arith, nat_eq, leb, length, All, codes, has_prefix, trim_space,
  trim_space-none, bytes_eq, All-append,
}
use fieldlink.Prelude.Results.{ok}
use fieldlink.Prelude.Lines.{scan_lines-unlines, unlines, IsLine}
use fieldlink.Prelude.Disk.{Disk, read_file, read_file-write_file}
use fieldlink.Grant.Keys.{
  Encodings, read_data, first_data, first_data_line, read_public_key_file, read_private_key_file,
  read_signature_file, write_public_key_file, write_private_key_file, write_signature_file,
  public_key_size, private_key_size, max_scan_token_size, public_header, private_header,
  private_warning,
}

-- The alphabet of base64 with its padding.
abbrev pub is_base64 : ℕ → Bool
is_base64 c =
    (leb b'a' c && leb c b'z')
    || (leb b'A' c && leb c b'Z')
    || (leb b'0' c && leb c b'9')
    || nat_eq c b'+'
    || nat_eq c b'/'
    || nat_eq c b'='

-- A []byte.
abbrev pub IsOctets : Bytes → Type 0
IsOctets = All (λ c. c < 256)

-- What encoding/base64 documents of StdEncoding, at []byte values: decoding undoes encoding, the
-- alphabet, and that EncodedLen is positive and at most twice the length where the length is.
pub record IsBase64 (lib : Encodings) : Type 0 where
  pub decode_encode : (b : Bytes) → IsOctets b → lib.decode_base64 (lib.encode_base64 b) ≡ some b
  pub alphabet : (b : Bytes) → IsOctets b → All (λ c. is_base64 c ≡ true) (lib.encode_base64 b)
  pub encoded_some : (b : Bytes) → 0 < length b → 0 < length (lib.encode_base64 b)
  pub encoded_len : (b : Bytes) → length (lib.encode_base64 b) ≤ 2 * length b + 2

base64-plain :
    (s : Bytes) → All (λ c. is_base64 c ≡ true) s → All (λ c. (c ≢ b'\n') × (c ≢ b'\r')) s
base64-plain [] h = tt
base64-plain (c ∷ s) (e, h) = ((ground arith, ground arith), base64-plain s h)

base64-solid : (s : Bytes) → All (λ c. is_base64 c ≡ true) s → All (λ c. is_space c ≡ false) s
base64-solid [] h = tt
base64-solid (c ∷ s) (e, h) = (ground arith, base64-solid s h)

has_prefix-base64 :
    (s : Bytes)
    → All (λ c. is_base64 c ≡ true) s
    → 0 < length s
    → (bytes_eq s [] || has_prefix s (codes "#")) ≡ false
has_prefix-base64 [] h n = absurd (omega arith)
has_prefix-base64 (c ∷ s) (e, h) n = ground arith

-- A comment line of a key file.
record IsComment (l : Bytes) : Type 0 where
  line : IsLine max_scan_token_size l
  marked : has_prefix (trim_space l) (codes "#") ≡ true

IsComment-IsLine : (cs : List Bytes) → All IsComment cs → All (IsLine max_scan_token_size) cs
IsComment-IsLine [] h = tt
IsComment-IsLine (c ∷ cs) (p, h) = (p.line, IsComment-IsLine cs h)

module _ (s : Bytes) (h : All (λ c. is_base64 c ≡ true) s) (n : 0 < length s) where
  first_data-base64 : (cs : List Bytes) → All IsComment cs → first_data (cs ++ s ∷ []) false ≡ ok s
  unfolding first_data
  first_data-base64 [] k =
      rw (trim_space-none s (base64-solid s h)) (ground (arith, has_prefix-base64 s h n))
  first_data-base64 (c ∷ cs) (p, k) = ground (arith, p.marked, first_data-base64 cs k)

  -- The first line of base64 below comments is the data line.
  first_data_line-base64 :
      (cs : List Bytes)
      → All IsComment cs
      → length s < max_scan_token_size
      → first_data_line (unlines (cs ++ s ∷ [])) ≡ ok s
  unfolding first_data_line
  first_data_line-base64 cs k short =
      let whole : All (IsLine max_scan_token_size) (cs ++ s ∷ []) =
        All-append (IsLine max_scan_token_size) cs (s ∷ []) (IsComment-IsLine cs k)
          (record { plain = base64-plain s h; short = short }, tt) in
      rw (scan_lines-unlines max_scan_token_size (cs ++ s ∷ []) whole) (first_data-base64 cs k)

module _ (lib : Encodings) (laws : IsBase64 lib) (disk : Disk) (path : String) where
  -- A file that ends with the line of base64 for `raw` decodes to `raw`.
  read_data-base64 :
      (cs : List Bytes) (raw : Bytes)
      → All IsComment cs
      → IsOctets raw
      → 0 < length raw
      → length raw < 32000
      → read_file disk path ≡ some (unlines (cs ++ lib.encode_base64 raw ∷ []))
      → read_data lib disk path ≡ ok raw
  unfolding read_data
  read_data-base64 cs raw k octets n short found =
      let line : first_data_line (unlines (cs ++ lib.encode_base64 raw ∷ []))
          ≡ ok (lib.encode_base64 raw) =
        first_data_line-base64 (lib.encode_base64 raw) (laws.alphabet raw octets)
          (omega (arith, laws.encoded_len raw, laws.encoded_some raw n)) cs k
          (omega (arith, laws.encoded_len raw, laws.encoded_some raw n)) in
      rw (found, line, laws.decode_encode raw octets)

public_header-IsComment : IsComment public_header
unfolding trim_space
public_header-IsComment = record { line = omega arith; marked = refl }

private_comments : All IsComment (private_header ∷ private_warning ∷ [])
unfolding trim_space
private_comments = (
  record { line = omega arith; marked = refl },
  (record { line = omega arith; marked = refl }, tt),
)

module _ (lib : Encodings) (laws : IsBase64 lib) (disk : Disk) (path : String) {disk' : Disk} where
  -- A public key of 32 octets that is written is the key that is read back, under the laws of base64.
  pub read-write_public_key_file :
      (public : Bytes)
      → IsOctets public
      → length public ≡ public_key_size
      → write_public_key_file lib disk path public ≡ some disk'
      → read_public_key_file lib disk' path ≡ ok public
  unfolding write_public_key_file read_public_key_file
  read-write_public_key_file public octets size h =
      rw
        (read_data-base64 lib laws disk' path (public_header ∷ []) public
          (public_header-IsComment, tt) octets (omega arith) (omega arith)
          (read_file-write_file disk path _ h))
        (ground arith)

  -- A private key of 64 octets that is written is the key that is read back, under the laws of
  -- base64.
  read-write_private_key_file :
      (priv : Bytes)
      → IsOctets priv
      → length priv ≡ private_key_size
      → write_private_key_file lib disk path priv ≡ some disk'
      → read_private_key_file lib disk' path ≡ ok priv
  unfolding write_private_key_file read_private_key_file
  read-write_private_key_file priv octets size h =
      rw
        (read_data-base64 lib laws disk' path (private_header ∷ private_warning ∷ []) priv
          private_comments octets (omega arith) (omega arith) (read_file-write_file disk path _ h))
        (ground arith)

  -- A signature of octets that is not empty and shorter than 32000 bytes is read back as it was
  -- written, under the laws of base64.
  pub read-write_signature_file :
      (sig : Bytes)
      → IsOctets sig
      → 0 < length sig
      → length sig < 32000
      → write_signature_file lib disk path sig ≡ some disk'
      → read_signature_file lib disk' path ≡ ok sig
  unfolding write_signature_file read_signature_file
  read-write_signature_file sig octets some_bytes few h =
      read_data-base64 lib laws disk' path [] sig tt octets some_bytes few
        (read_file-write_file disk path _ h)
