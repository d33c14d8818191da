-- ===== src/Mcp/Issuer/Key.antt =====
-- internal/mcp/local_issuer.go: the issuer's key, read from its file or made on the first run.
use fieldlink.Prelude.{
  String, Bytes, Bool, Option, none, some, ◌≡◌, sym, ap, ◌∙◌, Option-cases, Bool-cases, inl, inr,
  if◌then◌else◌,
}

-- os.ReadFile, with os.IsNotExist
pub data ReadOutcome : Type 0 where
  found : Bytes → ReadOutcome
  missing : ReadOutcome
  failed : ReadOutcome

-- pem, x509, rsa.GenerateKey, MkdirAll of a path's directory, and WriteFile.
pub record KeyFormats (K : Type 0) : Type 0 where
  pub decode_pem : Bytes → Option Bytes
  pub parse_pkcs1 : Bytes → Option K
  pub generate : Option K
  pub encode_pem : K → Bytes
  pub mkdir_all : String → Bool
  pub write_file : String → Bytes → Bool

-- loadOrGenerateIssuerKey: the key, and what it has written.
unfoldable pub load_or_generate :
    {K : Type 0} → KeyFormats K → ReadOutcome → String → Option K × Option Bytes
load_or_generate lib (found text) path = elim (lib.decode_pem text) [
  | none ↦ (none, none)
  | some block ↦ (lib.parse_pkcs1 block, none)
]
load_or_generate lib failed path = (none, none)
load_or_generate lib missing path = elim lib.generate [
  | none ↦ (none, none)
  | some key ↦
      if lib.mkdir_all path
      then (if lib.write_file path (lib.encode_pem key)
          then (some key, some (lib.encode_pem key))
          else (none, none))
      else (none, none)
]

-- decode_pem and parse_pkcs1 read what encode_pem writes.
pub record IsReadable {K : Type 0} (lib : KeyFormats K) : Type 0 where
  pub block_of : K → Bytes
  pub decode-encode : (key : K) → lib.decode_pem (lib.encode_pem key) ≡ some (block_of key)
  pub parse-block : (key : K) → lib.parse_pkcs1 (block_of key) ≡ some key

-- Where the formats read what they write, the key that the first run makes is the key that a later run
-- reads from what it has written.
pub load_or_generate-written :
    {K : Type 0} (lib : KeyFormats K) (path : String) (key : K) (text : Bytes)
    → IsReadable lib
    → load_or_generate lib missing path ≡ (some key, some text)
    → load_or_generate lib (found text) path ≡ (some key, none)
unfolding load_or_generate
load_or_generate-written lib path key text readable h = elim (Option-cases lib.generate) [
  | inl a ↦ absurd (cc (rw (a, load_or_generate) at h))
  | inr (made, a) ↦ elim (Bool-cases (lib.mkdir_all path)) [
    | inr b ↦ absurd (cc (rw (a, b, load_or_generate) at h))
    | inl b ↦ elim (Bool-cases (lib.write_file path (lib.encode_pem made))) [
      | inr c ↦ absurd (cc (rw (a, b, c, load_or_generate) at h))
      | inl c ↦
          let run = rw (a, b, c, load_or_generate) at h in
          let same : some made ≡ some key = ap (λ p. p.0) run in
          let written : some (lib.encode_pem made) ≡ some text = ap (λ p. p.1) run in
          let keys : made ≡ key = cc same in
          let texts : lib.encode_pem key ≡ text = cc (written, keys) in
          let decoded : lib.decode_pem text ≡ some (readable.block_of key) =
            ap lib.decode_pem (sym texts) ∙ readable.decode-encode key in
          rw (decoded, readable.parse-block key, load_or_generate)
    ]
  ]
]
