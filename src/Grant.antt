-- ===== src/Grant.antt =====
-- internal/grant/grant.go: the grant document, its lookup, its shape rules, and what is signed.
-- A time.Time is a signed number of nanoseconds since Go's zero time. The decoders (yaml.v3,
-- encoding/json, gowebpki/jcs) and Ed25519 are parameters.
pub mod Keys
use fieldlink.Prelude.{
  ℕ, ◌*◌, ◌-◌, ◌^◌, ℤ, pos, negsuc, ◌-ℤ◌, ltb_ℤ, eq_ℤ, String, Bytes, codes, Bool, not, ◌&&◌, List,
  [], ◌∷◌, ◌++◌, Option, none, some, ◌==◌, if◌then◌else◌,
}
use fieldlink.Prelude.Results.{Result, ok, err, or_fail, ◌>>=◌}
use fieldlink.Any.{Map}

abbrev pub domain_separator : Bytes
domain_separator = codes "fieldlink-grant-v1:"

-- time.Hour
abbrev pub hour : ℕ
hour = 3600 * 10 ^ 9

abbrev pub max_validity : ℤ
max_validity = pos (180 * 24 * hour)

abbrev pub supported_version : ℤ
supported_version = pos 1

pub record CapabilityGrant : Type 0 where
  pub capability : String
  pub constraints : Map

pub record Grant : Type 0 where
  pub version : ℤ
  pub grant_id : String
  pub agent_id : String
  pub issued_at : ℤ
  pub expires_at : ℤ
  pub issuer : String
  pub capabilities : List CapabilityGrant

-- t.IsZero(), t.Before(u), t.After(u)
abbrev pub is_zero : ℤ → Bool
is_zero t = eq_ℤ t (pos 0)

abbrev pub before : ℤ → ℤ → Bool
before t u = ltb_ℤ t u

abbrev pub after : ℤ → ℤ → Bool
after t u = ltb_ℤ u t

-- t.Sub(u): a Duration is an int64, and the difference is held within its bounds.
abbrev pub sub_time : ℤ → ℤ → ℤ
sub_time t u =
    if ltb_ℤ (pos (2 ^ 63 - 1)) (t -ℤ u)
    then pos (2 ^ 63 - 1)
    else if ltb_ℤ (t -ℤ u) (negsuc (2 ^ 63 - 1))
    then negsuc (2 ^ 63 - 1)
    else t -ℤ u

find_in : List CapabilityGrant → String → Option Map
find_in [] capability = none
find_in (c ∷ cs) capability =
    if c.capability == capability then some c.constraints else find_in cs capability

unfoldable pub find : Grant → String → Option Map
unfolding find_in
find g capability = find_in g.capabilities capability

-- The errors of Validate.
pub data Invalid : Type 0 where
  unsupported_version no_grant_id no_agent_id no_expiry expires_before_issue too_long : Invalid

-- Validate; `none` is the nil error.
unfoldable pub validate : Grant → Option Invalid
validate g =
    if not (eq_ℤ g.version supported_version)
    then some unsupported_version
    else if g.grant_id == ""
    then some no_grant_id
    else if g.agent_id == ""
    then some no_agent_id
    else if is_zero g.expires_at
    then some no_expiry
    else if not (is_zero g.issued_at) && before g.expires_at g.issued_at
    then some expires_before_issue
    else if not (is_zero g.issued_at) && ltb_ℤ max_validity (sub_time g.expires_at g.issued_at)
    then some too_long
    else none

-- yaml.Unmarshal into `any`, json.Marshal of that value, jcs.Transform, json.Unmarshal into Grant.
pub record Formats : Type 1 where
  pub Generic : Type 0
  pub unmarshal_yaml : Bytes → Option Generic
  pub marshal_json : Generic → Option Bytes
  pub canonicalize : Bytes → Option Bytes
  pub unmarshal_grant : Bytes → Option Grant

pub data ParseError : Type 0 where
  bad_yaml not_json not_canonical bad_shape : ParseError

-- ParseYAML
unfoldable pub parse_yaml : Formats → Bytes → Result ParseError (Grant × Bytes)
parse_yaml lib text = do
  generic ← or_fail (lib.unmarshal_yaml text) bad_yaml
  raw_json ← or_fail (lib.marshal_json generic) not_json
  canonical ← or_fail (lib.canonicalize raw_json) not_canonical
  g ← or_fail (lib.unmarshal_grant raw_json) bad_shape
  ok (g, canonical)

-- crypto/ed25519, over a key pair's two halves
pub record Ed25519 : Type 0 where
  pub public : Bytes → Bytes
  pub sign_bytes : Bytes → Bytes → Bytes
  pub verify_bytes : Bytes → Bytes → Bytes → Bool

-- SigningBytes
unfoldable pub signing_bytes : Bytes → Bytes
signing_bytes canonical = domain_separator ++ canonical

-- Sign and Verify
unfoldable pub sign : Ed25519 → Bytes → Bytes → Bytes
sign lib priv canonical = lib.sign_bytes priv (signing_bytes canonical)

unfoldable pub verify : Ed25519 → Bytes → Bytes → Bytes → Bool
verify lib public canonical sig = lib.verify_bytes public (signing_bytes canonical) sig
