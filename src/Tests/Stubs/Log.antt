-- ===== src/Tests/Stubs/Log.antt =====
-- A stand-in for JSON and SHA-256: a record is written as its place in a table, in unary.
use fieldlink.Prelude.{
  eq_ℤ, String, Bytes, codes, Bool, true, ◌&&◌, &&-eq-true, List, [], ◌∷◌, ◌++◌, Option, none, some,
  concat, ◌==◌, nat_eq, if◌then◌else◌, All, ◌≡◌, ◌≢◌, sym, ap, ◌∙◌, arith, eq_iff, ◌⊎◌, inl, inr,
  Bool-cases, Option-cases,
}
use fieldlink.Audit.{Record, Formats}
use fieldlink.Audit.Verify.Chained.{eq_ℤ→eq}
use fieldlink.Audit.Session.Sync.{IsCodec}
use fieldlink.Audit.Tampering.{IsSelfDelimiting}

abbrev same : Record → Record → Bool
same r s =
    eq_ℤ r.seq s.seq
    && r.ts == s.ts
    && r.agent_id == s.agent_id
    && r.grant_id == s.grant_id
    && r.caller_id == s.caller_id
    && r.session_id == s.session_id
    && r.capability == s.capability
    && r.decision == s.decision
    && r.reason == s.reason
    && r.params_digest == s.params_digest
    && r.prev_hash == s.prev_hash
    && r.hash == s.hash

abbrev further : Option Bytes → Option Bytes
further none = none
further (some b) = some (b'x' ∷ b)

abbrev place : List Record → Record → Option Bytes
place [] r = none
place (t ∷ ts) r = let rest = place ts r in if same t r then some (b'.' ∷ []) else further rest

abbrev at_place : List Record → Bytes → Option Record
at_place [] b = none
at_place (t ∷ ts) [] = none
at_place (t ∷ ts) (c ∷ b) = let rest = at_place ts b in if nat_eq c b'x' then rest else some t

-- The digest: which characters are an x.
abbrev marks : Bytes → String
marks [] = ""
marks (c ∷ s) = concat (if nat_eq c b'x' then "1" else "0") (marks s)

abbrev pub table_formats : List Record → Formats
table_formats table = record {
  marshal = place table;
  unmarshal = at_place table;
  marshal_params = λ m. some [];
  canonicalize = some;
  sha256_hex = marks;
  bytes_of = codes;
}

same→eq : (r s : Record) → same r s ≡ true → r ≡ s
same→eq r s h =
    let (h11, e11) = &&-eq-true _ _ h in
    let hash : r.hash ≡ s.hash = (eq_iff r.hash s.hash).0 e11 in
    let (h10, e10) = &&-eq-true _ _ h11 in
    let prev_hash : r.prev_hash ≡ s.prev_hash = (eq_iff r.prev_hash s.prev_hash).0 e10 in
    let (h9, e9) = &&-eq-true _ _ h10 in
    let params_digest : r.params_digest ≡ s.params_digest =
      (eq_iff r.params_digest s.params_digest).0 e9 in
    let (h8, e8) = &&-eq-true _ _ h9 in
    let reason : r.reason ≡ s.reason = (eq_iff r.reason s.reason).0 e8 in
    let (h7, e7) = &&-eq-true _ _ h8 in
    let decision : r.decision ≡ s.decision = (eq_iff r.decision s.decision).0 e7 in
    let (h6, e6) = &&-eq-true _ _ h7 in
    let capability : r.capability ≡ s.capability = (eq_iff r.capability s.capability).0 e6 in
    let (h5, e5) = &&-eq-true _ _ h6 in
    let session_id : r.session_id ≡ s.session_id = (eq_iff r.session_id s.session_id).0 e5 in
    let (h4, e4) = &&-eq-true _ _ h5 in
    let caller_id : r.caller_id ≡ s.caller_id = (eq_iff r.caller_id s.caller_id).0 e4 in
    let (h3, e3) = &&-eq-true _ _ h4 in
    let grant_id : r.grant_id ≡ s.grant_id = (eq_iff r.grant_id s.grant_id).0 e3 in
    let (h2, e2) = &&-eq-true _ _ h3 in
    let agent_id : r.agent_id ≡ s.agent_id = (eq_iff r.agent_id s.agent_id).0 e2 in
    let (h1, e1) = &&-eq-true _ _ h2 in
    let ts : r.ts ≡ s.ts = (eq_iff r.ts s.ts).0 e1 in
    let seq : r.seq ≡ s.seq = eq_ℤ→eq r.seq s.seq h1 in
    λ i. record {
      seq = seq i;
      ts = ts i;
      agent_id = agent_id i;
      grant_id = grant_id i;
      caller_id = caller_id i;
      session_id = session_id i;
      capability = capability i;
      decision = decision i;
      reason = reason i;
      params_digest = params_digest i;
      prev_hash = prev_hash i;
      hash = hash i;
    }

place-cons :
    (t : Record) (ts : List Record) (r : Record) (b : Bytes)
    → place (t ∷ ts) r ≡ some b
    → ((b ≡ b'.' ∷ []) × (t ≡ r)) ⊎ ((s : Bytes) × (b ≡ b'x' ∷ s) × (place ts r ≡ some s))
place-cons t ts r b h = elim (Bool-cases (same t r)) [
  | inl e ↦ inl (ground (arith, e, h), same→eq t r e)
  | inr e ↦ elim (Option-cases (place ts r)) [
    | inl f ↦ absurd (ground (arith, e, f, h))
    | inr (s, f) ↦ inr (s, ground (arith, e, f, h), f)
  ]
]

at_place-place :
    (table : List Record) (r : Record) (b : Bytes)
    → place table r ≡ some b
    → at_place table b ≡ some r
at_place-place [] r b h = absurd (cc h)
at_place-place (t ∷ ts) r b h = elim (place-cons t ts r b h) [
  | inl (e, f) ↦ rw e (ap some f)
  | inr (s, e, f) ↦ rw e (at_place-place ts r s f)
]

place-plain :
    (table : List Record) (r : Record) (b : Bytes)
    → place table r ≡ some b
    → All (λ c. (c ≢ b'\n') × (c ≢ b'\r')) b
place-plain [] r b h = absurd (cc h)
place-plain (t ∷ ts) r b h = elim (place-cons t ts r b h) [
  | inl (e, f) ↦ rw e ((omega arith, omega arith), tt)
  | inr (s, e, f) ↦ rw e ((omega arith, omega arith), place-plain ts r s f)
]

place-append :
    (table : List Record) (r r' : Record) (b b' x y : Bytes)
    → place table r ≡ some b
    → place table r' ≡ some b'
    → b ++ x ≡ b' ++ y
    → r ≡ r'
place-append [] r r' b b' x y h h' e = absurd (cc h)
place-append (t ∷ ts) r r' b b' x y h h' e = elim (place-cons t ts r b h) [
  | inl (f, g) ↦ elim (place-cons t ts r' b' h') [
    | inl (f', g') ↦ sym g ∙ g'
    | inr (s', f', g') ↦ absurd (ground (arith, e, f, f'))
  ]
  | inr (s, f, g) ↦ elim (place-cons t ts r' b' h') [
    | inl (f', g') ↦ absurd (ground (arith, e, f, f'))
    | inr (s', f', g') ↦ place-append ts r r' s s' x y g g' (ground (arith, e, f, f'))
  ]
]

pub table-IsCodec : (table : List Record) → IsCodec (table_formats table)
table-IsCodec table = record {
  unmarshal-marshal = at_place-place table;
  marshal_plain = place-plain table;
}

pub table-IsSelfDelimiting : (table : List Record) → IsSelfDelimiting (table_formats table)
table-IsSelfDelimiting table = record {
  read_off = λ r r' b b' k k' x y exact exact' h c h' c' e.
      place-append table r r' b b' x y h h' (cc (c, c', e));
}
