-- ===== src/Audit/Tampering.antt =====
-- What the hash chain gives against tampering, and what it does not.
use Prim.Native.String.{String}
use text.Mathlib.TextLemmas.{append_cancel_left}
use fieldlink.Prelude.{
  ℕ, suc, ◌+◌, ◌^◌, ◌≤◌, ℤ, pos, Bytes, bytes_eq, bytes_eq→ne, bytes_eq→eq, true, List, [], ◌∷◌,
  ◌++◌, some, length, concat, ◌≡◌, ◌≢◌, refl, sym, ap, ◌∙◌, arith, ◌⊎◌, inl, inr, Option-cases,
  Bool-cases, All,
}
use fieldlink.Prelude.Results.{ok}
use fieldlink.Prelude.Lines.{unlines, IsLine, scan_lines-unlines}
use fieldlink.Audit.{Record, Formats, increment, hash_record, max_line, present}
use fieldlink.Audit.Verify.{VerifyResult, verify, intact}
use fieldlink.Audit.Verify.Chained.{
  IsChained, IsIntact, records, decode_all, decode_all-cons_inv, decode_all-cons, last_seq,
  last_hash, verify_complete, verify_sound,
}

-- Two texts with one digest.
pub record Collision (lib : Formats) : Type 0 where
  pub left : Bytes
  pub right : Bytes
  pub differ : left ≢ right
  pub meet : lib.sha256_hex left ≡ lib.sha256_hex right

-- A number that RFC 8785 writes exactly: it goes by way of a double, which has every whole number up
-- to 2 ^ 53.
abbrev pub IsExact : ℤ → Type 0
IsExact seq = (n : ℕ) × (seq ≡ pos n) × (n ≤ 2 ^ 53)

-- What JSON in canonical form documents: the form of a record whose number is exact tells where it ends
-- and what it holds.
pub record IsSelfDelimiting (lib : Formats) : Type 0 where
  pub read_off :
      (r r' : Record) (b b' k k' x y : Bytes)
      → IsExact r.seq
      → IsExact r'.seq
      → lib.marshal r ≡ some b
      → lib.canonicalize b ≡ some k
      → lib.marshal r' ≡ some b'
      → lib.canonicalize b' ≡ some k'
      → k ++ x ≡ k' ++ y
      → r ≡ r'

-- What hashRecord computes, taken apart.
record Hashed (lib : Formats) (r : Record) (hash : String) : Type 0 where
  raw : Bytes
  canonical : Bytes
  marshalled : lib.marshal (record r { hash = "" }) ≡ some raw
  transformed : lib.canonicalize raw ≡ some canonical
  result : concat "sha256:" (lib.sha256_hex (canonical ++ lib.bytes_of r.prev_hash)) ≡ hash

hash_record-Hashed :
    (lib : Formats) (r : Record) (hash : String) → hash_record lib r ≡ some hash → Hashed lib r hash
unfolding hash_record
hash_record-Hashed lib r hash h = elim (Option-cases (lib.marshal (record r { hash = "" }))) [
  | inl e ↦ absurd (ground (arith, e))
  | inr (raw, e) ↦ elim (Option-cases (lib.canonicalize raw)) [
    | inl f ↦ absurd (ground (arith, e, f))
    | inr (canonical, f) ↦ record {
      raw = raw;
      canonical = canonical;
      marshalled = e;
      transformed = f;
      result = ground (arith, e, f);
    }
  ]
]

increment_exact : (n : ℕ) (seq : ℤ) → seq ≡ pos n → n ≤ 2 ^ 53 → increment seq ≡ pos (suc n)
unfolding increment
increment_exact n seq h k = ground (arith, h)

module _ (lib : Formats) (json : IsSelfDelimiting lib) where
  -- Equal hashes come from equal records, or from a collision.
  same_hash :
      (r r' : Record)
      → IsExact r.seq
      → IsExact r'.seq
      → hash_record lib r ≡ some r.hash
      → hash_record lib r' ≡ some r'.hash
      → r.hash ≡ r'.hash
      → (r ≡ r') ⊎ Collision lib
  same_hash r r' exact exact' h h' e =
      let p = hash_record-Hashed lib r r.hash h in
      let q = hash_record-Hashed lib r' r'.hash h' in
      let x : Bytes = p.canonical ++ lib.bytes_of r.prev_hash in
      let y : Bytes = q.canonical ++ lib.bytes_of r'.prev_hash in
      let digests : lib.sha256_hex x ≡ lib.sha256_hex y =
        append_cancel_left "sha256:" _ _ (p.result ∙ (e ∙ sym q.result)) in
      elim (Bool-cases (bytes_eq x y)) [
        | inl same ↦
            let bare =
              json.read_off (record r { hash = "" }) (record r' { hash = "" }) p.raw q.raw
                p.canonical q.canonical (lib.bytes_of r.prev_hash) (lib.bytes_of r'.prev_hash) exact
                exact' p.marshalled p.transformed q.marshalled q.transformed
                (bytes_eq→eq x y same) in
            inl (λ i. record (bare i) { hash = e i })
        | inr other ↦
            inr (record { left = x; right = y; differ = bytes_eq→ne x y other; meet = digests })
      ]

  same_chain :
      (n : ℕ) (seq : ℤ) (prev prev' : String) (rs rs' : List Record)
      → seq ≡ pos n
      → n + length rs ≤ 2 ^ 53
      → IsChained lib seq prev rs
      → IsChained lib seq prev' rs'
      → length rs ≡ length rs'
      → last_hash prev rs ≡ last_hash prev' rs'
      → (rs ≡ rs') × (prev ≡ prev') ⊎ Collision lib
  same_chain n seq prev prev' [] [] count fits h h' same e = inl (refl, e)
  same_chain n seq prev prev' [] (r' ∷ rs') count fits h h' same e = absurd (omega arith)
  same_chain n seq prev prev' (r ∷ rs) [] count fits h h' same e = absurd (omega arith)
  same_chain n seq prev prev' (r ∷ rs) (r' ∷ rs') count fits (a, b, c, h) (a', b', c', h') same e =
      let next : increment seq ≡ pos (suc n) = increment_exact n seq count (omega arith) in
      let up_to : suc n ≤ 2 ^ 53 = omega arith in
      elim (same_chain (suc n) (increment seq) r.hash r'.hash rs rs' next (omega arith) h h'
        (omega arith) e) [
          | inr x ↦ inr x
          | inl (later, hashes) ↦
              elim (same_hash r r' (suc n, a ∙ next, up_to) (suc n, a' ∙ next, up_to) c c' hashes) [
                | inr x ↦ inr x
                | inl one ↦ inl ((λ i. one i ∷ later i), sym b ∙ (ap (λ k. k.prev_hash) one ∙ b'))
              ]
        ]

  -- Two intact logs with as many records, at most 2 ^ 53, and the same last hash hold the same records,
  -- or there are two different texts with the same SHA-256 digest; canonical JSON is taken to delimit
  -- itself, and to tell records apart whose numbers are at most 2 ^ 53.
  pub tamper_evident :
      (text text' : Bytes) (rs rs' : List Record)
      → IsIntact lib text rs
      → IsIntact lib text' rs'
      → length rs ≤ 2 ^ 53
      → length rs ≡ length rs'
      → last_hash "" rs ≡ last_hash "" rs'
      → (rs ≡ rs') ⊎ Collision lib
  tamper_evident text text' rs rs' i i' fits n e =
      elim (same_chain 0 (pos 0) "" "" rs rs' refl (omega arith) i.chained i'.chained n e) [
        | inl p ↦ inl p.0
        | inr x ↦ inr x
      ]

-- The records of the first lines of a chain are a chain.
chain_prefix :
    (lib : Formats) (seq : ℤ) (prev : String) (ls ms : List Bytes) (rs : List Record)
    → decode_all lib (ls ++ ms) ≡ some rs
    → IsChained lib seq prev rs
    → (qs : List Record) × (decode_all lib ls ≡ some qs) × IsChained lib seq prev qs
chain_prefix lib seq prev [] ms rs h c = ([], unfold decode_all in refl, tt)
chain_prefix lib seq prev (l ∷ ls) ms [] h c =
    let (r, qs, e, f, g) = decode_all-cons_inv lib l (ls ++ ms) h in absurd (cc)
chain_prefix lib seq prev (l ∷ ls) ms (r ∷ rs) h (a, b, d, c) =
    let (r', ps, e, f, g) = decode_all-cons_inv lib l (ls ++ ms) h in
    let e' : lib.unmarshal l ≡ some r = cc in
    let f' : decode_all lib (ls ++ ms) ≡ some rs = cc in
    let (qs, i, j) = chain_prefix lib (increment seq) r.hash ls ms rs f' c in
    (r ∷ qs, decode_all-cons lib l ls r e' i, (a, b, d, j))

All-prefix : (ls ms : List Bytes) → All (IsLine max_line) (ls ++ ms) → All (IsLine max_line) ls
All-prefix [] ms h = tt
All-prefix (l ∷ ls) ms (p, h) = (p, All-prefix ls ms h)

unlines-records :
    (lib : Formats) (ls : List Bytes)
    → All (IsLine max_line) ls
    → records lib (unlines ls) ≡ decode_all lib ls
unfolding records
unlines-records lib ls h = rw (scan_lines-unlines max_line ls h)

-- A log of whole lines, none too long for the reader, that Verify accepts is still accepted when
-- lines are cut off its end.
pub truncation_accepted :
    (lib : Formats) (ls ms : List Bytes) (res : VerifyResult)
    → All (IsLine max_line) (ls ++ ms)
    → verify lib (present (unlines (ls ++ ms))) ≡ ok res
    → res.is_ok ≡ true
    → (n : ℤ) × (verify lib (present (unlines ls)) ≡ ok (intact n))
truncation_accepted lib ls ms res plain h k =
    let (rs, i, n) = verify_sound lib (unlines (ls ++ ms)) res h k in
    let (qs, d, c) =
      chain_prefix lib (pos 0) "" ls ms rs (sym (unlines-records lib (ls ++ ms) plain) ∙ i.decoded)
        i.chained in
    (
      last_seq (pos 0) qs,
      verify_complete lib (unlines ls) qs
          (record { decoded = unlines-records lib ls (All-prefix ls ms plain) ∙ d; chained = c }),
    )
