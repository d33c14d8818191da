-- ===== src/Audit/Verify/Chained.antt =====
-- When a log is an unbroken chain, said without the code, and that Verify accepts exactly these.
use fieldlink.Prelude.{
  ℕ, ◌+◌, ℤ, pos, eq_ℤ, String, Bytes, Bool, true, false, List, [], ◌∷◌, Option, none, some,
  if◌then◌else◌, ◌≡◌, refl, ◌↔◌, ◌∙◌, arith, eq_iff, eq_refl, Bool-cases, Option-cases, inl, inr,
}
use fieldlink.Prelude.Results.{Result, ok}
use fieldlink.Prelude.Lines.{scan_lines}
use fieldlink.Audit.{Record, Formats, increment, hash_record, max_line, present, LogError}
use fieldlink.Audit.Verify.{VerifyResult, intact, walk, check, verify}

-- Each record carries the next number, its predecessor's hash, and the hash of its own contents.
abbrev pub IsChained : Formats → ℤ → String → List Record → Type 0
IsChained lib seq prev [] = Unit
IsChained lib seq prev (r ∷ rs) =
    (r.seq ≡ increment seq)
    × (r.prev_hash ≡ prev)
    × (hash_record lib r ≡ some r.hash)
    × IsChained lib (increment seq) r.hash rs

-- The records of a log's lines; `none` where a line is no record.
unfoldable pub decode_all : Formats → List Bytes → Option (List Record)
decode_all lib [] = some []
decode_all lib (l ∷ ls) =
    let rest = decode_all lib ls in
    elim (lib.unmarshal l) [
      | none ↦ none
      | some r ↦ elim rest [ none ↦ none | some rs ↦ some (r ∷ rs) ]
    ]

-- The records of a log; `none` where a line does not fit in the scanner's buffer or is no record.
unfoldable pub records : Formats → Bytes → Option (List Record)
records lib text =
    let scanned = scan_lines max_line text in if scanned.1 then none else decode_all lib scanned.0

-- The number and the hash that the next record builds on.
abbrev pub last_seq : ℤ → List Record → ℤ
last_seq seq [] = seq
last_seq seq (r ∷ rs) = last_seq (increment seq) rs

abbrev pub last_hash : String → List Record → String
last_hash prev [] = prev
last_hash prev (r ∷ rs) = last_hash r.hash rs

pub eq_ℤ→eq : (a b : ℤ) → eq_ℤ a b ≡ true → a ≡ b
eq_ℤ→eq a b h = ground arith

module _ (lib : Formats) where
  check_sound :
      (count expected : ℤ) (line : ℕ) (prev : String) (rec : Record)
      (k : Result LogError VerifyResult) {res : VerifyResult}
      → check lib count expected line prev rec k ≡ ok res
      → res.is_ok ≡ true
      → (rec.seq ≡ expected)
        × (rec.prev_hash ≡ prev)
        × (hash_record lib rec ≡ some rec.hash)
        × (k ≡ ok res)
  unfolding check
  check_sound count expected line prev rec k h ok_lem = elim (Option-cases (hash_record lib rec)) [
    | inl none_lem ↦ ground (arith, none_lem, eq_ℤ→eq rec.seq expected, eq_iff rec.prev_hash prev)
    | inr (computed, e) ↦
        ground
          (arith, e, eq_ℤ→eq rec.seq expected, eq_iff rec.prev_hash prev, eq_iff computed rec.hash)
  ]

  pub check_complete :
      (count expected : ℤ) (line : ℕ) (prev : String) (rec : Record)
      (k : Result LogError VerifyResult)
      → rec.seq ≡ expected
      → rec.prev_hash ≡ prev
      → hash_record lib rec ≡ some rec.hash
      → check lib count expected line prev rec k ≡ k
  unfolding check
  check_complete count expected line prev rec k a b h =
      rw (← a, ← b, h) (ground (arith, eq_refl rec.prev_hash, eq_refl rec.hash))

  pub decode_all-cons :
      (l : Bytes) (ls : List Bytes) (r : Record) {rs : List Record}
      → lib.unmarshal l ≡ some r
      → decode_all lib ls ≡ some rs
      → decode_all lib (l ∷ ls) ≡ some (r ∷ rs)
  unfolding decode_all
  decode_all-cons l ls r e f = ground (arith, e, f)

  walk_sound :
      (line : ℕ) (seq : ℤ) (prev : String) (ls : List Bytes) (failed : Bool) (res : VerifyResult)
      → walk lib line seq prev ls failed ≡ ok res
      → res.is_ok ≡ true
      → (rs : List Record) × (failed ≡ false)
        × (decode_all lib ls ≡ some rs)
        × IsChained lib seq prev rs
        × (res.record_count ≡ last_seq seq rs)
  unfolding walk
  walk_sound line seq prev [] true res h k = cc
  walk_sound line seq prev [] false res h k =
      ([], refl, unfold decode_all in refl, tt, ground arith)
  walk_sound line seq prev (l ∷ ls) failed res h k = elim (Option-cases (lib.unmarshal l)) [
    | inl e ↦ absurd (ground (arith, e))
    | inr (rec, e) ↦
        let rest = walk lib (line + 1) (increment seq) rec.hash ls failed in
        let (a, b, c, d) =
          check_sound seq (increment seq) (line + 1) prev rec rest {res = res} (rw (e, walk) at h)
            k in
        let (rs, f, g, i, j) = walk_sound (line + 1) (increment seq) rec.hash ls failed res d k in
        (rec ∷ rs, f, decode_all-cons l ls rec e g, (a, b, c, i), j)
  ]

  -- Taken apart, a decoded log has a decoded first line.
  pub decode_all-cons_inv :
      (l : Bytes) (ls : List Bytes) {rs : List Record}
      → decode_all lib (l ∷ ls) ≡ some rs
      → (r : Record) × (qs : List Record) × (lib.unmarshal l ≡ some r)
        × (decode_all lib ls ≡ some qs)
        × (rs ≡ r ∷ qs)
  unfolding decode_all
  decode_all-cons_inv l ls h = elim (Option-cases (lib.unmarshal l)) [
    | inl e ↦ absurd (ground (arith, e))
    | inr (r, e) ↦ elim (Option-cases (decode_all lib ls)) [
      | inl f ↦ absurd (ground (arith, e, f))
      | inr (qs, f) ↦ (r, qs, e, f, ground (arith, e, f))
    ]
  ]

  walk_complete :
      (line : ℕ) (seq : ℤ) (prev : String) (ls : List Bytes) (rs : List Record)
      → decode_all lib ls ≡ some rs
      → IsChained lib seq prev rs
      → walk lib line seq prev ls false ≡ ok (intact (last_seq seq rs))
  unfolding walk
  walk_complete line seq prev [] [] h c = refl
  walk_complete line seq prev [] (r ∷ rs) h c = absurd (unfold decode_all in cc)
  walk_complete line seq prev (l ∷ ls) [] h c =
      let (r, qs, e, f, g) = decode_all-cons_inv l ls h in absurd (cc)
  walk_complete line seq prev (l ∷ ls) (r ∷ rs) h (a, b, d, c) =
      let (r', qs, e, f, g) = decode_all-cons_inv l ls h in
      let e' : lib.unmarshal l ≡ some r = cc in
      let f' : decode_all lib ls ≡ some rs = cc in
      rw (e', walk)
        (check_complete seq (increment seq) (line + 1) prev r _ a b d
          ∙ walk_complete (line + 1) (increment seq) r.hash ls rs f' c)

  -- What a log amounts to: its records form one chain from the start.
  pub record IsIntact (text : Bytes) (rs : List Record) : Type 0 where
    pub decoded : records lib text ≡ some rs
    pub chained : IsChained lib (pos 0) "" rs

  -- The log whose records form a chain is accepted, with their number as the count.
  pub verify_complete :
      (text : Bytes) (rs : List Record)
      → IsIntact text rs
      → verify lib (present text) ≡ ok (intact (last_seq (pos 0) rs))
  unfolding verify records
  verify_complete text rs i = elim (Bool-cases (scan_lines max_line text).1) [
    | inl e ↦ absurd (ground (arith, e, i.decoded))
    | inr e ↦
        rw e
          (walk_complete 0 (pos 0) "" (scan_lines max_line text).0 rs (rw e at i.decoded) i.chained)
  ]

  -- A log that is accepted is a chain of records, and the count is their number.
  pub verify_sound :
      (text : Bytes) (res : VerifyResult)
      → verify lib (present text) ≡ ok res
      → res.is_ok ≡ true
      → (rs : List Record) × IsIntact text rs × (res.record_count ≡ last_seq (pos 0) rs)
  unfolding verify records
  verify_sound text res h k =
      let (rs, f, g, c, n) =
        walk_sound 0 (pos 0) "" (scan_lines max_line text).0 (scan_lines max_line text).1 res h k in
      (rs, record { decoded = rw f g; chained = c }, n)

  -- Verify accepts a log exactly when its lines are the records of one unbroken chain.
  pub verify_iff :
      (text : Bytes)
      → ((res : VerifyResult) × (verify lib (present text) ≡ ok res) × (res.is_ok ≡ true))
        ↔ ((rs : List Record) × IsIntact text rs)
  verify_iff text = (
    (λ p. let (rs, i, n) = verify_sound text p.0 p.1 p.2 in (rs, i)),
    (λ p. (intact (last_seq (pos 0) p.0), verify_complete text p.0 p.1, refl)),
  )
