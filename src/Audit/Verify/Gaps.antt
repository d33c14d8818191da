-- ===== src/Audit/Verify/Gaps.antt =====
-- What a write that fails does to the log: Append has counted the record that it could not write.
use fieldlink.Prelude.{
  ℕ, suc, ◌+◌, ◌≤◌, ℤ, pos, eq_ℤ, String, Bytes, Bool, true, false, List, [], ◌∷◌, ◌++◌, some,
  length, length-append, All-append, ◌<◌, ◌≡◌, sym, ap, ◌∙◌, arith, append-nil,
}
use fieldlink.Prelude.Results.{ok}
use fieldlink.Prelude.Lines.{scan_lines, scan_lines-unlines, unlines, unlines-append, IsLine}
use fieldlink.Audit.{
  Record, Formats, Chain, Entry, whole, failed_after, increment, hash_record, line_of, next_record,
  append, present, max_line,
}
use fieldlink.Audit.Verify.{verify, walk, check, broken, wrong_seq}
use fieldlink.Audit.Verify.Chained.{
  IsChained, decode_all, check_complete, decode_all-cons_inv, last_seq, last_hash,
}
use fieldlink.Audit.Session.{Reach, nth_seq, Reach-Synced}
use fieldlink.Audit.Session.Sync.{IsCodec, Appended, append-Appended}

increment_ne : (n : ℤ) → eq_ℤ (increment n) n ≡ false
unfolding increment
increment_ne n = ground arith

-- A call of Append whose write fails with nothing written moves the counter and nothing else.
pub append_failed :
    (lib : Formats) (e : Entry) (c : Chain)
    → append lib (failed_after 0) e c ≡ (record c { seq = increment c.seq }, false)
unfolding append
append_failed lib e c = ground (arith, append-nil c.file)

walk-cons :
    (lib : Formats) (line : ℕ) (seq : ℤ) (prev : String) (l : Bytes) (ls : List Bytes)
    (failed : Bool) (r : Record)
    → lib.unmarshal l ≡ some r
    → r.seq ≡ increment seq
    → r.prev_hash ≡ prev
    → hash_record lib r ≡ some r.hash
    → walk lib line seq prev (l ∷ ls) failed ≡ walk lib (line + 1) (increment seq) r.hash ls failed
unfolding walk
walk-cons lib line seq prev l ls failed r e a b d =
    rw (e, walk) (check_complete lib seq (increment seq) (line + 1) prev r _ a b d)

-- The walk over the lines of a chain goes on behind them.
walk-append :
    (lib : Formats) (line : ℕ) (seq : ℤ) (prev : String) (ls ms : List Bytes) (failed : Bool)
    (rs : List Record)
    → decode_all lib ls ≡ some rs
    → IsChained lib seq prev rs
    → walk lib line seq prev (ls ++ ms) failed
      ≡ walk lib (line + length ls) (last_seq seq rs) (last_hash prev rs) ms failed
walk-append lib line seq prev [] ms failed [] h c =
    ap (λ n. walk lib n seq prev ms failed) (omega arith)
walk-append lib line seq prev [] ms failed (r ∷ rs) h c = absurd (unfold decode_all in cc)
walk-append lib line seq prev (l ∷ ls) ms failed [] h c =
    let (r, qs, e, f, g) = decode_all-cons_inv lib l ls h in absurd (cc)
walk-append lib line seq prev (l ∷ ls) ms failed (r ∷ rs) h (a, b, d, c) =
    let (r', qs, e, f, g) = decode_all-cons_inv lib l ls h in
    let e' : lib.unmarshal l ≡ some r = cc in
    let f' : decode_all lib ls ≡ some rs = cc in
    walk-cons lib line seq prev l (ls ++ ms) failed r e' a b d
    ∙ (walk-append lib (line + 1) (increment seq) r.hash ls ms failed rs f' c
        ∙ ap (λ n. walk lib n (last_seq (increment seq) rs) (last_hash r.hash rs) ms failed)
            (omega arith))

-- A record that does not carry the next number ends the walk.
walk_gap :
    (lib : Formats) (line n : ℕ) (seq q : ℤ) (prev : String) (l : Bytes) (r : Record)
    → lib.unmarshal l ≡ some r
    → line ≡ n
    → seq ≡ q
    → r.seq ≡ increment (increment q)
    → walk lib line seq prev (l ∷ []) false
      ≡ ok (
          broken q
            (increment (increment q))
            (n + 1)
            (wrong_seq (increment q) (increment (increment q))))
unfolding walk check
walk_gap lib line n seq q prev l r e f g h =
    rw (f, g) (ground (arith, e, h, increment_ne (increment q)))

module _ (lib : Formats) (codec : IsCodec lib) where
  gap_Synced :
      (n : ℕ) (c : Chain) (e : Entry) {c' : Chain}
      → Reach lib n c
      → (a : Appended lib e (record c { seq = increment c.seq }) c') → length a.line < max_line
      → verify lib (present c'.file)
        ≡ ok (
            broken
              (nth_seq n)
              (nth_seq (suc (suc n)))
              (n + 1)
              (wrong_seq (nth_seq (suc n)) (nth_seq (suc (suc n)))))
  unfolding verify next_record
  gap_Synced n c e {c'} reach a short =
      let s = Reach-Synced lib codec reach in
      let r : Record = record (next_record (record c { seq = increment c.seq }) e) {
        hash = a.hash;
      } in
      let whole_lines : c'.file ≡ unlines (s.ls ++ a.line ∷ []) =
        ap (λ k. k.file) a.result
        ∙ (ap (λ t. t ++ line_of a.line) s.sync.whole_lines
            ∙ sym (unlines-append s.ls (a.line ∷ []))) in
      let scanned : scan_lines max_line c'.file ≡ (s.ls ++ a.line ∷ [], false) =
        ap (scan_lines max_line) whole_lines
        ∙ scan_lines-unlines max_line (s.ls ++ a.line ∷ []) (
            All-append (IsLine max_line) s.ls (a.line ∷ []) s.sync.fitting
              (record { plain = codec.marshal_plain r a.line a.marshalled; short = short }, tt)) in
      ap (λ (p : List Bytes × Bool). walk lib 0 (pos 0) "" p.0 p.1) scanned
      ∙ (walk-append lib 0 (pos 0) "" s.ls (a.line ∷ []) false s.rs s.sync.decoded s.sync.chained
          ∙ walk_gap lib (0 + length s.ls) n (last_seq (pos 0) s.rs) (nth_seq n) (last_hash "" s.rs)
              a.line r (codec.unmarshal-marshal r a.line a.marshalled) (omega (arith, s.size))
              s.count (ap (λ k. increment (increment k)) (s.sync.seq ∙ s.count)))

  -- After an Append whose write fails with nothing written, the next Append that succeeds, its line
  -- being short enough to be read back, leaves a log that Verify reports as broken at that line,
  -- for its sequence number.
  pub failed_write_breaks :
      (n : ℕ) (c c' d : Chain) (failing e : Entry)
      → Reach lib n c
      → append lib (failed_after 0) failing c ≡ (c', false)
      → append lib whole e c' ≡ (d, true)
      → length d.file ≤ length c'.file + max_line
      → verify lib (present d.file)
        ≡ ok (
            broken
              (nth_seq n)
              (nth_seq (suc (suc n)))
              (n + 1)
              (wrong_seq (nth_seq (suc n)) (nth_seq (suc (suc n)))))
  failed_write_breaks n c c' d failing e reach f g fits =
      let c₁ : Chain = record c { seq = increment c.seq } in
      let moved : c' ≡ c₁ = ap (λ p. p.0) (sym f ∙ append_failed lib failing c) in
      let g₁ : append lib whole e c₁ ≡ (d, true) = ap (append lib whole e) (sym moved) ∙ g in
      let a = append-Appended lib e c₁ (ap (λ p. p.1) g₁) in
      let written : (append lib whole e c₁).0 ≡ d = ap (λ p. p.0) g₁ in
      let short : length a.line < max_line = omega (
        arith,
        fits,
        ap (λ k. length k.file) moved,
        ap (λ k. length k.file) (sym a.result ∙ written),
        length-append {0} c.file (line_of a.line),
        length-append {0} a.line (b'\n' ∷ []),
      ) in
      ap (λ k. verify lib (present k.file)) (sym written) ∙ gap_Synced n c e reach a short
