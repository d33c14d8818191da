-- ===== src/Audit/Session.antt =====
-- internal/audit across appends and restarts: a log that only Open and Append have written is one
-- unbroken chain, whatever the order of appends and restarts.
pub mod Sync
pub mod Resume
use fieldlink.Prelude.{
  ℕ, zero, suc, ◌+◌, ◌≤◌, ◌<◌, ℤ, pos, String, Bytes, Bool, true, false, List, [], ◌∷◌, ◌++◌,
  Option, none, some, take, length, length-append, All, All-append, ◌≡◌, ◌≢◌, refl, sym, ap, ◌∙◌,
  arith, Option-cases, Bool-cases, inl, inr, append-nil,
}
use fieldlink.Prelude.Results.{Result, ok, err, Result-cases, ◌>>=◌}
use fieldlink.Prelude.Lines.{scan_lines, scan_lines-unlines, unlines, unlines-append, IsLine}
use fieldlink.Audit.{
  Record, Formats, Chain, Entry, Written, whole, increment, hash_record, next_record, line_of,
  write_line, append, max_line, Opened, missing, present, last_of, last_record, open_chain,
}
use fieldlink.Audit.Verify.{verify, intact}
use fieldlink.Audit.Verify.Chained.{
  IsChained, decode_all, decode_all-cons, decode_all-cons_inv, records, last_seq, last_hash,
  IsIntact, verify_complete,
}
use fieldlink.Audit.Session.Sync.{
  IsCodec, InSync, InSync-IsIntact, Appended, append-Appended, append-InSync, last_seq-append,
}
use fieldlink.Audit.Session.Resume.{resume_chain, open_chain-resume_chain, resume_chain-InSync}

-- The number of the n-th record.
abbrev pub nth_seq : ℕ → ℤ
nth_seq zero = pos 0
nth_seq (suc n) = increment (nth_seq n)

-- The chains that a run can hold after `n` successful appends, with restarts between them. Each
-- line fits in the reader's buffer, and no write fails.
pub data Reach (lib : Formats) : ℕ → Chain → Type 0 where
  created :
      {c : Chain} (agent_id : String) (writable : Bool) (drawn : Option String)
      → open_chain lib missing agent_id writable drawn ≡ ok c
      → Reach lib zero c
  appended :
      {n : ℕ} {c : Chain} (e : Entry)
      → Reach lib n c
      → (append lib whole e c).1 ≡ true
      → length (append lib whole e c).0.file ≤ length c.file + max_line
      → Reach lib (suc n) (append lib whole e c).0
  reopened :
      {n : ℕ} {c c' : Chain} (agent_id : String) (writable : Bool) (drawn : Option String)
      → Reach lib n c
      → open_chain lib (present c.file) agent_id writable drawn ≡ ok c'
      → Reach lib n c'

pub record Synced (lib : Formats) (n : ℕ) (c : Chain) : Type 0 where
  pub ls : List Bytes
  pub rs : List Record
  pub sync : InSync lib c ls rs
  pub size : length ls ≡ n
  pub count : last_seq (pos 0) rs ≡ nth_seq n

module _ (lib : Formats) (codec : IsCodec lib) where
  -- A new log is empty.
  created-Synced :
      {c : Chain} (agent_id session_id : String)
      → resume_chain lib missing agent_id session_id ≡ ok c
      → Synced lib zero c
  unfolding resume_chain
  created-Synced agent_id session_id h = record {
    ls = [];
    rs = [];
    sync = record {
      whole_lines = ground arith;
      fitting = tt;
      decoded = unfold decode_all in refl;
      chained = tt;
      seq = ground arith;
      prev_hash = ground arith;
    };
    size = refl;
    count = refl;
  }

  pub Reach-Synced : {n : ℕ} {c : Chain} → Reach lib n c → Synced lib n c
  Reach-Synced (created {c} agent_id writable drawn h) =
      let (session_id, k) = open_chain-resume_chain lib missing agent_id writable drawn c h in
      created-Synced agent_id session_id k
  Reach-Synced (appended {n} {c} e r h fits) =
      let s = Reach-Synced r in
      let a = append-Appended lib e c h in
      let short : length a.line < max_line = omega (
        arith,
        fits,
        ap (λ k. length k.file) a.result,
        length-append {0} c.file (line_of a.line),
        length-append {0} a.line (b'\n' ∷ []),
      ) in
      let rec : Record = record (next_record c e) { hash = a.hash } in
      record {
        ls = s.ls ++ a.line ∷ [];
        rs = s.rs ++ rec ∷ [];
        sync = append-InSync lib codec e c (append lib whole e c).0 s.ls s.rs a short s.sync;
        size = omega (arith, length-append {0} s.ls (a.line ∷ []), s.size);
        count = last_seq-append (pos 0) s.rs rec ∙ ap increment s.count;
      }
  Reach-Synced (reopened {c} {c'} agent_id writable drawn r h) =
      let s = Reach-Synced r in
      let (session_id, k) =
        open_chain-resume_chain lib (present c.file) agent_id writable drawn c' h in
      record {
        ls = s.ls;
        rs = s.rs;
        sync = resume_chain-InSync lib agent_id session_id c c' s.ls s.rs s.sync k;
        size = s.size;
        count = s.count;
      }

  -- After any run of appends that succeed, each line fitting in the reader's buffer, and of restarts,
  -- Verify accepts the log and counts every append, where JSON is read back as it was written.
  pub Reach-verify :
      (n : ℕ) (c : Chain) → Reach lib n c → verify lib (present c.file) ≡ ok (intact (nth_seq n))
  Reach-verify n c r =
      let s = Reach-Synced r in
      verify_complete lib c.file s.rs (InSync-IsIntact lib c s.ls s.rs s.sync)
      ∙ ap (λ k. ok (intact k)) s.count
