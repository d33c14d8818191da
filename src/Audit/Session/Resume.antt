-- ===== src/Audit/Session/Resume.antt =====
-- Open on a log that agrees with a chain goes on from the log's end.
use fieldlink.Prelude.{
  ℤ, pos, String, Bytes, Bool, false, List, [], ◌∷◌, Option, none, some, ◌≡◌, refl, ap, ◌∙◌, arith,
  Option-cases, Bool-cases, inl, inr,
}
use fieldlink.Prelude.Results.{Result, ok, ◌>>=◌, Result-cases}
use fieldlink.Prelude.Lines.{scan_lines, scan_lines-unlines}
use fieldlink.Audit.{
  Record, Formats, Chain, Opened, LogError, increment, max_line, present, last_of, last_record,
  open_chain, chain_from,
}
use fieldlink.Audit.Verify.Chained.{IsChained, decode_all, decode_all-cons_inv, last_seq, last_hash}
use fieldlink.Audit.Session.Sync.{InSync}

-- The last of some records, or the one that stood before them.
last_or : Option Record → List Record → Option Record
last_or o [] = o
last_or o (r ∷ rs) = last_or (some r) rs

last_of-decoded :
    (lib : Formats) (ls : List Bytes) (rs : List Record) (o : Option Record)
    → decode_all lib ls ≡ some rs
    → last_of lib ls o ≡ last_or o rs
unfolding last_of last_or
last_of-decoded lib [] [] o h = refl
last_of-decoded lib [] (r ∷ rs) o h = absurd (unfold decode_all in cc)
last_of-decoded lib (l ∷ ls) rs o h =
    let (r, qs, e, f, g) = decode_all-cons_inv lib l ls h in
    rw (g, e) (last_of-decoded lib ls qs (some r) f)

-- What a chain that resumes after a record starts from.
abbrev pub seq_after : Option Record → ℤ
seq_after none = pos 0
seq_after (some r) = r.seq

abbrev pub hash_after : Option Record → String
hash_after none = ""
hash_after (some r) = r.hash

seq_after-last_or :
    (lib : Formats) (seq : ℤ) (prev : String) (o : Option Record) (rs : List Record)
    → IsChained lib seq prev rs
    → seq_after o ≡ seq
    → hash_after o ≡ prev
    → (seq_after (last_or o rs) ≡ last_seq seq rs) × (hash_after (last_or o rs) ≡ last_hash prev rs)
unfolding last_or
seq_after-last_or lib seq prev o [] h a b = (a, b)
seq_after-last_or lib seq prev o (r ∷ rs) (x, y, z, h) a b =
    seq_after-last_or lib (increment seq) r.hash (some r) rs h x refl

-- Open where nothing fails but the reading of the log.
unfoldable pub resume_chain : Formats → Opened → String → String → Result LogError Chain
unfolding last_record
resume_chain lib opened agent_id session_id = do
  last ← last_record lib opened
  ok (chain_from opened agent_id session_id last)

-- An Open that succeeds drew a session id and read the log.
pub open_chain-resume_chain :
    (lib : Formats) (opened : Opened) (agent_id : String) (writable : Bool) (drawn : Option String)
    (c : Chain)
    → open_chain lib opened agent_id writable drawn ≡ ok c
    → (session_id : String) × (resume_chain lib opened agent_id session_id ≡ ok c)
unfolding open_chain resume_chain
open_chain-resume_chain lib opened agent_id writable drawn c h =
    elim (Result-cases (last_record lib opened)) [
      | inr (x, e) ↦ absurd (ground (arith, e, h))
      | inl (last, e) ↦ elim (Bool-cases writable) [
        | inr f ↦ absurd (ground (arith, e, f, h))
        | inl f ↦ elim (Option-cases drawn) [
          | inl g ↦ absurd (ground (arith, e, f, g, h))
          | inr (session_id, g) ↦ (session_id, ground (arith, e, f, g, h))
        ]
      ]
    ]

module _ (lib : Formats) (agent_id session_id : String) where
  resume_chain-present :
      (text : Bytes) (ls : List Bytes)
      → scan_lines max_line text ≡ (ls, false)
      → (c : Chain) × (resume_chain lib (present text) agent_id session_id ≡ ok c)
        × (c.file ≡ text)
        × (c.seq ≡ seq_after (last_of lib ls none))
        × (c.prev_hash ≡ hash_after (last_of lib ls none))
  unfolding resume_chain
  resume_chain-present text ls h = elim (Option-cases (last_of lib ls none)) [
    | inl e ↦ rw e (
      record {
        file = text;
        agent_id = agent_id;
        session_id = session_id;
        seq = pos 0;
        prev_hash = "";
      },
      ground (arith, h, e),
      refl,
      refl,
      refl,
    )
    | inr (r, e) ↦ rw e (
      record {
        file = text;
        agent_id = agent_id;
        session_id = session_id;
        seq = r.seq;
        prev_hash = r.hash;
      },
      ground (arith, h, e),
      refl,
      refl,
      refl,
    )
  ]

  -- A restart on an intact log goes on from its end.
  pub resume_chain-InSync :
      (c c' : Chain) (ls : List Bytes) (rs : List Record)
      → InSync lib c ls rs
      → resume_chain lib (present c.file) agent_id session_id ≡ ok c'
      → InSync lib c' ls rs
  resume_chain-InSync c c' ls rs s h =
      let (k, e, f, g, i) =
        resume_chain-present c.file ls
          (ap (scan_lines max_line) s.whole_lines ∙ scan_lines-unlines max_line ls s.fitting) in
      let same : c' ≡ k = cc (h, e) in
      let (m, n) = seq_after-last_or lib (pos 0) "" none rs s.chained refl refl in
      let l : last_of lib ls none ≡ last_or none rs = last_of-decoded lib ls rs none s.decoded in
      record {
        whole_lines = ap (λ x. x.file) same ∙ (f ∙ s.whole_lines);
        fitting = s.fitting;
        decoded = s.decoded;
        chained = s.chained;
        seq = ap (λ x. x.seq) same ∙ (g ∙ (ap seq_after l ∙ m));
        prev_hash = ap (λ x. x.prev_hash) same ∙ (i ∙ (ap hash_after l ∙ n));
      }
