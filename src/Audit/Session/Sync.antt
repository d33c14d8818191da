-- ===== src/Audit/Session/Sync.antt =====
-- The agreement of a Chain with its file, and that Append keeps it.
use fieldlink.Prelude.{
  ◌<◌, ℤ, pos, String, Bytes, true, false, List, [], ◌∷◌, ◌++◌, some, length, All, All-append, ◌≡◌,
  ◌≢◌, refl, sym, ap, ◌∙◌, arith, Option-cases, inl, inr,
}
use fieldlink.Prelude.Lines.{scan_lines, scan_lines-unlines, unlines, unlines-append, IsLine}
use fieldlink.Audit.{
  Record, Formats, Chain, Entry, whole, increment, hash_record, next_record, line_of, append,
  max_line,
}
use fieldlink.Audit.Verify.Chained.{
  IsChained, decode_all, decode_all-cons, decode_all-cons_inv, records, last_seq, last_hash,
  IsIntact,
}

-- What encoding/json documents: what it writes it reads back, and it escapes control characters.
pub record IsCodec (lib : Formats) : Type 0 where
  pub unmarshal-marshal :
      (r : Record) (b : Bytes) → lib.marshal r ≡ some b → lib.unmarshal b ≡ some r
  pub marshal_plain :
      (r : Record) (b : Bytes) → lib.marshal r ≡ some b → All (λ c. (c ≢ b'\n') × (c ≢ b'\r')) b

-- The chain object agrees with its file, whose lines `ls` are the records `rs`.
pub record InSync (lib : Formats) (c : Chain) (ls : List Bytes) (rs : List Record) : Type 0 where
  pub whole_lines : c.file ≡ unlines ls
  pub fitting : All (IsLine max_line) ls
  pub decoded : decode_all lib ls ≡ some rs
  pub chained : IsChained lib (pos 0) "" rs
  pub seq : c.seq ≡ last_seq (pos 0) rs
  pub prev_hash : c.prev_hash ≡ last_hash "" rs

decode_all-append :
    (lib : Formats) (ls : List Bytes) (l : Bytes) (rs : List Record) (r : Record)
    → decode_all lib ls ≡ some rs
    → lib.unmarshal l ≡ some r
    → decode_all lib (ls ++ l ∷ []) ≡ some (rs ++ r ∷ [])
decode_all-append lib [] l [] r h e = decode_all-cons lib l [] r e (unfold decode_all in refl)
decode_all-append lib [] l (q ∷ rs) r h e = absurd (unfold decode_all in cc)
decode_all-append lib (k ∷ ls) l rs r h e =
    let (q, qs, f, g, i) = decode_all-cons_inv lib k ls h in
    rw i (decode_all-cons lib k (ls ++ l ∷ []) q f (decode_all-append lib ls l qs r g e))

IsChained-append :
    (lib : Formats) (seq : ℤ) (prev : String) (rs : List Record) (r : Record)
    → IsChained lib seq prev rs
    → r.seq ≡ increment (last_seq seq rs)
    → r.prev_hash ≡ last_hash prev rs
    → hash_record lib r ≡ some r.hash
    → IsChained lib seq prev (rs ++ r ∷ [])
IsChained-append lib seq prev [] r h a b c = (a, b, c, tt)
IsChained-append lib seq prev (q ∷ rs) r (x, y, z, h) a b c =
    (x, y, z, IsChained-append lib (increment seq) q.hash rs r h a b c)

pub last_seq-append :
    (seq : ℤ) (rs : List Record) (r : Record)
    → last_seq seq (rs ++ r ∷ []) ≡ increment (last_seq seq rs)
last_seq-append seq [] r = refl
last_seq-append seq (q ∷ rs) r = last_seq-append (increment seq) rs r

last_hash-append :
    (prev : String) (rs : List Record) (r : Record) → last_hash prev (rs ++ r ∷ []) ≡ r.hash
last_hash-append prev [] r = refl
last_hash-append prev (q ∷ rs) r = last_hash-append q.hash rs r

-- What a call of Append that returns nil has done.
pub record Appended (lib : Formats) (e : Entry) (c c' : Chain) : Type 0 where
  pub hash : String
  pub line : Bytes
  pub hashed : hash_record lib (record (next_record c e) { hash = hash }) ≡ some hash
  pub marshalled : lib.marshal (record (next_record c e) { hash = hash }) ≡ some line
  pub result :
      c' ≡ record c { file = c.file ++ line_of line; seq = increment c.seq; prev_hash = hash }

-- The hash does not depend on the hash field.
hash_record-hash :
    (lib : Formats) (r : Record) (hash : String)
    → hash_record lib (record r { hash = hash }) ≡ hash_record lib r
unfolding hash_record
hash_record-hash lib r hash = refl

pub append-Appended :
    (lib : Formats) (e : Entry) (c : Chain)
    → (append lib whole e c).1 ≡ true
    → Appended lib e c (append lib whole e c).0
unfolding append
append-Appended lib e c h = elim (Option-cases (hash_record lib (next_record c e))) [
  | inl f ↦ absurd (ground (arith, f))
  | inr (hash, f) ↦ elim (Option-cases (lib.marshal (record (next_record c e) { hash = hash }))) [
    | inl g ↦ absurd (ground (arith, f, g))
    | inr (line, g) ↦ record {
      hash = hash;
      line = line;
      hashed = hash_record-hash lib (next_record c e) hash ∙ f;
      marshalled = g;
      result = ground (arith, f, g);
    }
  ]
]

module _ (lib : Formats) (codec : IsCodec lib) where
  pub append-InSync :
      (e : Entry) (c c' : Chain) (ls : List Bytes) (rs : List Record)
      → (a : Appended lib e c c') → length a.line < max_line
      → InSync lib c ls rs
      → InSync lib c' (ls ++ a.line ∷ []) (rs ++ (record (next_record c e) { hash = a.hash }) ∷ [])
  unfolding next_record
  append-InSync e c c' ls rs a short s =
      let r : Record = record (next_record c e) { hash = a.hash } in
      record {
        whole_lines =
            ap (λ k. k.file) a.result
            ∙ (ap (λ t. t ++ line_of a.line) s.whole_lines ∙ sym (unlines-append ls (a.line ∷ [])));
        fitting =
            All-append (IsLine max_line) ls (a.line ∷ []) s.fitting
              (record { plain = codec.marshal_plain r a.line a.marshalled; short = short }, tt);
        decoded =
            decode_all-append lib ls a.line rs r s.decoded
              (codec.unmarshal-marshal r a.line a.marshalled);
        chained =
            IsChained-append lib (pos 0) "" rs r s.chained (ap increment s.seq) s.prev_hash
              a.hashed;
        seq = ap (λ k. k.seq) a.result ∙ (ap increment s.seq ∙ sym (last_seq-append (pos 0) rs r));
        prev_hash = ap (λ k. k.prev_hash) a.result ∙ sym (last_hash-append "" rs r);
      }

pub InSync-IsIntact :
    (lib : Formats) (c : Chain) (ls : List Bytes) (rs : List Record)
    → InSync lib c ls rs
    → IsIntact lib c.file rs
unfolding records
InSync-IsIntact lib c ls rs s =
    let scanned : scan_lines max_line c.file ≡ (ls, false) =
      ap (scan_lines max_line) s.whole_lines ∙ scan_lines-unlines max_line ls s.fitting in
    record { decoded = ground (arith, scanned, s.decoded); chained = s.chained }
