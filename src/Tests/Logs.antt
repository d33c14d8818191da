-- ===== src/Tests/Logs.antt =====
-- internal/audit at a log of two records.
use fieldlink.Prelude.{some, ℤ, pos, codes, Bytes, [], ◌∷◌, List, true, ◌≡◌, ◌⊎◌, refl, arith, All}
use fieldlink.Prelude.Lines.{scan_lines, unlines, IsLine}
use fieldlink.Prelude.Results.{ok}
use fieldlink.Audit.{
  Chain, Entry, Record, append, whole, increment, hash_record, next_record, open_chain, last_record,
  present, max_line,
}
use fieldlink.Audit.Verify.{verify, intact, broken, wrong_seq, VerifyResult}
use fieldlink.Audit.Verify.Chained.{verify_iff, IsIntact, records, decode_all}
use fieldlink.Audit.Verify.Gaps.{failed_write_breaks}
use fieldlink.Audit.Session.{Reach, created, appended, reopened, Reach-verify, nth_seq}
use fieldlink.Audit.Tampering.{tamper_evident, truncation_accepted, Collision}
use fieldlink.Tests.Stubs.Log.{table_formats, table-IsCodec, table-IsSelfDelimiting}
use fieldlink.Tests.Stubs.Site.{table, empty_log, first_full, second_full}

abbrev first_entry : Entry
first_entry = record {
  grant_id = "g1";
  caller_id = "";
  capability = "db.query";
  decision = "allow";
  reason = "";
  params_digest = "sha256:";
  ts = "t1";
}

abbrev second_entry : Entry
second_entry = record {
  grant_id = "g1";
  caller_id = "";
  capability = "fs.read";
  decision = "deny";
  reason = "capability is not permitted";
  params_digest = "sha256:";
  ts = "t1";
}

abbrev one_line : Bytes
one_line = codes "xxx."

abbrev two_lines : Bytes
two_lines = codes "xxxx."

abbrev two_records : List Record
two_records = first_full ∷ second_full ∷ []

-- The chain with one record, and with two.
abbrev one_log : Chain
one_log = record empty_log { file = unlines (one_line ∷ []); seq = pos 1; prev_hash = "sha256:0" }

abbrev two_log : Chain
two_log = record empty_log {
  file = unlines (one_line ∷ two_lines ∷ []);
  seq = pos 2;
  prev_hash = "sha256:1000000000";
}

one_log-append : append (table_formats table) whole first_entry empty_log ≡ (one_log, true)
unfolding append increment hash_record next_record
one_log-append = refl

two_log-append : append (table_formats table) whole second_entry one_log ≡ (two_log, true)
unfolding append increment hash_record next_record
two_log-append = refl

one_log-Reach : Reach (table_formats table) 1 one_log
unfolding append increment hash_record next_record open_chain
one_log-Reach =
    appended first_entry (created {c = empty_log} "plant-1" true (some "s1") refl) refl
      (omega arith)

-- Two records, and a restart behind them.
two_log-Reach : Reach (table_formats table) 2 two_log
unfolding append increment hash_record next_record open_chain last_record scan_lines
two_log-Reach =
    reopened {c = two_log} "plant-1" true (some "s1")
      (appended second_entry one_log-Reach refl (omega arith)) refl

Reach-verify_example : verify (table_formats table) (present two_log.file) ≡ ok (intact (nth_seq 2))
Reach-verify_example =
    Reach-verify (table_formats table) (table-IsCodec table) 2 two_log two_log-Reach

two_log-IsIntact : IsIntact (table_formats table) two_log.file two_records
unfolding records decode_all scan_lines increment hash_record
two_log-IsIntact = record { decoded = refl; chained = (refl, refl, refl, (refl, refl, refl, tt)) }

verify_iff_example :
    (res : VerifyResult) × (verify (table_formats table) (present two_log.file) ≡ ok res)
    × (res.is_ok ≡ true)
verify_iff_example =
    (verify_iff (table_formats table) two_log.file).1 (two_records, two_log-IsIntact)

tamper_evident_example : (two_records ≡ two_records) ⊎ Collision (table_formats table)
tamper_evident_example =
    tamper_evident (table_formats table) (table-IsSelfDelimiting table) two_log.file two_log.file
      two_records two_records two_log-IsIntact two_log-IsIntact (omega arith) refl refl

two_lines-IsLine : All (IsLine max_line) (one_line ∷ two_lines ∷ [])
two_lines-IsLine = (
  record { plain = ground arith; short = omega arith },
  (record { plain = ground arith; short = omega arith }, tt),
)

truncation_accepted_example :
    (n : ℤ) × (verify (table_formats table) (present (unlines (one_line ∷ []))) ≡ ok (intact n))
unfolding verify scan_lines hash_record increment
truncation_accepted_example =
    truncation_accepted (table_formats table) (one_line ∷ []) (two_lines ∷ []) (intact (pos 2))
      two_lines-IsLine refl refl

-- The chain after a write that failed, and after the next one.
abbrev gap_log : Chain
gap_log = record one_log { seq = pos 2 }

abbrev late_log : Chain
late_log = record empty_log {
  file = unlines (one_line ∷ codes "xxxxx." ∷ []);
  seq = pos 3;
  prev_hash = "sha256:11000000000";
}

failed_write_breaks_example :
    verify (table_formats table) (present late_log.file)
    ≡ ok (broken (nth_seq 1) (nth_seq 3) 2 (wrong_seq (nth_seq 2) (nth_seq 3)))
unfolding append increment hash_record next_record
failed_write_breaks_example =
    failed_write_breaks (table_formats table) (table-IsCodec table) 1 one_log gap_log late_log
      second_entry second_entry one_log-Reach refl refl (omega arith)
