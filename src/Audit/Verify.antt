-- ===== src/Audit/Verify.antt =====
-- internal/audit/verify.go: Verify walks the hash chain and reports the first break.
pub mod Chained
pub mod Gaps
use fieldlink.Prelude.{
  ℕ, ◌+◌, ℤ, pos, eq_ℤ, String, Bytes, Bool, true, false, not, List, [], ◌∷◌, Option, none, some,
  ◌==◌, if◌then◌else◌,
}
use fieldlink.Prelude.Results.{Result, ok, err}
use fieldlink.Prelude.Lines.{scan_lines}
use fieldlink.Audit.{
  Record, Formats, increment, hash_record, max_line, Opened, missing, unreadable, present, LogError,
  cannot_read, cannot_scan, cannot_hash,
}

pub data BrokenReason : Type 0 where
  no_break bad_json wrong_prev wrong_hash : BrokenReason
  wrong_seq : ℤ → ℤ → BrokenReason

pub record VerifyResult : Type 0 where
  pub is_ok : Bool
  pub record_count : ℤ
  pub broken_at_seq : ℤ
  pub broken_at_line : ℕ
  pub broken_reason : BrokenReason

abbrev pub intact : ℤ → VerifyResult
intact n = record {
  is_ok = true;
  record_count = n;
  broken_at_seq = pos 0;
  broken_at_line = 0;
  broken_reason = no_break;
}

abbrev pub broken : ℤ → ℤ → ℕ → BrokenReason → VerifyResult
broken n seq line reason = record {
  is_ok = false;
  record_count = n;
  broken_at_seq = seq;
  broken_at_line = line;
  broken_reason = reason;
}

-- The checks of one record at its line, of which `expected` is the sequence number; `k` is the
-- rest of the walk.
pub check :
    Formats
    → (count expected : ℤ) → ℕ
    → String
    → Record
    → Result LogError VerifyResult
    → Result LogError VerifyResult
check lib count expected line prev rec k =
    if not (eq_ℤ rec.seq expected)
    then ok (broken count rec.seq line (wrong_seq expected rec.seq))
    else if not (rec.prev_hash == prev)
    then ok (broken count rec.seq line wrong_prev)
    else elim (hash_record lib rec) [
      | none ↦ err cannot_hash
      | some computed ↦
          if computed == rec.hash then k else ok (broken count rec.seq line wrong_hash)
    ]

-- The loop: `line` lines are read, `count` is the sequence number of the last record.
walk : Formats → ℕ → ℤ → String → List Bytes → Bool → Result LogError VerifyResult
walk lib line count prev [] true = err cannot_scan
walk lib line count prev [] false = ok (intact count)
walk lib line count prev (l ∷ ls) failed = elim (lib.unmarshal l) [
  | none ↦ ok (broken count (pos 0) (line + 1) bad_json)
  | some rec ↦
      let rest = walk lib (line + 1) (increment count) rec.hash ls failed in
      check lib count (increment count) (line + 1) prev rec rest
]

unfoldable pub verify : Formats → Opened → Result LogError VerifyResult
unfolding walk check
verify lib missing = ok (intact (pos 0))
verify lib unreadable = err cannot_read
verify lib (present text) =
    let scanned = scan_lines max_line text in walk lib 0 (pos 0) "" scanned.0 scanned.1
