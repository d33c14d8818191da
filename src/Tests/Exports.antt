-- ===== src/Tests/Exports.antt =====
-- internal/audit/cef.go at one record.
use fieldlink.Prelude.{codes, ◌≡◌, All, arith}
use fieldlink.Audit.Cef.{cef_escape, record_to_cef}
use fieldlink.Audit.Cef.Escaping.{unescape, unescape-cef_escape, NoNewline, record_to_cef_line}
use fieldlink.Tests.Stubs.Site.{first_full}

unescape-cef_escape_example : unescape (cef_escape (codes "a=\\b")) ≡ codes "a=\\b"
unescape-cef_escape_example = unescape-cef_escape (codes "a=\\b")

record_to_cef_line_example : All NoNewline (record_to_cef (λ n. codes "1") first_full)
record_to_cef_line_example =
    record_to_cef_line (λ n. codes "1") first_full (λ n. omega arith) (omega arith) (omega arith)
      (omega arith)
