-- ===== src/Tests/Statements.antt =====
-- internal/exec/db/sqlguard.go at a few statements.
use fieldlink.Prelude.{
  codes, Bytes, ◌++◌, [], ◌∷◌, none, ◌≡◌, ◌≢◌, true, inl, refl, arith, trim_space,
}
use fieldlink.Db.Statement.{
  validate_statement, strip_comments_and_literals, skip_line, skip_block, skip_quoted, to_upper,
  leads_with_keyword, strip,
}
use fieldlink.Db.Statement.Semicolons.{validate_statement_iff, bare, OnlyTrailing}
use fieldlink.Db.Statement.Literals.{literal_hidden, comment_vanishes, literal}
use fieldlink.Db.Statement.Stripping.{strip_total}

abbrev statement : Bytes
statement = codes "select ';' from t; "

statement_accepted : validate_statement statement ≡ none
unfolding validate_statement strip_comments_and_literals skip_line skip_block skip_quoted to_upper
    trim_space
statement_accepted = refl

validate_statement_iff_example :
    (bare statement ≢ [])
    × (leads_with_keyword (bare statement) ≡ true)
    × OnlyTrailing (bare statement)
validate_statement_iff_example = (validate_statement_iff statement).0 statement_accepted

literal_hidden_example :
    validate_statement (codes "SELECT " ++ literal 39 (codes "a") (codes " AS c"))
    ≡ validate_statement (codes "SELECT " ++ literal 39 (codes "'; drop --") (codes " AS c"))
literal_hidden_example =
    literal_hidden (codes "SELECT ") (codes "a") (codes "'; drop --") (codes " AS c") 39
      (ground arith) (inl refl) refl

comment_vanishes_example :
    validate_statement (codes "SEL" ++ (b'/' ∷ b'*' ∷ (codes "x" ++ (b'*' ∷ b'/' ∷ codes "ECT 1"))))
    ≡ validate_statement (codes "SEL" ++ codes "ECT 1")
comment_vanishes_example =
    comment_vanishes (codes "SEL") (codes "x") (codes "ECT 1") (ground arith) (ground arith)

strip_total_example : strip 30 statement ≡ strip_comments_and_literals statement
strip_total_example = strip_total 30 statement (omega arith)
