-- ===== src/Db/Statement.antt =====
-- internal/exec/db/sqlguard.go: the statement-type allow-list, over the code points of a statement.
pub mod Semicolons
pub mod Stripping
pub mod Literals
use fieldlink.Prelude.{
  ℕ, zero, suc, ◌-◌, String, Bytes, codes, has_prefix, trim_space, trim_right, Bool, true, false,
  not, ◌&&◌, ◌||◌, List, [], ◌∷◌, ◌++◌, map, Option, none, some, any, nat_eq, leb, length, bytes_eq,
  if◌then◌else◌,
}

-- The loop over a line comment: what stands from the newline on.
unfoldable pub skip_line : Bytes → Bytes
skip_line [] = []
skip_line (c ∷ s) = let rest = skip_line s in if nat_eq c b'\n' then c ∷ s else rest

-- The loop over a block comment, once it is open: what stands behind its end.
unfoldable pub skip_block : Bytes → Bytes
skip_block [] = []
skip_block (c ∷ []) = []
skip_block (c ∷ d ∷ s) =
    let rest = skip_block (d ∷ s) in if nat_eq c b'*' && nat_eq d b'/' then s else rest

-- The loop over a literal, once it is open: a doubled quote goes on, a single one ends it.
unfoldable pub skip_quoted : ℕ → Bytes → Bytes
skip_quoted quote [] = []
skip_quoted quote (c ∷ []) = []
skip_quoted quote (c ∷ d ∷ s) =
    let escaped = skip_quoted quote s in
    let rest = skip_quoted quote (d ∷ s) in
    if nat_eq c quote then (if nat_eq d quote then escaped else d ∷ s) else rest

abbrev pub next_is : ℕ → Bytes → Bool
next_is d [] = false
next_is d (c ∷ s) = nat_eq c d

abbrev drop_one : Bytes → Bytes
drop_one [] = []
drop_one (c ∷ s) = s

-- The main loop. A line comment is skipped from its first dash on, up to the newline.
pub strip : ℕ → Bytes → Bytes
strip zero s = []
strip (suc fuel) [] = []
strip (suc fuel) (c ∷ s) =
    let line = strip fuel (skip_line (c ∷ s)) in
    let block = strip fuel (skip_block (drop_one s)) in
    let literal = b' ' ∷ strip fuel (skip_quoted c s) in
    let plain = c ∷ strip fuel s in
    if nat_eq c b'-' && next_is b'-' s
    then line
    else if nat_eq c b'/' && next_is b'*' s
    then block
    else if nat_eq c 39 || nat_eq c b'"'
    then literal
    else plain

-- stripCommentsAndLiterals: each round consumes a character, so its length is fuel enough.
unfoldable pub strip_comments_and_literals : Bytes → Bytes
unfolding strip
strip_comments_and_literals sql = strip (suc (length sql)) sql

-- unicode.ToUpper on the characters whose upper case is an ASCII letter, dotless i and long s among
-- them; any other is left, as no comparison with a keyword can tell.
unfoldable pub to_upper : ℕ → ℕ
to_upper c =
    if leb b'a' c && leb c b'z'
    then c - 32
    else if nat_eq c 0x131
    then b'I'
    else if nat_eq c 0x17f
    then b'S'
    else c

-- The cutset of strings.TrimRight.
abbrev pub in_cutset : ℕ → Bool
in_cutset c = nat_eq c b';' || nat_eq c b' ' || nat_eq c b'\t' || nat_eq c b'\n' || nat_eq c b'\r'

abbrev pub contains_semicolon : Bytes → Bool
contains_semicolon = any (λ c. nat_eq c b';')

pub data StatementError : Type 0 where
  empty_statement not_a_query multiple_statements : StatementError

abbrev pub leads_with_keyword : Bytes → Bool
leads_with_keyword trimmed =
    let upper = map to_upper trimmed in
    has_prefix upper (codes "SELECT") || has_prefix upper (codes "WITH")

-- ValidateStatement; `none` is the nil error.
unfoldable pub validate_statement : Bytes → Option StatementError
validate_statement sql =
    let trimmed = trim_space (strip_comments_and_literals sql) in
    if bytes_eq trimmed []
    then some empty_statement
    else if not (leads_with_keyword trimmed)
    then some not_a_query
    else if contains_semicolon (trim_right in_cutset trimmed)
    then some multiple_statements
    else none
