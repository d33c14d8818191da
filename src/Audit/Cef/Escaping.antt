-- ===== src/Audit/Cef/Escaping.antt =====
-- What the escapes give a reader of the export.
use fieldlink.Prelude.{
  ℕ, Bytes, false, [], ◌∷◌, ◌++◌, nat_eq, if◌then◌else◌, ◌≡◌, ◌≢◌, refl, arith, All, All-flatten,
  codes, Option, none, some, ℤ,
}
use fieldlink.Audit.Cef.{cef_escape, cef_escape_header, record_to_cef, cef_extension, cef_parts}
use fieldlink.Audit.{Record}

-- A reader's way back: after a backslash, `n` is a newline and any other character itself.
pub unescape : Bytes → Bytes
unescape [] = []
unescape (c ∷ []) = c ∷ []
unescape (c ∷ d ∷ s) =
    let escaped = (if nat_eq d b'n' then b'\n' else d) ∷ unescape s in
    let plain = c ∷ unescape (d ∷ s) in if nat_eq c b'\\' then escaped else plain

unescape-plain : (c : ℕ) (s : Bytes) → nat_eq c b'\\' ≡ false → unescape (c ∷ s) ≡ c ∷ unescape s
unfolding unescape
unescape-plain c [] h = refl
unescape-plain c (d ∷ s) h = ground arith

-- Whatever text an extension's field holds, undoing the escapes of the export gives it back.
pub unescape-cef_escape : (s : Bytes) → unescape (cef_escape s) ≡ s
unfolding unescape cef_escape
unescape-cef_escape [] = refl
unescape-cef_escape (c ∷ s) = ground (arith, unescape-cef_escape s, unescape-plain c (cef_escape s))

-- A reader of the header: a field ends at a pipe behind no backslash. The escapes are undone.
pub read_field : Bytes → Option (Bytes × Bytes)
read_field [] = none
read_field (c ∷ []) = if nat_eq c b'|' then some ([], []) else none
read_field (c ∷ d ∷ s) =
    let escaped : Option (Bytes × Bytes) = elim (read_field s) [
      | none ↦ none
      | some (f, r) ↦ some (d ∷ f, r)
    ] in
    let plain : Option (Bytes × Bytes) = elim (read_field (d ∷ s)) [
      | none ↦ none
      | some (f, r) ↦ some (c ∷ f, r)
    ] in
    if nat_eq c b'\\' then escaped else if nat_eq c b'|' then some ([], d ∷ s) else plain

read_field-plain :
    (c : ℕ) (s f r : Bytes)
    → nat_eq c b'\\' ≡ false
    → nat_eq c b'|' ≡ false
    → read_field s ≡ some (f, r)
    → read_field (c ∷ s) ≡ some (c ∷ f, r)
unfolding read_field
read_field-plain c [] f r h k e = cc
read_field-plain c (d ∷ s) f r h k e = ground (arith, h, k, e)

read_field_pipe : (rest : Bytes) → read_field (b'|' ∷ rest) ≡ some ([], rest)
unfolding read_field
read_field_pipe [] = refl
read_field_pipe (c ∷ rest) = refl

read_field-escaped :
    (d : ℕ) (s f r : Bytes)
    → read_field s ≡ some (f, r)
    → read_field (b'\\' ∷ d ∷ s) ≡ some (d ∷ f, r)
unfolding read_field
read_field-escaped d s f r e = ground (arith, e)

-- One character and what is escaped behind it.
read_field_step :
    (c : ℕ) (s rest : Bytes)
    → read_field (cef_escape_header s ++ (b'|' ∷ rest)) ≡ some (s, rest)
    → read_field (cef_escape_header (c ∷ s) ++ (b'|' ∷ rest)) ≡ some (c ∷ s, rest)
unfolding cef_escape_header
read_field_step c s rest ih = ground (
  arith,
  read_field-escaped c (cef_escape_header s ++ (b'|' ∷ rest)) s rest ih,
  read_field-plain c (cef_escape_header s ++ (b'|' ∷ rest)) s rest,
)

-- Whatever a header field holds, a reader that ends a field at a pipe behind no backslash gets it
-- back, and the rest of the line with it.
pub read_field-cef_escape_header :
    (s rest : Bytes) → read_field (cef_escape_header s ++ (b'|' ∷ rest)) ≡ some (s, rest)
read_field-cef_escape_header [] rest = unfold cef_escape_header read_field in read_field_pipe rest
read_field-cef_escape_header (c ∷ s) rest =
    read_field_step c s rest (read_field-cef_escape_header s rest)

abbrev pub NoNewline : ℕ → Type 0
NoNewline c = c ≢ b'\n'

cef_escape-NoNewline : (s : Bytes) → All NoNewline (cef_escape s)
unfolding cef_escape
cef_escape-NoNewline [] = tt
cef_escape-NoNewline (c ∷ s) = ground (arith, cef_escape-NoNewline s)

cef_escape_header-NoNewline : (s : Bytes) → All NoNewline s → All NoNewline (cef_escape_header s)
unfolding cef_escape_header
cef_escape_header-NoNewline [] h = tt
cef_escape_header-NoNewline (c ∷ s) (p, h) = ground (arith, cef_escape_header-NoNewline s h)

cef_extension-NoNewline :
    (decimal : ℤ → Bytes) (rec : Record)
    → ((n : ℤ) → All NoNewline (decimal n))
    → All NoNewline (codes rec.ts)
    → All (All NoNewline) (cef_extension decimal rec)
unfolding cef_extension
cef_extension-NoNewline decimal rec number ts =
    let e = cef_escape-NoNewline in
    (
      omega arith,
      (
        ts,
        (
          omega arith,
          (
            e _,
            (
              omega arith,
              (
                e _,
                (
                  omega arith,
                  (
                    e _,
                    (
                      omega arith,
                      (
                        e _,
                        (
                          omega arith,
                          (
                            e _,
                            (
                              omega arith,
                              (e _, (omega arith, (e _, (omega arith, (number rec.seq, tt))))),
                            ),
                          ),
                        ),
                      ),
                    ),
                  ),
                ),
              ),
            ),
          ),
        ),
      ),
    )

-- A record is exported as one line, where its time, its capability, its decision and the printed
-- number hold no newline. The other fields may hold any text.
pub record_to_cef_line :
    (decimal : ℤ → Bytes) (rec : Record)
    → ((n : ℤ) → All NoNewline (decimal n))
    → All NoNewline (codes rec.ts)
    → All NoNewline (codes rec.capability)
    → All NoNewline (codes rec.decision)
    → All NoNewline (record_to_cef decimal rec)
unfolding record_to_cef
record_to_cef_line decimal rec number ts capability decision =
    let e = cef_escape-NoNewline in
    let header = cef_escape_header-NoNewline (codes rec.capability) capability in
    All-flatten NoNewline (cef_parts decimal rec) (
      omega arith,
      (
        header,
        (
          omega arith,
          (
            header,
            (
              omega arith,
              (
                cef_escape_header-NoNewline (codes rec.decision) decision,
                (
                  omega arith,
                  (ground arith, (omega arith, cef_extension-NoNewline decimal rec number ts)),
                ),
              ),
            ),
          ),
        ),
      ),
    )
