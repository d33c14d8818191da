-- ===== src/Files/Traversal.antt =====
-- internal/exec/fs/smb.go: what parseSMBPath makes of `..` in a path.
use fieldlink.Prelude.{
  ℕ, ℤ, String, nat_eq, Bool, Bytes, codes, true, false, ◌||◌, List, [], ◌∷◌, ◌++◌, some,
  has_prefix, bytes_eq, ◌≡◌, ◌≢◌, refl, ap, ◌∙◌, ◌⊎◌, arith, All, inl, inr, Bool-cases,
  append_assoc,
}
use fieldlink.Policy.{Engine, Context}
use fieldlink.Files.{Services, Executor, read_params}
use fieldlink.Files.Smb.{smb_read_file, read_on_share}
use fieldlink.Files.SmbPath.{
  slash, segments, cons_first, step, steps, without_last, join, cleaned, split_first, smb_prefix,
  parse_smb_path,
}

-- An element that can stand in a cleaned path, as far as the test for `..` goes.
record IsElement (s : Bytes) : Type 0 where
  no_slash : All (λ c. c ≢ slash) s
  not_dots : bytes_eq s (codes "..") ≡ false

-- An element of a path that names something.
pub record IsName (s : Bytes) : Type 0 where
  pub no_slash : All (λ c. c ≢ slash) s
  pub not_empty : bytes_eq s [] ≡ false
  pub not_dot : bytes_eq s (codes ".") ≡ false
  pub not_dots : bytes_eq s (codes "..") ≡ false

-- Whether the test of parseSMBPath takes a cleaned path for an escape.
abbrev escapes : Bytes → Bool
escapes s = bytes_eq s (codes "..") || has_prefix s (codes "../")

escapes-name : (s : Bytes) → IsElement s → escapes s ≡ false
escapes-name [] p = refl
escapes-name (a ∷ []) p = ground arith
escapes-name (a ∷ b ∷ []) p = ground (arith, p.not_dots)
escapes-name (a ∷ b ∷ c ∷ s) p = ground (arith, p.no_slash.1.1.0)

escapes-longer : (s t : Bytes) → IsElement s → escapes (s ++ slash ∷ t) ≡ false
escapes-longer [] t p = ground arith
escapes-longer (a ∷ []) t p = ground arith
escapes-longer (a ∷ b ∷ []) t p = ground (arith, p.not_dots)
escapes-longer (a ∷ b ∷ c ∷ s) t p = ground (arith, p.no_slash.1.1.0)

without_last-All : (kept : List Bytes) → All IsElement kept → All IsElement (without_last kept)
without_last-All [] h = tt
without_last-All (s ∷ kept) (p, h) = h

cons_first-All :
    (c : ℕ) (ss : List Bytes)
    → c ≢ slash
    → All (All (λ c. c ≢ slash)) ss
    → All (All (λ c. c ≢ slash)) (cons_first c ss)
cons_first-All c [] p h = ((p, tt), tt)
cons_first-All c (s ∷ ss) p (q, h) = ((p, q), h)

step-All :
    (s : Bytes) (kept : List Bytes)
    → All (λ c. c ≢ slash) s
    → All IsElement kept
    → All IsElement (step s kept)
unfolding step
step-All s kept h k = elim (Bool-cases (bytes_eq s [] || bytes_eq s (codes "."))) [
  | inl a ↦ rw (a, step) k
  | inr a ↦ elim (Bool-cases (bytes_eq s (codes ".."))) [
    | inl b ↦ rw (a, b, step) (without_last-All kept k)
    | inr b ↦ rw (a, b, step) (record { no_slash = h; not_dots = b }, k)
  ]
]

segments-All : (s : Bytes) → All (All (λ c. c ≢ slash)) (segments s)
unfolding segments
segments-All [] = (tt, tt)
segments-All (c ∷ s) = elim (Bool-cases (nat_eq c slash)) [
  | inl e ↦ rw (e, segments) (tt, segments-All s)
  | inr e ↦ rw (e, segments) (cons_first-All c (segments s) (ground (arith, e)) (segments-All s))
]

steps-All :
    (ss kept : List Bytes)
    → All (All (λ c. c ≢ slash)) ss
    → All IsElement kept
    → All IsElement (steps ss kept)
unfolding steps
steps-All [] kept h k = k
steps-All (s ∷ ss) kept (p, h) k = steps-All ss (step s kept) h (step-All s kept p k)

-- A cleaned path is its first element, or begins with it and a slash.
join-first :
    (s : Bytes) (ss : List Bytes)
    → All IsElement (s ∷ ss)
    → (f : Bytes) × IsElement f
      × ((join (s ∷ ss) ≡ f) ⊎ ((t : Bytes) × (join (s ∷ ss) ≡ f ++ slash ∷ t)))
unfolding join
join-first s [] (p, h) = (s, p, inl refl)
join-first s (t ∷ ss) (p, h) =
    let (f, q, split) = join-first t ss h in
    (
      f,
      q,
      elim split [
        | inl e ↦ inr (s, ap (λ x. x ++ slash ∷ s) e)
        | inr (u, e) ↦
            inr
              (u ++ slash ∷ s, ap (λ x. x ++ slash ∷ s) e ∙ append_assoc f (slash ∷ u) (slash ∷ s))
      ],
    )

escapes-join : (ss : List Bytes) → All IsElement ss → escapes (join ss) ≡ false
unfolding join
escapes-join [] h = refl
escapes-join (s ∷ ss) h =
    let (f, q, split) = join-first s ss h in
    elim split [
      | inl e ↦ ap escapes e ∙ escapes-name f q
      | inr (t, e) ↦ ap escapes e ∙ escapes-longer f t q
    ]

escapes-cleaned : (rel : Bytes) → escapes (cleaned rel) ≡ false
unfolding cleaned
escapes-cleaned rel =
    escapes-join (steps (segments rel) []) (steps-All (segments rel) [] (segments-All rel) tt)

split_first-slash :
    (s rel : Bytes) → All (λ c. c ≢ slash) s → split_first (s ++ slash ∷ rel) ≡ (s, rel)
unfolding split_first
split_first-slash [] rel h = refl
split_first-slash (c ∷ s) rel (p, h) = rw (split_first-slash s rel h) (ground (arith, p))

-- parse_smb_path refuses no path on a named share, whatever `..` stand in it: it takes the cleaned
-- path, in which they have been resolved below the root of the share.
pub parse_smb_path-cleaned :
    (share rel : Bytes)
    → IsName share
    → parse_smb_path (smb_prefix ++ share ++ (slash ∷ rel)) ≡ some (share, cleaned rel)
unfolding parse_smb_path
parse_smb_path-cleaned share rel named = rw (
  split_first-slash share rel named.no_slash,
  named.not_empty,
  escapes-cleaned rel,
  parse_smb_path,
)

segments-slash : (s t : Bytes) → All (λ c. c ≢ slash) s → segments (s ++ slash ∷ t) ≡ s ∷ segments t
unfolding segments
segments-slash [] t h = refl
segments-slash (c ∷ s) t (p, h) =
    let e : nat_eq c slash ≡ false = ground (arith, p) in rw (e, segments-slash s t h, segments)

-- A name and `..` behind it leave nothing.
pub cleaned_up :
    (d rel : Bytes)
    → IsName d
    → cleaned (d ++ (slash ∷ (codes ".." ++ (slash ∷ rel)))) ≡ cleaned rel
unfolding cleaned steps step
cleaned_up d rel named =
    let dots : All (λ c. c ≢ slash) (codes "..") = (ground arith, (ground arith, tt)) in
    let parts : segments (d ++ (slash ∷ (codes ".." ++ (slash ∷ rel))))
        ≡ d ∷ codes ".." ∷ segments rel =
      segments-slash d (codes ".." ++ slash ∷ rel) named.no_slash
      ∙ ap (λ ss. d ∷ ss) (segments-slash (codes "..") rel dots) in
    let kept : step d [] ≡ d ∷ [] = rw (named.not_empty, named.not_dot, named.not_dots, step) in
    ap (λ ss. join (steps ss [])) parts
    ∙ ap (λ k. join (steps (segments rel) (step (codes "..") k))) kept

-- Where the policy engine allows the path smb://share/d/../rel, with share and d names, smb_read_file
-- reads rel on the share: the engine has decided on the text of the path, and d is no part of what is
-- read.
pub smb_read_file-cleaned :
    {S : Type 0} (lib : Services) (eng : Engine S) (ctx : Context) (path : String) (max_bytes : ℤ)
    (e : Executor lib S) (share d rel : Bytes)
    → IsName share
    → IsName d
    → codes path ≡ smb_prefix ++ share ++ (slash ∷ (d ++ (slash ∷ (codes ".." ++ (slash ∷ rel)))))
    → (eng.authorize e.policy ctx "fs.read" (read_params path max_bytes)).0.allowed ≡ true
    → smb_read_file lib eng ctx path max_bytes e
      ≡ read_on_share lib path (lib.string_of share) (cleaned rel) max_bytes (record e {
        policy = (eng.authorize e.policy ctx "fs.read" (read_params path max_bytes)).1;
      })
unfolding smb_read_file
smb_read_file-cleaned lib eng ctx path max_bytes e share d rel named below spelled allowed =
    let parsed : parse_smb_path (codes path) ≡ some (share, cleaned rel) =
      ap parse_smb_path spelled
      ∙ parse_smb_path-cleaned share (d ++ (slash ∷ (codes ".." ++ (slash ∷ rel)))) named
      ∙ ap (λ r. some (share, r)) (cleaned_up d rel below) in
    rw (parsed, smb_read_file) (rw (allowed))
