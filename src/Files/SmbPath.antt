-- ===== src/Files/SmbPath.antt =====
-- internal/exec/fs/smb.go: parseSMBPath. A path is its code points.
use fieldlink.Prelude.{
  ℕ, nat_eq, Bytes, ◌||◌, codes, List, [], ◌∷◌, ◌++◌, Option, none, some, has_prefix, bytes_eq,
  drop, if◌then◌else◌,
}

abbrev pub slash : ℕ
slash = b'/'

abbrev pub cons_first : ℕ → List Bytes → List Bytes
cons_first c [] = (c ∷ []) ∷ []
cons_first c (s ∷ ss) = (c ∷ s) ∷ ss

-- strings.Split(s, "/")
unfoldable pub segments : Bytes → List Bytes
segments [] = [] ∷ []
segments (c ∷ s) = let rest = segments s in if nat_eq c slash then [] ∷ rest else cons_first c rest

abbrev pub without_last : List Bytes → List Bytes
without_last [] = []
without_last (s ∷ ss) = ss

-- One element of a rooted path, on the elements before it, the last one first.
unfoldable pub step : Bytes → List Bytes → List Bytes
step s kept =
    if bytes_eq s [] || bytes_eq s (codes ".")
    then kept
    else if bytes_eq s (codes "..")
    then without_last kept
    else s ∷ kept

unfoldable pub steps : List Bytes → List Bytes → List Bytes
steps [] kept = kept
steps (s ∷ ss) kept = steps ss (step s kept)

-- The elements, the last one first, with a slash between two.
unfoldable pub join : List Bytes → Bytes
join [] = []
join (s ∷ []) = s
join (s ∷ t ∷ ss) = join (t ∷ ss) ++ slash ∷ s

-- path.Clean("/" + rel)[1:]
unfoldable pub cleaned : Bytes → Bytes
cleaned rel = join (steps (segments rel) [])

-- strings.SplitN(s, "/", 2): the part before the first slash, and what is behind it or nothing.
unfoldable pub split_first : Bytes → Bytes × Bytes
split_first [] = ([], [])
split_first (c ∷ s) =
    let (before, behind) = split_first s in if nat_eq c slash then ([], s) else (c ∷ before, behind)

abbrev pub smb_prefix : Bytes
smb_prefix = codes "smb://"

-- parseSMBPath
unfoldable pub parse_smb_path : Bytes → Option (Bytes × Bytes)
parse_smb_path p =
    if has_prefix p smb_prefix
    then (let (share_name, rel) = split_first (drop 6 p) in
        if bytes_eq share_name []
        then none
        else if bytes_eq (cleaned rel) (codes "..") || has_prefix (cleaned rel) (codes "../")
        then none
        else some (share_name, cleaned rel))
    else none
