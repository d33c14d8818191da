-- ===== src/Files/Limit.antt =====
-- How much read_file brings back.
use fieldlink.Prelude.{
  Bytes, concat, some, false, ℤ, ltb_ℤ, ◌≤ℤ◌, String, [], ◌≡◌, refl, ◌⊎◌, inl, inr, arith,
  Bool-cases, Option-cases,
}
use fieldlink.Prelude.Results.{Result, ok, err}
use fieldlink.Http.{Body}
use fieldlink.Files.{Services, View, Info, ReadFileOutput, read_all, content_or_digest, read_target}

-- A result with the content of a file only where the file's size is within the limit.
abbrev pub IsWithin : ℤ → Result String ReadFileOutput → Type 0
IsWithin limit (err reason) = Unit
IsWithin limit (ok out) = (out.size_bytes ≤ℤ limit) ⊎ (out.content ≡ [])

-- The content of a file that has been opened, or the digest of it.
abbrev pub IsContent : Services → Body → ReadFileOutput → Type 0
IsContent lib file out =
    (held : Bytes) × (read_all file ≡ some held)
    × ((out.content ≡ held)
        ⊎ (out.content ≡ []) × (out.digest ≡ concat "sha256:" (lib.sha256_hex held)))

-- A result that comes from the file at this place, if it is no error.
abbrev pub IsReadOf :
    {P : Type 0} (lib : Services) → View P → P → Result String ReadFileOutput → Type 0
IsReadOf lib fs place (err reason) = Unit
IsReadOf lib fs place (ok out) =
    (info : Info) × (file : Body) × (fs.stat place ≡ some info)
    × (info.is_dir ≡ false)
    × (fs.open_file place ≡ some file)
    × (out.size_bytes ≡ info.size)
    × IsContent lib file out

content_or_digest-IsWithin :
    (lib : Services) (path : String) (limit : ℤ) (info : Info) (file : Body)
    → IsWithin limit (content_or_digest lib path limit info file)
unfolding content_or_digest
content_or_digest-IsWithin lib path limit info file = elim (Option-cases (read_all file)) [
  | inl a ↦ rw (a, content_or_digest) tt
  | inr (content, a) ↦ elim (Bool-cases (ltb_ℤ limit info.size)) [
    | inl b ↦ rw (a, b, content_or_digest) (inr refl)
    | inr b ↦ rw (a, b, content_or_digest) (inl (ground (arith, b)))
  ]
]

pub read_target-IsWithin :
    {P : Type 0} (lib : Services) (fs : View P) (path : String) (target : P) (limit : ℤ)
    → IsWithin limit (read_target lib fs path target limit)
unfolding read_target
read_target-IsWithin lib fs path target limit = elim (Option-cases (fs.stat target)) [
  | inl a ↦ rw (a, read_target) tt
  | inr (info, a) ↦ elim (Bool-cases info.is_dir) [
    | inl b ↦ rw (a, b, read_target) tt
    | inr b ↦ elim (Option-cases (fs.open_file target)) [
      | inl c ↦ rw (a, b, c, read_target) tt
      | inr (file, c) ↦
          rw (a, b, c, read_target) (content_or_digest-IsWithin lib path limit info file)
    ]
  ]
]

content_or_digest-IsReadOf :
    {P : Type 0} (lib : Services) (fs : View P) (path : String) (place : P) (limit : ℤ)
    (info : Info) (file : Body)
    → fs.stat place ≡ some info
    → info.is_dir ≡ false
    → fs.open_file place ≡ some file
    → IsReadOf lib fs place (content_or_digest lib path limit info file)
unfolding content_or_digest
content_or_digest-IsReadOf lib fs path place limit info file a b c =
    elim (Option-cases (read_all file)) [
      | inl d ↦ rw (d, content_or_digest) tt
      | inr (held, d) ↦ elim (Bool-cases (ltb_ℤ limit info.size)) [
        | inl f ↦
            rw (d, f, content_or_digest) (info, file, a, b, c, refl, (held, d, inr (refl, refl)))
        | inr f ↦ rw (d, f, content_or_digest) (info, file, a, b, c, refl, (held, d, inl refl))
      ]
    ]

pub read_target-IsReadOf :
    {P : Type 0} (lib : Services) (fs : View P) (path : String) (place : P) (limit : ℤ)
    → IsReadOf lib fs place (read_target lib fs path place limit)
unfolding read_target
read_target-IsReadOf lib fs path place limit = elim (Option-cases (fs.stat place)) [
  | inl a ↦ rw (a, read_target) tt
  | inr (info, a) ↦ elim (Bool-cases info.is_dir) [
    | inl b ↦ rw (a, b, read_target) tt
    | inr b ↦ elim (Option-cases (fs.open_file place)) [
      | inl c ↦ rw (a, b, c, read_target) tt
      | inr (file, c) ↦
          rw (a, b, c, read_target)
            (content_or_digest-IsReadOf lib fs path place limit info file a b c)
    ]
  ]
]
