-- ===== src/Files/Smb.antt =====
-- internal/exec/fs/smb.go and the dispatch of fs.go: both tools on SMB shares, and by the kind of a
-- path.
use fieldlink.Prelude.{
  ℕ, ℤ, pos, ltb_ℤ, String, Bytes, codes, not, List, [], ◌∷◌, ◌++◌, Option, none, some, has_prefix,
  ◌==◌, concat, if◌then◌else◌,
}
use fieldlink.Prelude.Results.{Result, err}
use fieldlink.Config.{SmbShare, lookup}
use fieldlink.Policy.{Engine, Context}
use fieldlink.Files.{
  Services, Executor, Target, ReadFileInput, ReadFileOutput, denied, limit_of, read_params,
  list_params, read_target, read_local_file,
}
use fieldlink.Files.SmbPath.{smb_prefix, parse_smb_path}
use fieldlink.Files.Walk.{
  DirEntry, ListDirectoryInput, ListDirectoryOutput, walk, report, list_local_directory,
}

-- smbShareFor: the share, and the connections after it. A nil map and an empty one are the same here.
unfoldable pub smb_share_for :
    (lib : Services)
    → String
    → List (String × SmbShare)
    → List (String × lib.Share)
    → Option lib.Share × List (String × lib.Share)
smb_share_for lib name shares conns = elim (lookup conns name) [
  | some c ↦ (some c, conns)
  | none ↦ elim (lookup shares name) [
    | none ↦ (none, conns)
    | some cfg ↦
        let port = if ltb_ℤ (pos 0) cfg.port then cfg.port else pos 445 in
        elim (lib.dial cfg port (lib.getenv cfg.username_env) (lib.getenv cfg.password_env)) [
          | none ↦ (none, conns)
          | some share ↦ (some share, (name, share) ∷ conns)
        ]
  ]
]

-- smbReadFile, once the call is authorized.
unfoldable pub read_on_share :
    {S : Type 0} (lib : Services)
    → String
    → String
    → Bytes
    → ℤ
    → Executor lib S
    → Result String ReadFileOutput × Executor lib S
read_on_share lib raw_path name rel max_bytes e =
    let (found, conns) = smb_share_for lib name e.smb_shares e.smb_conns in
    let e' = record e { smb_conns = conns } in
    elim found [
      | none ↦ (err (denied "smb share is not reachable"), e')
      | some share ↦ (
        read_target lib (lib.view share) raw_path rel max_bytes,
        record e' { targets = e.targets ++ Target.on_share name rel ∷ [] },
      )
    ]

-- smbReadFile
unfoldable pub smb_read_file :
    {S : Type 0} (lib : Services)
    → Engine S
    → Context
    → String
    → ℤ
    → Executor lib S
    → Result String ReadFileOutput × Executor lib S
smb_read_file lib eng ctx raw_path max_bytes e = elim (parse_smb_path (codes raw_path)) [
  | none ↦ (err (denied "path is not a valid smb:// URI"), e)
  | some (name, rel) ↦
      let (decision, policy) =
        eng.authorize e.policy ctx "fs.read" (read_params raw_path max_bytes) in
      let e' = record e { policy = policy } in
      if not decision.allowed
      then (err (denied decision.reason), e')
      else read_on_share lib raw_path (lib.string_of name) rel max_bytes e'
]

-- ReadFile
unfoldable pub read_file :
    {S : Type 0} (lib : Services)
    → Engine S
    → Context
    → ReadFileInput
    → Executor lib S
    → Result String ReadFileOutput × Executor lib S
read_file lib eng ctx q e =
    if q.path == ""
    then (err (denied "path is required"), e)
    else if has_prefix (codes q.path) smb_prefix
    then smb_read_file lib eng ctx q.path (limit_of q) e
    else read_local_file lib eng ctx q.path (limit_of q) e

-- The path that smbListDirectory reports for a path on the share.
abbrev pub smb_path_of : Services → String → Bytes → String
smb_path_of lib name rel = concat "smb://" (concat name (concat "/" (lib.string_of rel)))

-- smbListDirectory, once the call is authorized.
unfoldable pub list_on_share :
    {S : Type 0} (lib : Services)
    → (List DirEntry → List DirEntry)
    → ℕ
    → ListDirectoryInput
    → String
    → Bytes
    → Executor lib S
    → Option (Result String ListDirectoryOutput) × Executor lib S
list_on_share lib sort fuel q name rel e =
    let (found, conns) = smb_share_for lib name e.smb_shares e.smb_conns in
    let e' = record e { smb_conns = conns } in
    elim found [
      | none ↦ (some (err (denied "smb share is not reachable")), e')
      | some share ↦ (
        report sort q.path
            (walk lib (lib.view share) (smb_path_of lib name) q.glob q.recursive fuel rel),
        record e' { targets = e.targets ++ Target.on_share name rel ∷ [] },
      )
    ]

-- smbListDirectory
unfoldable pub smb_list_directory :
    {S : Type 0} (lib : Services)
    → (List DirEntry → List DirEntry)
    → ℕ
    → Engine S
    → Context
    → ListDirectoryInput
    → Executor lib S
    → Option (Result String ListDirectoryOutput) × Executor lib S
smb_list_directory lib sort fuel eng ctx q e = elim (parse_smb_path (codes q.path)) [
  | none ↦ (some (err (denied "path is not a valid smb:// URI")), e)
  | some (name, rel) ↦
      let (decision, policy) =
        eng.authorize e.policy ctx "fs.list" (list_params q.path q.recursive) in
      let e' = record e { policy = policy } in
      if not decision.allowed
      then (some (err (denied decision.reason)), e')
      else list_on_share lib sort fuel q (lib.string_of name) rel e'
]

-- ListDirectory
unfoldable pub list_directory :
    {S : Type 0} (lib : Services)
    → (List DirEntry → List DirEntry)
    → ℕ
    → Engine S
    → Context
    → ListDirectoryInput
    → Executor lib S
    → Option (Result String ListDirectoryOutput) × Executor lib S
list_directory lib sort fuel eng ctx q e =
    if q.path == ""
    then (some (err (denied "path is required")), e)
    else if has_prefix (codes q.path) smb_prefix
    then smb_list_directory lib sort fuel eng ctx q e
    else list_local_directory lib sort fuel eng ctx q e
