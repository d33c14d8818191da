-- ===== src/Files.antt =====
-- internal/exec/fs: the tools read_file and list_directory, on the local disk and on SMB shares. The
-- file system and the SMB client are parameters, as are path/filepath, sha256, the RFC 3339 form of a
-- time, doublestar and sort.Slice.
pub mod Walk
pub mod SmbPath
pub mod Smb
pub mod Limit
pub mod Gate
pub mod Fuel
pub mod Listing
pub mod Directory
pub mod Traversal
use fieldlink.Prelude.{
  ℕ, ℤ, pos, ◌^◌, ltb_ℤ, String, Bytes, Bool, true, false, not, List, [], ◌∷◌, ◌++◌, Option, none,
  some, ◌==◌, concat, if◌then◌else◌,
}
use fieldlink.Prelude.Results.{Result, ok, err}
use fieldlink.Any.{Map, string, int64, bool}
use fieldlink.Config.{SmbShare}
use fieldlink.Policy.{Engine, Context}
use fieldlink.Http.{Body}

-- os.FileInfo, the time in its RFC 3339 form.
pub record Info : Type 0 where
  pub is_dir : Bool
  pub size : ℤ
  pub modified_at : String

-- An os.DirEntry: its kind, and what Info gives.
pub record Item : Type 0 where
  pub name : String
  pub is_dir : Bool
  pub info : Option (ℤ × String)

-- A file system with paths of type `P`: Stat, Open with the reading of what is there, ReadDir, and
-- the join of a directory and a name.
pub record View (P : Type 0) : Type 0 where
  pub stat : P → Option Info
  pub open_file : P → Option Body
  pub read_dir : P → Option (List Item)
  pub join : P → String → P

-- The rest: the functions of filepath, sha256 in hexadecimal, doublestar.Match, sort.Slice by the path,
-- string(b), and the SMB client, where dial stands for Dial, DialContext and Mount.
pub record Services : Type 1 where
  pub disk : View String
  pub abs : String → Option String
  pub eval_symlinks : String → Option String
  pub clean : String → String
  pub sha256_hex : Bytes → String
  pub match_name : String → String → Bool
  pub string_of : Bytes → String
  pub Share : Type 0
  pub dial : SmbShare → ℤ → String → String → Option Share
  pub view : Share → View Bytes
  pub getenv : String → String

abbrev pub default_max_bytes : ℤ
default_max_bytes = pos (2 ^ 20)

-- What an executor sets out to look at.
pub data Target : Type 0 where
  local : String → Target
  on_share : String → Bytes → Target

-- Executor, with the state of its policy engine, and what it has set out to look at.
pub record Executor (lib : Services) (S : Type 0) : Type 0 where
  pub policy : S
  pub smb_shares : List (String × SmbShare)
  pub smb_conns : List (String × lib.Share)
  pub targets : List Target

pub record ReadFileInput : Type 0 where
  pub path : String
  pub max_bytes : ℤ

pub record ReadFileOutput : Type 0 where
  pub path : String
  pub content : Bytes
  pub size_bytes : ℤ
  pub truncated : Bool
  pub digest : String
  pub modified_at : String

abbrev pub denied : String → String
denied reason = concat "Denied: " reason

-- resolveSafe
unfoldable pub resolve_safe : Services → String → Option String
resolve_safe lib path = elim (lib.abs path) [
  | none ↦ none
  | some abs ↦ elim (lib.eval_symlinks abs) [
    | none ↦ some (lib.clean abs)
    | some resolved ↦ some resolved
  ]
]

-- io.ReadAll and io.Copy: all that arrives, or an error.
unfoldable pub read_all : Body → Option Bytes
read_all body = if body.fails then none else some body.arrived

-- ReadFile, with the file open: the content, or for a file over the limit its digest alone.
unfoldable pub content_or_digest :
    Services → String → ℤ → Info → Body → Result String ReadFileOutput
content_or_digest lib path max_bytes info file = elim (read_all file) [
  | none ↦ err (denied "file could not be read")
  | some data_read ↦
      if ltb_ℤ max_bytes info.size
      then ok (record {
        path = path;
        content = [];
        size_bytes = info.size;
        truncated = true;
        digest = concat "sha256:" (lib.sha256_hex data_read);
        modified_at = info.modified_at;
      })
      else ok (record {
        path = path;
        content = data_read;
        size_bytes = info.size;
        truncated = false;
        digest = "";
        modified_at = info.modified_at;
      })
]

-- ReadFile, once the call is authorized, from Stat on.
unfoldable pub read_target :
    {P : Type 0} → Services → View P → String → P → ℤ → Result String ReadFileOutput
read_target lib fs path target max_bytes = elim (fs.stat target) [
  | none ↦ err (denied "file not found or not readable")
  | some info ↦
      if info.is_dir
      then err (denied "path is a directory, not a file")
      else elim (fs.open_file target) [
        | none ↦ err (denied "file not found or not readable")
        | some file ↦ content_or_digest lib path max_bytes info file
      ]
]

abbrev pub read_params : String → ℤ → Map
read_params path max_bytes = ("path", string path) ∷ ("max_bytes", int64 max_bytes) ∷ []

abbrev pub list_params : String → Bool → Map
list_params path recursive = ("path", string path) ∷ ("recursive", bool recursive) ∷ []

-- The limit of a call.
unfoldable pub limit_of : ReadFileInput → ℤ
limit_of q = if ltb_ℤ (pos 0) q.max_bytes then q.max_bytes else default_max_bytes

-- ReadFile, for a path on the local disk.
unfoldable pub read_local_file :
    {S : Type 0} (lib : Services)
    → Engine S
    → Context
    → String
    → ℤ
    → Executor lib S
    → Result String ReadFileOutput × Executor lib S
read_local_file lib eng ctx path max_bytes e = elim (resolve_safe lib path) [
  | none ↦ (err (denied "path could not be resolved"), e)
  | some resolved ↦
      let (decision, policy) =
        eng.authorize e.policy ctx "fs.read" (read_params resolved max_bytes) in
      let e' = record e { policy = policy } in
      if not decision.allowed then (err (denied decision.reason), e') else (
        read_target lib lib.disk path resolved max_bytes,
        record e' { targets = e.targets ++ local resolved ∷ [] },
      )
]
