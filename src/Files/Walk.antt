-- ===== src/Files/Walk.antt =====
-- internal/exec/fs: the tool list_directory on the local disk, and the walk below a directory. The walk
-- goes down one directory on each unit of fuel.
use fieldlink.Prelude.{
  ℕ, zero, suc, ℤ, String, Bool, true, false, not, ◌&&◌, List, [], ◌∷◌, ◌++◌, Option, none, some,
  ◌==◌, if◌then◌else◌,
}
use fieldlink.Prelude.Results.{Result, ok, err}
use fieldlink.Policy.{Engine, Context}
use fieldlink.Files.{Services, View, Item, Executor, Target, denied, resolve_safe, list_params}

pub record DirEntry : Type 0 where
  pub name : String
  pub path : String
  pub is_dir : Bool
  pub size_bytes : ℤ
  pub modified_at : String

pub record ListDirectoryInput : Type 0 where
  pub path : String
  pub glob : String
  pub recursive : Bool

pub record ListDirectoryOutput : Type 0 where
  pub path : String
  pub entries : List DirEntry

-- How a walk ends.
pub data Listing : Type 0 where
  listed : List DirEntry → Listing
  failed : Listing
  out_of_fuel : Listing

-- A listing behind the entries that were there before it.
abbrev pub behind : List DirEntry → Listing → Listing
behind es (listed fs) = listed (es ++ fs)
behind es failed = failed
behind es out_of_fuel = out_of_fuel

-- `return err`, or the rest of the loop.
abbrev pub and_then : Listing → Listing → Listing
and_then (listed es) l = behind es l
and_then failed l = failed
and_then out_of_fuel l = out_of_fuel

module _ {P : Type 0} (lib : Services) (fs : View P) (path_of : P → String) (glob : String)
    (recursive : Bool) where
  -- The glob test, which lets every directory through.
  abbrev pub is_kept : Item → Bool
  is_kept item =
      if not (glob == "")
      then (if lib.match_name glob item.name then true else item.is_dir)
      else true

  abbrev pub entry_of : P → Item → ℤ × String → DirEntry
  entry_of dir item info = record {
    name = item.name;
    path = path_of (fs.join dir item.name);
    is_dir = item.is_dir;
    size_bytes = info.0;
    modified_at = info.1;
  }

  -- One turn of the loop of walk, where `visit` walks a directory.
  unfoldable pub visit_item : (P → Listing) → P → Item → Listing
  visit_item visit dir item =
      let below = visit (fs.join dir item.name) in
      if is_kept item
      then elim item.info [
        | none ↦ listed []
        | some info ↦
            if recursive && item.is_dir
            then behind (entry_of dir item info ∷ []) below
            else listed (entry_of dir item info ∷ [])
      ]
      else listed []

  -- The loop of walk over the items of a directory.
  unfoldable pub walk_items : (P → Listing) → P → List Item → Listing
  walk_items visit dir [] = listed []
  walk_items visit dir (item ∷ items) =
      let rest = walk_items visit dir items in and_then (visit_item visit dir item) rest

  -- walk
  unfoldable pub walk : ℕ → P → Listing
  walk zero dir = out_of_fuel
  walk (suc fuel) dir = elim (fs.read_dir dir) [
    | none ↦ failed
    | some items ↦ walk_items (walk fuel) dir items
  ]

-- The end of ListDirectory; `none` says that the fuel was too little.
unfoldable pub report :
    (List DirEntry → List DirEntry) → String → Listing → Option (Result String ListDirectoryOutput)
report sort path (listed es) = some (ok (record { path = path; entries = sort es }))
report sort path failed = some (err (denied "directory could not be listed"))
report sort path out_of_fuel = none

abbrev pub is_directory : {P : Type 0} → View P → P → Bool
is_directory fs dir = elim (fs.stat dir) [ none ↦ false | some info ↦ info.is_dir ]

-- ListDirectory, for a path on the local disk.
unfoldable pub list_local_directory :
    {S : Type 0} (lib : Services)
    → (List DirEntry → List DirEntry)
    → ℕ
    → Engine S
    → Context
    → ListDirectoryInput
    → Executor lib S
    → Option (Result String ListDirectoryOutput) × Executor lib S
list_local_directory lib sort fuel eng ctx q e = elim (resolve_safe lib q.path) [
  | none ↦ (some (err (denied "path could not be resolved")), e)
  | some resolved ↦
      let (decision, policy) =
        eng.authorize e.policy ctx "fs.list" (list_params resolved q.recursive) in
      let e' = record e { policy = policy } in
      if not decision.allowed then (some (err (denied decision.reason)), e') else (
        (if not (is_directory lib.disk resolved)
            then some (err (denied "path is not a readable directory"))
            else report sort q.path (walk lib lib.disk (λ p. p) q.glob q.recursive fuel resolved)),
        record e' { targets = e.targets ++ Target.local resolved ∷ [] },
      )
]
