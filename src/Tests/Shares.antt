-- ===== src/Tests/Shares.antt =====
-- internal/exec/fs at one path each, behind the site's grant.
use fieldlink.Prelude.{
  pos, codes, true, false, [], ◌∷◌, some, ◌≡◌, ◌≢◌, refl, arith, inl, inr, ◌↔◌, Some,
}
use fieldlink.Policy.{background, allow_all}
use fieldlink.Policy.GrantEngine.{GrantEngine, grant_engine}
use fieldlink.Files.{Services, View, Executor, ReadFileInput}
use fieldlink.Files.SmbPath.{parse_smb_path, cleaned}
use fieldlink.Files.Smb.{list_directory, smb_read_file, read_on_share}
use fieldlink.Files.Walk.{
  ListDirectoryInput, walk, walk_items, visit_item, out_of_fuel, DirEntry, entry_of,
}
use fieldlink.Files.Directory.{IsListGuarded, list_directory-Authorized}
use fieldlink.Files.Fuel.{walk-HasHeight}
use fieldlink.Files.Listing.{IsReached, walk_iff}
use fieldlink.Files.Traversal.{IsName, parse_smb_path-cleaned, smb_read_file-cleaned}
use fieldlink.Tests.Stubs.Site.{site_deps, wide_world, site_engine}

-- A disk where every directory is /data, with one file.
abbrev one_file : {P : Type 0} → View P
one_file = record {
  stat = λ path. some (record { is_dir = false; size = pos 4; modified_at = "t1" });
  open_file = λ path. some (record { arrived = codes "text"; fails = false });
  read_dir =
      λ path. some (record { name = "a.csv"; is_dir = false; info = some (pos 4, "t1") } ∷ []);
  join = λ dir name. dir;
}

abbrev pub one_share : Services
one_share = record {
  disk = one_file;
  abs = some;
  eval_symlinks = some;
  clean = λ path. path;
  sha256_hex = λ b. "0";
  match_name = λ pattern name. true;
  string_of = λ b. "s";
  Share = Unit;
  dial = λ cfg port user password. some tt;
  view = λ share. one_file;
  getenv = λ name. name;
}

abbrev shares_executor : Executor one_share GrantEngine
shares_executor = record { policy = site_engine; smb_shares = []; smb_conns = []; targets = [] }

abbrev open_shares : Executor one_share (Unit {0})
open_shares = record { policy = tt; smb_shares = []; smb_conns = ("s", tt) ∷ []; targets = [] }

abbrev pub read_data : ReadFileInput
read_data = record { path = "/data/a.csv"; max_bytes = pos 2 }

abbrev list_data : ListDirectoryInput
list_data = record { path = "/data/"; glob = ""; recursive = true }

list_directory-Authorized_example :
    IsListGuarded one_share
      (λ es. es)
      2
      list_data
      site_deps
      wide_world
      background
      shares_executor
      (list_directory one_share
        (λ es. es)
        2
        (grant_engine site_deps wide_world)
        background
        list_data
        shares_executor)
list_directory-Authorized_example =
    list_directory-Authorized one_share (λ es. es) 2 list_data site_deps wide_world background
      shares_executor

walk-HasHeight_example : walk one_share one_file (λ p. p) "" true 1 "/data" ≢ out_of_fuel
walk-HasHeight_example =
    walk-HasHeight one_share one_file (λ p. p) "" true 1 "/data" (inr (_, refl, (inl refl, tt)))

abbrev listed_file : DirEntry
listed_file =
    entry_of one_share one_file (λ p. p) "" true "/data"
      (record { name = "a.csv"; is_dir = false; info = some (pos 4, "t1") }) (pos 4, "t1")

walk_iff_example :
    Some (λ x. x ≡ listed_file) (listed_file ∷ [])
    ↔ IsReached one_share one_file (λ p. p) "" true listed_file "/data"
unfolding walk walk_items visit_item
walk_iff_example =
    walk_iff one_share one_file (λ p. p) "" true 1 "/data" (listed_file ∷ []) listed_file refl

pub-IsName : IsName (codes "pub")
pub-IsName = record {
  no_slash = (ground arith, (ground arith, (ground arith, tt)));
  not_empty = refl;
  not_dot = refl;
  not_dots = refl;
}

s-IsName : IsName (codes "s")
s-IsName = record {
  no_slash = (ground arith, tt);
  not_empty = refl;
  not_dot = refl;
  not_dots = refl;
}

parse_smb_path-cleaned_example :
    parse_smb_path (codes "smb://s/../../key") ≡ some (codes "s", cleaned (codes "../../key"))
parse_smb_path-cleaned_example = parse_smb_path-cleaned (codes "s") (codes "../../key") s-IsName

smb_read_file-cleaned_example :
    smb_read_file one_share allow_all background "smb://s/pub/../key" (pos 9) open_shares
    ≡ read_on_share one_share "smb://s/pub/../key" "s" (cleaned (codes "key")) (pos 9) open_shares
unfolding allow_all
smb_read_file-cleaned_example =
    smb_read_file-cleaned one_share allow_all background "smb://s/pub/../key" (pos 9) open_shares
      (codes "s") (codes "pub") (codes "key") s-IsName pub-IsName refl refl
