-- ===== src/Files/Directory.antt =====
-- What list_directory looks at, and what it reports.
use fieldlink.Prelude.{
  ℕ, String, Bytes, codes, List, [], ◌∷◌, ◌++◌, Option, none, some, has_prefix, ◌==◌, ◌≡◌, refl,
  inl, inr, ◌↔◌, Some, Bool-cases, Option-cases,
}
use fieldlink.Prelude.Results.{Result, ok, err}
use fieldlink.Policy.{Context}
use fieldlink.Policy.GrantEngine.{Deps, World, GrantEngine, grant_engine}
use fieldlink.Policy.GrantEngine.Soundness.{Authorized}
use fieldlink.Files.{Services, View, Executor, Target, resolve_safe, list_params}
use fieldlink.Files.SmbPath.{smb_prefix, parse_smb_path}
use fieldlink.Files.Gate.{Looked, nowhere, at_path, at_share, asks, permitted}
use fieldlink.Files.Listing.{IsReached, walk_iff}
use fieldlink.Files.Smb.{
  smb_share_for, smb_path_of, list_on_share, smb_list_directory, list_directory,
}
use fieldlink.Files.Walk.{
  DirEntry, Listing, listed, failed, out_of_fuel, ListDirectoryInput, ListDirectoryOutput, walk,
  report, is_directory, list_local_directory,
}

module _ (lib : Services) (sort : List DirEntry → List DirEntry) (fuel : ℕ)
    (q : ListDirectoryInput) where
  -- An answer about a directory: an error, no end within the fuel, or the sorted entries, which are
  -- those that can be reached from the directory; those of lower directories only if the call is
  -- recursive.
  pub data IsListing {P : Type 0} (fs : View P) (path_of : P → String) (dir : P)
      (answer : Option (Result String ListDirectoryOutput)) : Type 0 where
    refused : (reason : String) → answer ≡ some (err reason) → IsListing fs path_of dir answer
    cut_off : answer ≡ none → IsListing fs path_of dir answer
    entries :
        (es : List DirEntry)
        → answer ≡ some (ok (record { path = q.path; entries = sort es }))
        → ((d : DirEntry)
            → Some (λ x. x ≡ d) es ↔ IsReached lib fs path_of q.glob q.recursive d dir)
        → IsListing fs path_of dir answer

  report-IsListing :
      {P : Type 0} (fs : View P) (path_of : P → String) (dir : P) (l : Listing)
      → walk lib fs path_of q.glob q.recursive fuel dir ≡ l
      → IsListing fs path_of dir (report sort q.path l)
  unfolding report
  report-IsListing fs path_of dir (listed es) h =
      entries es refl (λ d. walk_iff lib fs path_of q.glob q.recursive fuel dir es d h)
  report-IsListing fs path_of dir failed h = refused _ refl
  report-IsListing fs path_of dir out_of_fuel h = cut_off refl

  module _ (deps : Deps) (w : World) (ctx : Context) (e : Executor lib GrantEngine) where
    -- A verified grant permits the path to be listed, and what is below it if the call is recursive.
    abbrev pub MayList : String → Type 0
    MayList p = Authorized deps w e.policy "fs.list" (list_params p q.recursive)

    -- A call that ends in an error with nothing looked at, or that answers about the one directory it
    -- looks at: the resolved path, or a path on a share where the call's own path is permitted.
    pub data IsListGuarded
        (r : Option (Result String ListDirectoryOutput) × Executor lib GrantEngine) : Type 0 where
      unseen :
          (reason : String) → r.0 ≡ some (err reason) → r.1.targets ≡ e.targets → IsListGuarded r
      on_disk :
          (resolved : String)
          → resolve_safe lib q.path ≡ some resolved
          → MayList resolved
          → r.1.targets ≡ e.targets ++ Target.local resolved ∷ []
          → IsListing lib.disk (λ p. p) resolved r.0
          → IsListGuarded r
      on_a_share :
          (name rel : Bytes) (share : lib.Share)
          → parse_smb_path (codes q.path) ≡ some (name, rel)
          → (smb_share_for lib (lib.string_of name) e.smb_shares e.smb_conns).0 ≡ some share
          → MayList q.path
          → r.1.targets ≡ e.targets ++ Target.on_share (lib.string_of name) rel ∷ []
          → IsListing (lib.view share) (smb_path_of lib (lib.string_of name)) rel r.0
          → IsListGuarded r

    pub IsListGuarded-Looked :
        (r : Option (Result String ListDirectoryOutput) × Executor lib GrantEngine)
        → IsListGuarded r
        → Looked lib q.path MayList e.targets r.1.targets
    IsListGuarded-Looked r (unseen reason h k) = nowhere k
    IsListGuarded-Looked r (on_disk resolved a b k h) = at_path resolved a b k
    IsListGuarded-Looked r (on_a_share name rel share a c b k h) = at_share name rel a b k

    list_local_directory-IsListGuarded :
        IsListGuarded (list_local_directory lib sort fuel (grant_engine deps w) ctx q e)
    unfolding list_local_directory grant_engine
    list_local_directory-IsListGuarded = elim (Option-cases (resolve_safe lib q.path)) [
      | inl a ↦ rw (a, list_local_directory) (unseen _ refl refl)
      | inr (resolved, a) ↦
          let params = list_params resolved q.recursive in
          elim (Bool-cases (asks lib deps w ctx e "fs.list" params).0.allowed) [
            | inr b ↦ rw (a, list_local_directory) (rw (b) (unseen _ refl refl))
            | inl b ↦
                let may = permitted lib deps w ctx e "fs.list" params b in
                elim (Bool-cases (is_directory lib.disk resolved)) [
                  | inr c ↦
                      rw (a, list_local_directory)
                        (rw (b, c) (on_disk resolved a may refl (refused _ refl)))
                  | inl c ↦
                      rw (a, list_local_directory)
                        (rw (b, c)
                          (on_disk resolved a may refl
                            (report-IsListing lib.disk (λ p. p) resolved _ refl)))
                ]
          ]
    ]

    smb_list_directory-IsListGuarded :
        IsListGuarded (smb_list_directory lib sort fuel (grant_engine deps w) ctx q e)
    unfolding smb_list_directory list_on_share grant_engine
    smb_list_directory-IsListGuarded = elim (Option-cases (parse_smb_path (codes q.path))) [
      | inl a ↦ rw (a, smb_list_directory) (unseen _ refl refl)
      | inr ((name, rel), a) ↦
          let params = list_params q.path q.recursive in
          elim (Bool-cases (asks lib deps w ctx e "fs.list" params).0.allowed) [
            | inr b ↦ rw (a, smb_list_directory) (rw (b) (unseen _ refl refl))
            | inl b ↦
                elim (Option-cases
                  (smb_share_for lib (lib.string_of name) e.smb_shares e.smb_conns).0) [
                    | inl c ↦
                        rw (a, smb_list_directory) (rw (b, c, list_on_share) (unseen _ refl refl))
                    | inr (share, c) ↦
                        rw (a, smb_list_directory)
                          (rw (b, c, list_on_share)
                            (on_a_share name rel share a c
                              (permitted lib deps w ctx e "fs.list" params b) refl
                              (report-IsListing (lib.view share)
                                (smb_path_of lib (lib.string_of name)) rel _ refl)))
                  ]
          ]
    ]

    -- Behind the grant engine, list_directory ends in an error with nothing looked at, or it looks at one
    -- directory: the resolved path where a verified grant on disk permits it, or a path on a share where
    -- such a grant permits the call's own path. It reports then exactly the entries that can be reached
    -- from this directory, those of lower directories only where the grant permits a recursive listing,
    -- or an error, or the fuel has been too little.
    pub list_directory-Authorized :
        IsListGuarded (list_directory lib sort fuel (grant_engine deps w) ctx q e)
    unfolding list_directory
    list_directory-Authorized = elim (Bool-cases (q.path == "")) [
      | inl a ↦ rw (a, list_directory) (unseen _ refl refl)
      | inr a ↦ elim (Bool-cases (has_prefix (codes q.path) smb_prefix)) [
        | inl b ↦ rw (a, b, list_directory) smb_list_directory-IsListGuarded
        | inr b ↦ rw (a, b, list_directory) list_local_directory-IsListGuarded
      ]
    ]
