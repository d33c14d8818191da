-- ===== src/Files/Gate.antt =====
-- What read_file and list_directory look at.
use fieldlink.Prelude.{
  String, Bytes, codes, true, List, [], ◌∷◌, ◌++◌, some, has_prefix, ◌==◌, ◌≡◌, refl, inl, inr,
  Bool-cases, Option-cases,
}
use fieldlink.Prelude.Results.{Result, err}
use fieldlink.Config.{SmbShare}
use fieldlink.Any.{Map}
use fieldlink.Policy.{Decision, Context}
use fieldlink.Policy.GrantEngine.{Deps, World, GrantEngine, grant_engine}
use fieldlink.Policy.GrantEngine.Soundness.{Authorized, authorize_iff}
use fieldlink.Files.{
  Services, Executor, Target, ReadFileInput, ReadFileOutput, resolve_safe, limit_of, read_params,
  read_local_file,
}
use fieldlink.Files.SmbPath.{smb_prefix, parse_smb_path}
use fieldlink.Files.Limit.{IsWithin, IsReadOf, read_target-IsWithin, read_target-IsReadOf}
use fieldlink.Files.Smb.{smb_share_for, read_on_share, smb_read_file, read_file}

-- A call for `path` has looked at nothing, or at one place, where `Permitted` holds of the text that
-- stands for it: the resolved path on the local disk, or the path itself for a place on a share.
pub data Looked (lib : Services) (path : String) (Permitted : String → Type 0)
    (before after : List Target) : Type 0 where
  nowhere : after ≡ before → Looked lib path Permitted before after
  at_path :
      (resolved : String)
      → resolve_safe lib path ≡ some resolved
      → Permitted resolved
      → after ≡ before ++ Target.local resolved ∷ []
      → Looked lib path Permitted before after
  at_share :
      (name rel : Bytes)
      → parse_smb_path (codes path) ≡ some (name, rel)
      → Permitted path
      → after ≡ before ++ Target.on_share (lib.string_of name) rel ∷ []
      → Looked lib path Permitted before after

-- What read_file answers: no content, or that of the file at the resolved path, or at the path on the
-- share that is dialled for its name.
pub data IsAnswer (lib : Services) (shares : List (String × SmbShare))
    (conns : List (String × lib.Share)) (q : ReadFileInput) (answer : Result String ReadFileOutput)
    : Type 0 where
  no_content : (reason : String) → answer ≡ err reason → IsAnswer lib shares conns q answer
  of_file :
      (resolved : String)
      → resolve_safe lib q.path ≡ some resolved
      → IsReadOf lib lib.disk resolved answer
      → IsAnswer lib shares conns q answer
  of_share :
      (name rel : Bytes) (share : lib.Share)
      → parse_smb_path (codes q.path) ≡ some (name, rel)
      → (smb_share_for lib (lib.string_of name) shares conns).0 ≡ some share
      → IsReadOf lib (lib.view share) rel answer
      → IsAnswer lib shares conns q answer

module _ (lib : Services) (deps : Deps) (w : World) (ctx : Context)
    (e : Executor lib GrantEngine) where
  abbrev pub asks : String → Map → Decision × GrantEngine
  unfolding grant_engine
  asks capability params = (grant_engine deps w).authorize e.policy ctx capability params

  pub permitted :
      (capability : String) (params : Map)
      → (asks capability params).0.allowed ≡ true
      → Authorized deps w e.policy capability params
  unfolding grant_engine
  permitted capability params = (authorize_iff deps w e.policy ctx capability params).0

  abbrev pub IsFileGuarded :
      ReadFileInput → Result String ReadFileOutput × Executor lib GrantEngine → Type 0
  IsFileGuarded q r =
      IsWithin (limit_of q) r.0
      × Looked lib q.path (λ p. Authorized deps w e.policy "fs.read" (read_params p (limit_of q)))
          e.targets r.1.targets
      × IsAnswer lib e.smb_shares e.smb_conns q r.0

  read_local_file-Authorized :
      (q : ReadFileInput)
      → IsFileGuarded q (read_local_file lib (grant_engine deps w) ctx q.path (limit_of q) e)
  unfolding read_local_file grant_engine
  read_local_file-Authorized q = elim (Option-cases (resolve_safe lib q.path)) [
    | inl a ↦ rw (a, read_local_file) (tt, nowhere refl, no_content _ refl)
    | inr (resolved, a) ↦
        elim (Bool-cases (asks "fs.read" (read_params resolved (limit_of q))).0.allowed) [
          | inr b ↦ rw (a, read_local_file) (rw (b) (tt, nowhere refl, no_content _ refl))
          | inl b ↦
              rw (a, read_local_file)
                (rw (b) (
                  read_target-IsWithin lib lib.disk q.path resolved (limit_of q),
                  at_path resolved a (permitted "fs.read" (read_params resolved (limit_of q)) b)
                      refl,
                  of_file resolved a
                      (read_target-IsReadOf lib lib.disk q.path resolved (limit_of q)),
                ))
        ]
  ]

  smb_read_file-Authorized :
      (q : ReadFileInput)
      → IsFileGuarded q (smb_read_file lib (grant_engine deps w) ctx q.path (limit_of q) e)
  unfolding smb_read_file read_on_share grant_engine
  smb_read_file-Authorized q = elim (Option-cases (parse_smb_path (codes q.path))) [
    | inl a ↦ rw (a, smb_read_file) (tt, nowhere refl, no_content _ refl)
    | inr ((name, rel), a) ↦
        elim (Bool-cases (asks "fs.read" (read_params q.path (limit_of q))).0.allowed) [
          | inr b ↦ rw (a, smb_read_file) (rw (b) (tt, nowhere refl, no_content _ refl))
          | inl b ↦
              elim (Option-cases
                (smb_share_for lib (lib.string_of name) e.smb_shares e.smb_conns).0) [
                  | inl c ↦
                      rw (a, smb_read_file)
                        (rw (b, c, read_on_share) (tt, nowhere refl, no_content _ refl))
                  | inr (share, c) ↦
                      rw (a, smb_read_file)
                        (rw (b, c, read_on_share)
                          (
                            read_target-IsWithin lib (lib.view share) q.path rel (limit_of q),
                            at_share name rel a
                                (permitted "fs.read" (read_params q.path (limit_of q)) b) refl,
                            of_share name rel share a c
                                (read_target-IsReadOf lib (lib.view share) q.path rel (limit_of q)),
                          ))
                ]
        ]
  ]

  pub read_file-Authorized :
      (q : ReadFileInput) → IsFileGuarded q (read_file lib (grant_engine deps w) ctx q e)
  unfolding read_file
  read_file-Authorized q = elim (Bool-cases (q.path == "")) [
    | inl a ↦ rw (a, read_file) (tt, nowhere refl, no_content _ refl)
    | inr a ↦ elim (Bool-cases (has_prefix (codes q.path) smb_prefix)) [
      | inl b ↦ rw (a, b, read_file) (smb_read_file-Authorized q)
      | inr b ↦ rw (a, b, read_file) (read_local_file-Authorized q)
    ]
  ]
