-- ===== src/Policy/GrantEngine/Runs.antt =====
-- The engine over many calls: nothing is remembered between them, each is recorded, and what is
-- advertised or denied gives nothing away.
use fieldlink.Prelude.{
  ℕ, suc, ◌+◌, ◌≤◌, String, Bytes, Bool, true, List, [], ◌∷◌, map, none, some, length, ◌≡◌, refl,
  sym, ap, ap₂, subst, ◌∙◌, inl, inr, arith, Option-cases,
}
use fieldlink.Prelude.Results.{ok, Result-cases}
use fieldlink.Any.{Map}
use fieldlink.Grant.Keys.{read_public_key_file}
use fieldlink.Audit.{Chain, Entry, append, whole, max_line, present}
use fieldlink.Audit.Verify.{verify, intact}
use fieldlink.Audit.Session.{Reach, appended, nth_seq, Reach-verify}
use fieldlink.Audit.Session.Sync.{IsCodec}
use fieldlink.Policy.{Decision, Context}
use fieldlink.Policy.GrantEngine.{
  Deps, World, GrantEngine, check_signed, check_parsed, check_grant, load, note_fingerprint, decide,
  authorize_inner, authorize, entry_of,
}

-- A call: what it meets, who calls, and what is asked.
pub record Call : Type 0 where
  pub world : World
  pub ctx : Context
  pub capability : String
  pub params : Map

-- The engine serves the calls in turn.
unfoldable pub serve : Deps → GrantEngine → List Call → List Decision × GrantEngine
serve deps e [] = ([], e)
serve deps e (c ∷ cs) =
    let (d, e') = authorize deps c.world e c.ctx c.capability c.params in
    let rest = serve deps e' cs in (d ∷ rest.0, rest.1)

-- The engine as it is configured, with nothing remembered.
abbrev pub fresh : GrantEngine → GrantEngine
fresh e = record e { audit = none; last_fingerprint = []; notices = [] }

fresh-note_fingerprint :
    (deps : Deps) (public : Bytes) (e : GrantEngine)
    → fresh (note_fingerprint deps public e) ≡ fresh e
unfolding note_fingerprint
fresh-note_fingerprint deps public e = ground arith

pub fresh-load : (deps : Deps) (w : World) (e : GrantEngine) → fresh (load deps w e).1 ≡ fresh e
unfolding load
fresh-load deps w e =
    elim (Result-cases (read_public_key_file deps.encodings w.disk e.trusted_key)) [
      | inl (public, f) ↦ rw (f, load) (fresh-note_fingerprint deps public e)
      | inr (x, f) ↦ rw (f, load)
    ]

pub load-fresh :
    (deps : Deps) (w : World) (e : GrantEngine) → (load deps w (fresh e)).0 ≡ (load deps w e).0
unfolding load check_grant check_parsed check_signed
load-fresh deps w e =
    elim (Result-cases (read_public_key_file deps.encodings w.disk e.trusted_key)) [
      | inl (public, f) ↦ rw (f, load)
      | inr (x, f) ↦ rw (f, load)
    ]

module _ (deps : Deps) where
  authorize-fresh :
      (w : World) (e : GrantEngine) (ctx : Context) (capability : String) (params : Map)
      → (authorize deps w (fresh e) ctx capability params).0
        ≡ (authorize deps w e ctx capability params).0
  unfolding authorize authorize_inner
  authorize-fresh w e ctx capability params =
      ap (λ r. (decide deps.matchers r capability params).1) (load-fresh deps w e)

  fresh-authorize :
      (w : World) (e : GrantEngine) (ctx : Context) (capability : String) (params : Map)
      → fresh (authorize deps w e ctx capability params).1 ≡ fresh e
  unfolding authorize authorize_inner
  fresh-authorize w e ctx capability params = elim (Option-cases (load deps w e).1.audit) [
    | inl f ↦ rw (f, authorize) (fresh-load deps w e)
    | inr (c, f) ↦ rw (f, authorize) (fresh-load deps w e)
  ]

  -- Each decision of a run is the one that an engine without memory takes on that call alone: no
  -- earlier call, key or audit record changes it.
  pub serve-fresh :
      (e : GrantEngine) (cs : List Call)
      → (serve deps e cs).0
        ≡ map (λ c. (authorize deps c.world (fresh e) c.ctx c.capability c.params).0) cs
  unfolding serve
  serve-fresh e [] = refl
  serve-fresh e (c ∷ cs) =
      let e' = (authorize deps c.world e c.ctx c.capability c.params).1 in
      ap₂ (λ d ds. d ∷ ds) (sym (authorize-fresh c.world e c.ctx c.capability c.params))
        (serve-fresh e' cs
          ∙ ap (λ k. map (λ c. (authorize deps c.world k c.ctx c.capability c.params).0) cs)
              (fresh-authorize c.world e c.ctx c.capability c.params))

  -- The entry that a call adds to the log.
  abbrev pub log_entry : GrantEngine → Call → Entry
  log_entry e c =
      entry_of deps c.world c.ctx c.capability c.params
        (authorize_inner deps c.world e c.capability c.params).0

  abbrev logged : GrantEngine → Call → Chain → Chain × Bool
  logged e c chain = append deps.audit_formats whole (log_entry e c) chain

  -- Every call's record is written, on a line that can be read back.
  abbrev pub IsLogged : Chain → GrantEngine → List Call → Type 0
  IsLogged chain e [] = Unit
  IsLogged chain e (c ∷ cs) =
      (c.world.written ≡ whole)
      × ((logged e c chain).1 ≡ true)
      × (length (logged e c chain).0.file ≤ length chain.file + max_line)
      × IsLogged (logged e c chain).0 (authorize deps c.world e c.ctx c.capability c.params).1 cs

  audit-load : (w : World) (e : GrantEngine) → (load deps w e).1.audit ≡ e.audit
  unfolding load note_fingerprint
  audit-load w e = elim (Result-cases (read_public_key_file deps.encodings w.disk e.trusted_key)) [
    | inl (public, f) ↦ rw (f, load) (ground arith)
    | inr (x, f) ↦ rw (f, load)
  ]

  audit-authorize :
      (e : GrantEngine) (c : Call) (chain : Chain)
      → e.audit ≡ some chain
      → c.world.written ≡ whole
      → (authorize deps c.world e c.ctx c.capability c.params).1.audit ≡ some (logged e c chain).0
  unfolding authorize authorize_inner
  audit-authorize e c chain f g = rw (audit-load c.world e ∙ f, authorize) (rw g)

  serve-Reach :
      (e : GrantEngine) (cs : List Call) (chain : Chain) (n : ℕ)
      → e.audit ≡ some chain
      → Reach deps.audit_formats n chain
      → IsLogged chain e cs
      → (chain' : Chain) × ((serve deps e cs).1.audit ≡ some chain')
        × Reach deps.audit_formats (n + length cs) chain'
  unfolding serve
  serve-Reach e [] chain n f r h =
      (chain, f, subst (λ k. Reach deps.audit_formats k chain) (omega arith) r)
  serve-Reach e (c ∷ cs) chain n f r (g, ok_lem, fits, h) =
      let (chain', k, r') =
        serve-Reach (authorize deps c.world e c.ctx c.capability c.params).1 cs (logged e c chain).0
          (suc n) (audit-authorize e c chain f g) (appended (log_entry e c) r ok_lem fits) h in
      (chain', k, subst (λ m. Reach deps.audit_formats m chain') (omega arith) r')

  -- After a run whose records are all written, on lines that can be read back, Verify accepts the
  -- log, with one record more for every call, allowed or denied.
  pub serve-verify :
      (e : GrantEngine) (cs : List Call) (chain : Chain) (n : ℕ)
      → IsCodec deps.audit_formats
      → e.audit ≡ some chain
      → Reach deps.audit_formats n chain
      → IsLogged chain e cs
      → (chain' : Chain) × ((serve deps e cs).1.audit ≡ some chain')
        × (verify deps.audit_formats (present chain'.file) ≡ ok (intact (nth_seq (n + length cs))))
  serve-verify e cs chain n codec f r h =
      let (chain', k, r') = serve-Reach e cs chain n f r h in
      (chain', k, Reach-verify deps.audit_formats codec (n + length cs) chain' r')
