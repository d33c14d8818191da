-- ===== src/Tests/Decisions.antt =====
-- internal/policy/grant_engine.go at one grant and two calls.
use fieldlink.Prelude.{[], ◌∷◌, List, true, some, ◌≡◌, refl, map, none, arith}
use fieldlink.Prelude.Results.{ok}
use fieldlink.Grant.{validate, parse_yaml, verify, find, signing_bytes}
use fieldlink.Grant.Keys.{read_public_key_file, read_signature_file}
use fieldlink.Audit.{
  append, increment, hash_record, next_record, params_digest, present, Chain, open_chain, missing,
}
use fieldlink.Audit
use fieldlink.Audit.Verify.{intact}
use fieldlink.Audit.Session.{created, nth_seq}
use fieldlink.Policy.Constraints.{authorize_db_query, string_in_list, exceeds}
use fieldlink.Prelude.{trim_space}
use fieldlink.Prelude.Lines.{scan_lines}
use fieldlink.Grant.Keys.{first_data_line}
use fieldlink.Policy.{background, caller_id_from_context}
use fieldlink.Policy.GrantEngine.{
  load, authorize, authorize_inner, check_grant, dispatch, parse_grant_file, check_parsed,
  check_signed, sig_path_for, decide, note_fingerprint, entry_of,
}
use fieldlink.Policy.GrantEngine.Permits.{Permits, dispatch_iff}
use fieldlink.Policy.GrantEngine.Soundness.{authorize_iff, Authorized}
use fieldlink.Policy.GrantEngine.Runs.{Call, serve, serve-fresh, serve-verify, IsLogged}
use fieldlink.Tests.Stubs.Log.{table-IsCodec}
use fieldlink.Tests.Stubs.Site.{
  site_deps, site_world, site_engine, sample_grant, query_constraints, query_params, read_params,
  empty_log, table,
}

load_runs : (load site_deps site_world site_engine).0 ≡ ok sample_grant
unfolding load check_grant check_parsed check_signed parse_grant_file parse_yaml validate
    sig_path_for read_public_key_file read_signature_file verify signing_bytes first_data_line
    scan_lines trim_space
load_runs = refl

dispatch_runs :
    (dispatch site_deps.matchers "db.query" query_constraints query_params).allowed ≡ true
unfolding dispatch authorize_db_query string_in_list exceeds
dispatch_runs = refl

authorize_runs :
    (authorize site_deps site_world site_engine background "db.query" query_params).0.allowed ≡ true
unfolding authorize authorize_inner decide find
authorize_runs = rw load_runs dispatch_runs

authorize_iff_example : Authorized site_deps site_world site_engine "db.query" query_params
authorize_iff_example =
    (authorize_iff site_deps site_world site_engine background "db.query" query_params).0
      authorize_runs

dispatch_iff_example : Permits site_deps.matchers "db.query" query_constraints query_params
dispatch_iff_example =
    (dispatch_iff site_deps.matchers query_constraints query_params "db.query").0 dispatch_runs

-- A query that the grant allows, and a read that it does not name.
abbrev two_calls : List Call
two_calls =
    record { world = site_world; ctx = background; capability = "db.query"; params = query_params }
    ∷ record { world = site_world; ctx = background; capability = "fs.read"; params = read_params }
    ∷ []

serve-fresh_example :
    (serve site_deps site_engine two_calls).0
    ≡ map
        (λ c.
          (authorize site_deps c.world
            (record site_engine { audit = none; last_fingerprint = []; notices = [] })
            c.ctx
            c.capability
            c.params).0)
        two_calls
serve-fresh_example = serve-fresh site_deps site_engine two_calls

two_calls-IsLogged : IsLogged site_deps empty_log site_engine two_calls
unfolding load check_grant check_parsed check_signed parse_grant_file parse_yaml validate
    sig_path_for read_public_key_file read_signature_file verify signing_bytes first_data_line
    scan_lines trim_space dispatch authorize_db_query string_in_list exceeds authorize
    authorize_inner decide find entry_of caller_id_from_context append increment hash_record
    next_record params_digest note_fingerprint
two_calls-IsLogged = (refl, refl, omega arith, (refl, refl, omega arith, tt))

new_log : open_chain site_deps.audit_formats missing "plant-1" true (some "s1") ≡ ok empty_log
unfolding open_chain
new_log = refl

serve-verify_example :
    (chain : Chain) × ((serve site_deps site_engine two_calls).1.audit ≡ some chain)
    × (Audit.Verify.verify site_deps.audit_formats (present chain.file) ≡ ok (intact (nth_seq 2)))
serve-verify_example =
    serve-verify site_deps site_engine two_calls empty_log 0 (table-IsCodec table) refl
      (created "plant-1" true (some "s1") new_log) two_calls-IsLogged
