-- ===== src/Db/Query/Gate.antt =====
-- What query_database lets through to a database, and how much it brings back.
use fieldlink.Prelude.{
  String, codes, true, ◌||◌, [], ◌∷◌, ◌++◌, none, ◌==◌, ◌≡◌, ap, ◌⊎◌, inl, inr, arith, Option-cases,
  Bool-cases,
}
use fieldlink.Config.{lookup, Datasource}
use fieldlink.Policy.{Decision, Engine, Context}
use fieldlink.Policy.GrantEngine.{Deps, World, GrantEngine, grant_engine}
use fieldlink.Policy.GrantEngine.Soundness.{Authorized, authorize_iff}
use fieldlink.Db.Statement.{validate_statement}
use fieldlink.Db.Query.{
  Databases, QueryDatabaseInput, Executor, conn_for, connect_and_run, query_database, query_params,
  requested_rows,
}

module _ {S : Type 0} (lib : Databases) where
  sent-conn_for :
      (name : String) (ds : Datasource) (e : Executor lib S)
      → (conn_for lib name ds e).1.sent ≡ e.sent
  unfolding conn_for
  sent-conn_for name ds e = ground arith

  -- What the policy engine answers to the call.
  abbrev pub answer : Engine S → Context → QueryDatabaseInput → Executor lib S → Decision × S
  answer eng ctx q e =
      eng.authorize e.policy ctx "db.query" (query_params q.datasource (requested_rows q))

  -- Both checks passed.
  pub record Passed (eng : Engine S) (ctx : Context) (q : QueryDatabaseInput) (e : Executor lib S)
      : Type 0 where
    pub accepted : validate_statement (codes q.sql) ≡ none
    pub allowed : (answer eng ctx q e).0.allowed ≡ true

  sent-connect_and_run :
      (q : QueryDatabaseInput) (ds : Datasource) (e : Executor lib S)
      → ((connect_and_run lib q ds e).1.sent ≡ e.sent)
        ⊎ ((connect_and_run lib q ds e).1.sent
            ≡ e.sent ++ record { datasource = q.datasource; sql = q.sql } ∷ [])
  unfolding connect_and_run
  sent-connect_and_run q ds e = elim (Option-cases (conn_for lib q.datasource ds e).0) [
    | inl f ↦ inl (rw (f, connect_and_run) (sent-conn_for q.datasource ds e))
    | inr (c, f) ↦ inr (
        rw (f, connect_and_run)
          (ap (λ t. t ++ record { datasource = q.datasource; sql = q.sql } ∷ [])
            (sent-conn_for q.datasource ds e)))
  ]

  -- query_database sends to a database nothing but its own statement, and only where the statement's
  -- check accepts it and the policy engine allows the call for the rows that it asks for.
  pub query_database-sent :
      (eng : Engine S) (ctx : Context) (q : QueryDatabaseInput) (e : Executor lib S)
      → ((query_database lib eng ctx q e).1.sent ≡ e.sent)
        ⊎ (((query_database lib eng ctx q e).1.sent
              ≡ e.sent ++ record { datasource = q.datasource; sql = q.sql } ∷ [])
            × Passed eng ctx q e)
  unfolding query_database
  query_database-sent eng ctx q e = elim (Bool-cases (q.datasource == "" || q.sql == "")) [
    | inl a ↦ inl (rw (a, query_database))
    | inr a ↦ elim (Option-cases (lookup e.datasources q.datasource)) [
      | inl b ↦ inl (rw (a, b, query_database))
      | inr (ds, b) ↦ elim (Option-cases (validate_statement (codes q.sql))) [
        | inr (x, c) ↦ inl (rw (a, b, c, query_database))
        | inl c ↦ elim (Bool-cases (answer eng ctx q e).0.allowed) [
          | inr d ↦ inl (rw (a, b, c, query_database) (rw (d)))
          | inl d ↦
              let e' : Executor lib S = record e { policy = (answer eng ctx q e).1 } in
              elim (sent-connect_and_run q ds e') [
                | inl k ↦ inl (rw (a, b, c, query_database) (rw (d) k))
                | inr k ↦
                    inr (
                      rw (a, b, c, query_database) (rw (d) k),
                      record { accepted = c; allowed = d },
                    )
              ]
        ]
      ]
    ]
  ]

-- Behind the grant engine, a statement that goes to a database has passed the statement's check, and
-- a verified grant on disk permits the data source and the rows asked for.
pub query_database-Authorized :
    (lib : Databases) (deps : Deps) (w : World) (ctx : Context) (q : QueryDatabaseInput)
    (e : Executor lib GrantEngine)
    → ((query_database lib (grant_engine deps w) ctx q e).1.sent ≡ e.sent)
      ⊎ (((query_database lib (grant_engine deps w) ctx q e).1.sent
            ≡ e.sent ++ record { datasource = q.datasource; sql = q.sql } ∷ [])
          × (validate_statement (codes q.sql) ≡ none)
          × Authorized deps w e.policy "db.query" (query_params q.datasource (requested_rows q)))
unfolding grant_engine
query_database-Authorized lib deps w ctx q e =
    elim (query_database-sent lib (grant_engine deps w) ctx q e) [
      | inl k ↦ inl k
      | inr (k, p) ↦ inr (
        k,
        p.accepted,
        (authorize_iff deps w e.policy ctx "db.query"
              (query_params q.datasource (requested_rows q))).0
            p.allowed,
      )
    ]
