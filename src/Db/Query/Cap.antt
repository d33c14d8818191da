-- ===== src/Db/Query/Cap.antt =====
-- How much query_database brings back.
use fieldlink.Prelude.{
  ℕ, ◌+◌, ℤ, pos, ◌≤ℤ◌, ltb_ℤ, String, codes, Bool, true, ◌||◌, List, [], ◌∷◌, ◌++◌, Option, none,
  some, length, length-append, ◌==◌, ◌≡◌, refl, sym, subst, inl, inr, arith, Option-cases,
  Bool-cases,
}
use fieldlink.Prelude.Results.{ok}
use fieldlink.Any.{Map}
use fieldlink.Config.{lookup, Datasource}
use fieldlink.Policy.{Engine, Context}
use fieldlink.Db.Statement.{validate_statement}
use fieldlink.Db.Query.{
  Databases, Value, QueryDatabaseInput, QueryDatabaseOutput, Executor, row_of, scan_loop, scan_rows,
  conn_for, run_query, connect_and_run, query_database, query_params, requested_rows, capped_rows,
  hard_max_rows_ceil,
}

at_most_one_more : (n k : ℕ) (m : ℤ) → ltb_ℤ (pos n) m ≡ true → k ≡ n + 1 → pos k ≤ℤ m
at_most_one_more n k m h e = ground arith

scan_loop-length :
    (lib : Databases) (columns : List String) (m : ℤ) (scanned : List (Option (List Value)))
    (out : List Map) (r : List Map × Bool)
    → pos (length out) ≤ℤ m
    → scan_loop lib columns m scanned out ≡ some r
    → pos (length r.0) ≤ℤ m
unfolding scan_loop
scan_loop-length lib columns m [] out r h e = let same : out ≡ r.0 = cc (e) in rw (sym same) h
scan_loop-length lib columns m (none ∷ more) out r h e =
    elim (Bool-cases (ltb_ℤ (pos (length out)) m)) [
      | inl lt ↦ absurd (ground (arith, e, lt))
      | inr ge ↦ let same : out ≡ r.0 = ground (arith, e, ge) in rw (sym same) h
    ]
scan_loop-length lib columns m (some vals ∷ more) out r h e =
    elim (Bool-cases (ltb_ℤ (pos (length out)) m)) [
      | inl lt ↦
          scan_loop-length lib columns m more (out ++ row_of lib columns vals [] ∷ []) r
            (at_most_one_more (length out) _ m lt
              (length-append {0} out (row_of lib columns vals [] ∷ [])))
            (rw lt at e)
      | inr ge ↦ let same : out ≡ r.0 = ground (arith, e, ge) in rw (sym same) h
    ]

-- The cap is positive.
cap_pos : (q : QueryDatabaseInput) → pos 0 ≤ℤ capped_rows (requested_rows q)
cap_pos q = ground arith

abbrev IsCapped : ℤ → QueryDatabaseOutput → Type 0
IsCapped m out = (out.row_count ≡ length out.rows) × (pos out.row_count ≤ℤ m)

-- What run_query brings back keeps to the cap.
run_query-IsCapped :
    (lib : Databases) (q : QueryDatabaseInput) (conn : lib.Connection) (out : QueryDatabaseOutput)
    → run_query lib q conn ≡ ok out
    → IsCapped (capped_rows (requested_rows q)) out
unfolding run_query scan_rows
run_query-IsCapped lib q conn out h = elim (Option-cases (lib.query conn q.sql q.params)) [
  | inl a ↦ absurd (ground (arith, a, h))
  | inr (rows, a) ↦ elim (Option-cases rows.columns) [
    | inl b ↦ absurd (ground (arith, a, b, h))
    | inr (columns, b) ↦
        elim (Option-cases
          (scan_loop lib columns (capped_rows (requested_rows q)) rows.scanned [])) [
            | inl c ↦ absurd (ground (arith, a, b, c, h))
            | inr (r, c) ↦
                let short =
                  scan_loop-length lib columns (capped_rows (requested_rows q)) rows.scanned [] r
                    (cap_pos q) c in
                elim (Bool-cases rows.failed) [
                  | inl d ↦ absurd (ground (arith, a, b, c, d, h))
                  | inr d ↦
                      let whole : QueryDatabaseOutput = record {
                        datasource = q.datasource;
                        columns = columns;
                        rows = r.0;
                        row_count = length r.0;
                        truncated = r.1;
                      } in
                      let same : whole ≡ out = ground (arith, a, b, c, d, h) in
                      subst (IsCapped (capped_rows (requested_rows q))) same (refl, short)
                ]
          ]
  ]
]

connect_and_run-IsCapped :
    {S : Type 0} (lib : Databases) (q : QueryDatabaseInput) (ds : Datasource) (e : Executor lib S)
    (out : QueryDatabaseOutput)
    → (connect_and_run lib q ds e).0 ≡ ok out
    → IsCapped (capped_rows (requested_rows q)) out
unfolding connect_and_run
connect_and_run-IsCapped lib q ds e out h = elim (Option-cases (conn_for lib q.datasource ds e).0) [
  | inl f ↦ absurd (cc (rw (f, connect_and_run) at h))
  | inr (c, f) ↦ run_query-IsCapped lib q c out (rw (f, connect_and_run) at h)
]

-- query_database brings back at most the rows that are asked for, or a thousand where none are asked
-- for, and never more than ten thousand; the count that it reports is that of its rows.
pub query_database_bounded :
    {S : Type 0} (lib : Databases) (eng : Engine S) (ctx : Context) (q : QueryDatabaseInput)
    (e : Executor lib S) (out : QueryDatabaseOutput)
    → (query_database lib eng ctx q e).0 ≡ ok out
    → (out.row_count ≡ length out.rows)
      × (pos out.row_count ≤ℤ requested_rows q)
      × (pos out.row_count ≤ℤ hard_max_rows_ceil)
unfolding query_database
query_database_bounded lib eng ctx q e out h =
    elim (Bool-cases (q.datasource == "" || q.sql == "")) [
      | inl a ↦ absurd (cc (rw (a, query_database) at h))
      | inr a ↦ elim (Option-cases (lookup e.datasources q.datasource)) [
        | inl b ↦ absurd (cc (rw (a, b, query_database) at h))
        | inr (ds, b) ↦ elim (Option-cases (validate_statement (codes q.sql))) [
          | inr (x, c) ↦ absurd (cc (rw (a, b, c, query_database) at h))
          | inl c ↦
              let answer =
                eng.authorize e.policy ctx "db.query"
                  (query_params q.datasource (requested_rows q)) in
              elim (Bool-cases answer.0.allowed) [
                | inr d ↦ absurd (cc (rw (a, b, c, d, query_database) at h))
                | inl d ↦
                    let (count, cap) =
                      connect_and_run-IsCapped lib q ds (record e { policy = answer.1 }) out
                        (rw (a, b, c, d, query_database) at h) in
                    (count, ground (arith, cap), ground (arith, cap))
              ]
        ]
      ]
    ]
