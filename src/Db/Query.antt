-- ===== src/Db/Query.antt =====
-- internal/exec/db/executor.go: the tool query_database, from the statement's check to the rows.
-- database/sql and its drivers, the environment, and the formats of a value are parameters.
pub mod Gate
pub mod Cap
use fieldlink.Prelude.{
  ℕ, ℤ, pos, ltb_ℤ, String, Bytes, codes, Bool, true, false, not, ◌||◌, List, [], ◌∷◌, ◌++◌, Option,
  none, some, length, ◌==◌, concat, if◌then◌else◌,
}
use fieldlink.Prelude.Results.{Result, ok, err}
use fieldlink.Any.{Any, Map, string, int}
use fieldlink.Config.{Datasource, lookup}
use fieldlink.Policy.{Engine, Context, Decision}
use fieldlink.Db.Statement.{validate_statement}

-- What a driver scans into an `any`: of these, normalizeValue rewrites the first two.
pub data Value : Type 0 where
  bytes : Bytes → Value
  time : ℤ → Value
  other : Any → Value

-- A *sql.Rows: its columns or an error, its rows, each scanned or an error, and Err at the end.
pub record Rows : Type 0 where
  pub columns : Option (List String)
  pub scanned : List (Option (List Value))
  pub failed : Bool

-- os.Getenv, sql.Open, QueryContext, string(b), and t.UTC().Format(time.RFC3339)
pub record Databases : Type 1 where
  pub Connection : Type 0
  pub getenv : String → String
  pub open_database : String → String → Option Connection
  pub query : Connection → String → List Any → Option Rows
  pub string_of : Bytes → String
  pub format_time : ℤ → String

abbrev pub default_max_rows : ℤ
default_max_rows = pos 1000

abbrev pub hard_max_rows_ceil : ℤ
hard_max_rows_ceil = pos 10000

pub record QueryDatabaseInput : Type 0 where
  pub datasource : String
  pub sql : String
  pub params : List Any
  pub max_rows : ℤ

pub record QueryDatabaseOutput : Type 0 where
  pub datasource : String
  pub columns : List String
  pub rows : List Map
  pub row_count : ℕ
  pub truncated : Bool

-- A statement that went to a database.
pub record Sent : Type 0 where
  pub datasource : String
  pub sql : String

-- Executor, with the state of its policy engine, and what has gone to the databases.
pub record Executor (lib : Databases) (S : Type 0) : Type 0 where
  pub policy : S
  pub datasources : List (String × Datasource)
  pub dbs : List (String × lib.Connection)
  pub sent : List Sent

-- NewExecutor
unfoldable pub new_executor :
    {S : Type 0} (lib : Databases) → S → List (String × Datasource) → Executor lib S
new_executor lib eng datasources = record {
  policy = eng;
  datasources = datasources;
  dbs = [];
  sent = [];
}

-- sqlDriverNames
unfoldable pub sql_driver_name : String → Option String
sql_driver_name driver =
    if driver == "postgres"
    then some "pgx"
    else if driver == "mssql"
    then some "sqlserver"
    else if driver == "oracle"
    then some "oracle"
    else none

-- denied: the text of the tool's error
unfoldable pub denied : String → String
denied reason = concat "Denied: " reason

-- normalizeValue
unfoldable pub normalize_value : Databases → Value → Any
normalize_value lib (bytes b) = string (lib.string_of b)
normalize_value lib (time t) = string (lib.format_time t)
normalize_value lib (other v) = v

-- m[key] = v
abbrev pub set : Map → String → Any → Map
set [] key v = (key, v) ∷ []
set ((k, u) ∷ m) key v = let rest = set m key v in if k == key then (k, v) ∷ m else (k, u) ∷ rest

-- The loop that fills a row; Scan has filled as many values as there are columns.
unfoldable pub row_of : Databases → List String → List Value → Map → Map
unfolding normalize_value
row_of lib [] vals row = row
row_of lib (col ∷ cols) [] row = row
row_of lib (col ∷ cols) (v ∷ vals) row = row_of lib cols vals (set row col (normalize_value lib v))

-- The loop of scanRows: the rows and whether it stopped at the limit; `none` where Scan fails.
unfoldable pub scan_loop :
    Databases → List String → ℤ → List (Option (List Value)) → List Map → Option (List Map × Bool)
scan_loop lib columns max [] out = some (out, false)
scan_loop lib columns max (scanned ∷ more) out =
    let rest : Option (List Map × Bool) = elim scanned [
      | none ↦ none
      | some vals ↦ scan_loop lib columns max more (out ++ row_of lib columns vals [] ∷ [])
    ] in
    if not (ltb_ℤ (pos (length out)) max) then some (out, true) else rest

-- scanRows; `none` is an error
unfoldable pub scan_rows : Databases → Rows → ℤ → Option (List String × (List Map × Bool))
unfolding scan_loop
scan_rows lib rows max = elim rows.columns [
  | none ↦ none
  | some columns ↦ elim (scan_loop lib columns max rows.scanned []) [
    | none ↦ none
    | some r ↦ if rows.failed then none else some (columns, r)
  ]
]

-- connFor: the connection, kept for the next call. The limit on open connections is left to
-- database/sql.
unfoldable pub conn_for :
    {S : Type 0} (lib : Databases)
    → String
    → Datasource
    → Executor lib S
    → Option lib.Connection × Executor lib S
conn_for lib name ds e = elim (lookup e.dbs name) [
  | some db ↦ (some db, e)
  | none ↦ elim (sql_driver_name ds.driver) [
    | none ↦ (none, e)
    | some driver_name ↦
        let dsn = lib.getenv ds.dsn_env in
        if dsn == "" then (none, e) else elim (lib.open_database driver_name dsn) [
          | none ↦ (none, e)
          | some db ↦ (some db, record e { dbs = (name, db) ∷ e.dbs })
        ]
  ]
]

-- The parameters of the call to Authorize.
abbrev pub query_params : String → ℤ → Map
query_params datasource max_rows =
    ("datasource", string datasource) ∷ ("max_rows", int max_rows) ∷ []

abbrev pub requested_rows : QueryDatabaseInput → ℤ
requested_rows q = if ltb_ℤ (pos 0) q.max_rows then q.max_rows else default_max_rows

abbrev pub capped_rows : ℤ → ℤ
capped_rows n = if ltb_ℤ hard_max_rows_ceil n then hard_max_rows_ceil else n

-- QueryDatabase, once the connection is there.
unfoldable pub run_query :
    (lib : Databases) → QueryDatabaseInput → lib.Connection → Result String QueryDatabaseOutput
run_query lib q conn = elim (lib.query conn q.sql q.params) [
  | none ↦ err (denied "query failed")
  | some rows ↦ elim (scan_rows lib rows (capped_rows (requested_rows q))) [
    | none ↦ err (denied "query failed while reading results")
    | some r ↦ ok (record {
      datasource = q.datasource;
      columns = r.0;
      rows = r.1.0;
      row_count = length r.1.0;
      truncated = r.1.1;
    })
  ]
]

-- QueryDatabase, once the call is authorized.
unfoldable pub connect_and_run :
    {S : Type 0} (lib : Databases)
    → QueryDatabaseInput
    → Datasource
    → Executor lib S
    → Result String QueryDatabaseOutput × Executor lib S
connect_and_run lib q ds e =
    let (conn, e') = conn_for lib q.datasource ds e in
    elim conn [
      | none ↦ (err (denied "could not connect to datasource"), e')
      | some c ↦ (
        run_query lib q c,
        record e' { sent = e'.sent ++ record { datasource = q.datasource; sql = q.sql } ∷ [] },
      )
    ]

-- QueryDatabase
unfoldable pub query_database :
    {S : Type 0} (lib : Databases)
    → Engine S
    → Context
    → QueryDatabaseInput
    → Executor lib S
    → Result String QueryDatabaseOutput × Executor lib S
query_database lib eng ctx q e =
    if q.datasource == "" || q.sql == ""
    then (err (denied "datasource and sql are required"), e)
    else elim (lookup e.datasources q.datasource) [
      | none ↦ (err (denied "datasource is not configured"), e)
      | some ds ↦ elim (validate_statement (codes q.sql)) [
        | some _ ↦ (err (denied "only a single SELECT or WITH statement is permitted"), e)
        | none ↦
            let (decision, policy) =
              eng.authorize e.policy ctx "db.query"
                (query_params q.datasource (requested_rows q)) in
            let e' = record e { policy = policy } in
            if not decision.allowed
            then (err (denied decision.reason), e')
            else connect_and_run lib q ds e'
      ]
    ]
