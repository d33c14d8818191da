-- ===== src/Db/Schema.antt =====
-- internal/exec/db/schema.go: the tables and columns that an account sees. It consults no policy.
use fieldlink.Prelude.{String, List, [], ◌∷◌, ◌++◌, Option, none, some, ◌==◌, concat, if◌then◌else◌}
use fieldlink.Prelude.Results.{Result, ok, err}
use fieldlink.Config.{lookup}
use fieldlink.Db.Query.{Databases, Executor, Value, Rows, conn_for}

pub record ColumnInfo : Type 0 where
  pub table_name : String
  pub column_name : String
  pub type_name : String

pub data SchemaError : Type 0 where
  not_configured no_introspection no_connection query_failed scan_failed rows_failed : SchemaError

-- schemaQueries
unfoldable pub schema_query : String → Option String
schema_query driver =
    if driver == "postgres"
    then some (
        concat "SELECT table_name, column_name, data_type FROM information_schema.columns "
          "WHERE table_schema = 'public' ORDER BY table_name, ordinal_position")
    else if driver == "mssql"
    then some (
        concat "SELECT TABLE_NAME, COLUMN_NAME, DATA_TYPE FROM INFORMATION_SCHEMA.COLUMNS "
          "ORDER BY TABLE_NAME, ORDINAL_POSITION")
    else if driver == "oracle"
    then some (
        concat "SELECT table_name, column_name, data_type FROM user_tab_columns "
          "ORDER BY table_name, column_id")
    else none

-- The loop of Schema, where `scan` is Scan into three strings.
unfoldable pub scan_columns :
    (List Value → Option ColumnInfo) → List (Option (List Value)) → Option (List ColumnInfo)
scan_columns scan [] = some []
scan_columns scan (none ∷ more) = none
scan_columns scan (some vals ∷ more) = elim (scan vals) [
  | none ↦ none
  | some c ↦ elim (scan_columns scan more) [ none ↦ none | some cs ↦ some (c ∷ cs) ]
]

-- Schema, with the rows.
unfoldable pub read_columns :
    (List Value → Option ColumnInfo) → Option Rows → Result SchemaError (List ColumnInfo)
read_columns scan none = err query_failed
read_columns scan (some rows) = elim (scan_columns scan rows.scanned) [
  | none ↦ err scan_failed
  | some cs ↦ if rows.failed then err rows_failed else ok cs
]

-- Schema
unfoldable pub schema :
    {S : Type 0} (lib : Databases)
    → (List Value → Option ColumnInfo)
    → String
    → Executor lib S
    → Result SchemaError (List ColumnInfo) × Executor lib S
schema lib scan name e = elim (lookup e.datasources name) [
  | none ↦ (err not_configured, e)
  | some ds ↦ elim (schema_query ds.driver) [
    | none ↦ (err no_introspection, e)
    | some q ↦
        let (conn, e') = conn_for lib name ds e in
        elim conn [
          | none ↦ (err no_connection, e')
          | some c ↦ (
            read_columns scan (lib.query c q []),
            record e' { sent = e'.sent ++ record { datasource = name; sql = q } ∷ [] },
          )
        ]
  ]
]
