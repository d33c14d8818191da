-- ===== src/Tests/Queries.antt =====
-- internal/exec/db/executor.go at one query, behind the site's grant.
use fieldlink.Prelude.{
  pos, codes, String, Bool, false, List, [], ◌∷◌, some, none, length, trim_space, ◌≤ℤ◌, ◌≡◌, ◌⊎◌,
  refl,
}
use fieldlink.Prelude.Results.{ok}
use fieldlink.Any.{string}
use fieldlink.Policy.{background}
use fieldlink.Policy.GrantEngine.{GrantEngine, grant_engine}
use fieldlink.Policy.GrantEngine.Soundness.{Authorized}
use fieldlink.Config.{Datasource}
use fieldlink.Db.Statement.{
  validate_statement, strip_comments_and_literals, skip_line, skip_block, skip_quoted, to_upper,
}
use fieldlink.Db.Query.{
  Databases, bytes, QueryDatabaseInput, QueryDatabaseOutput, Executor, query_database, query_params,
  requested_rows, run_query, scan_rows, scan_loop, conn_for, connect_and_run, sql_driver_name,
  normalize_value, row_of, hard_max_rows_ceil,
}
use fieldlink.Db.Query.Gate.{query_database-Authorized}
use fieldlink.Db.Query.Cap.{query_database_bounded}
use fieldlink.Policy.{allow_all}
use fieldlink.Tests.Stubs.Site.{site_deps, site_world, site_engine}

-- A database with one table of three rows.
abbrev pub one_table : Databases
one_table = record {
  Connection = Unit;
  getenv = λ name. "dsn";
  open_database = λ driver dsn. some tt;
  query = λ conn sql params. some (record {
    columns = some ("name" ∷ []);
    scanned =
        some (bytes (codes "a") ∷ [])
        ∷ some (bytes (codes "b") ∷ [])
        ∷ some (bytes (codes "c") ∷ [])
        ∷ [];
    failed = false;
  });
  string_of = λ b. "text";
  format_time = λ t. "time";
}

abbrev plant : List (String × Datasource)
plant =
    ("plant", record { driver = "postgres"; dsn_env = "PLANT_DSN"; max_open_conns = pos 0 }) ∷ []

abbrev executor : Executor one_table GrantEngine
executor = record { policy = site_engine; datasources = plant; dbs = []; sent = [] }

abbrev open_executor : Executor one_table (Unit {0})
open_executor = record { policy = tt; datasources = plant; dbs = []; sent = [] }

abbrev pub two_rows : QueryDatabaseInput
two_rows = record {
  datasource = "plant";
  sql = "SELECT name FROM t;";
  params = [];
  max_rows = pos 2;
}

query_database-Authorized_example :
    ((query_database one_table
        (grant_engine site_deps site_world)
        background
        two_rows
        executor).1.sent
      ≡ [])
    ⊎ (((query_database one_table
            (grant_engine site_deps site_world)
            background
            two_rows
            executor).1.sent
          ≡ record { datasource = "plant"; sql = "SELECT name FROM t;" } ∷ [])
        × (validate_statement (codes "SELECT name FROM t;") ≡ none)
        × Authorized site_deps site_world site_engine "db.query" (query_params "plant" (pos 2)))
query_database-Authorized_example =
    query_database-Authorized one_table site_deps site_world background two_rows executor

-- Two of the three rows.
abbrev first_rows : QueryDatabaseOutput
first_rows = record {
  datasource = "plant";
  columns = "name" ∷ [];
  rows = (("name", string "text") ∷ []) ∷ (("name", string "text") ∷ []) ∷ [];
  row_count = 2;
  truncated = Bool.true;
}

first_rows_lem :
    (query_database one_table allow_all background two_rows open_executor).0 ≡ ok first_rows
unfolding query_database validate_statement strip_comments_and_literals skip_line skip_block
    skip_quoted to_upper trim_space allow_all connect_and_run conn_for sql_driver_name run_query
    scan_rows scan_loop row_of normalize_value
first_rows_lem = refl

query_database_bounded_example :
    (2 ≡ length first_rows.rows)
    × (pos 2 ≤ℤ requested_rows two_rows)
    × (pos 2 ≤ℤ hard_max_rows_ceil)
query_database_bounded_example =
    query_database_bounded one_table allow_all background two_rows open_executor first_rows
      first_rows_lem
