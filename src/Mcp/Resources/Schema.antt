-- ===== src/Mcp/Resources/Schema.antt =====
-- internal/mcp/resources.go: the resources of the datasources.
use fieldlink.Prelude.{String, Bytes, codes, not, List, Option, none, some, if◌then◌else◌}
use fieldlink.Prelude.Results.{Result}
use fieldlink.Config.{Config}
use fieldlink.Db.Query.{Databases, Executor, Value}
use fieldlink.Db.Schema.{ColumnInfo, SchemaError, schema}
use fieldlink.Mcp.Resources.{
  DatasourceSummary, sorted_keys, datasource_summaries, extract_id, value_allowed,
}

-- The resource fieldlink://datasources.
unfoldable pub datasources_resource :
    (List String → List String) → Config → Option (List String) → List DatasourceSummary
datasources_resource sort cfg allowed =
    datasource_summaries cfg.datasources allowed (sorted_keys sort cfg.datasources)

-- The resource fieldlink://datasources/{id}/schema; `none` is ResourceNotFoundError.
unfoldable pub schema_resource :
    {S : Type 0} (lib : Databases)
    → (List Value → Option ColumnInfo)
    → Option (List String)
    → Bytes
    → Executor lib S
    → Option (Result SchemaError (List ColumnInfo)) × Executor lib S
schema_resource lib scan allowed uri e =
    elim (extract_id uri (codes "fieldlink://datasources/") (codes "/schema")) [
      | none ↦ (none, e)
      | some id ↦
          if not (value_allowed allowed (lib.string_of id))
          then (none, e)
          else let (r, e') = schema lib scan (lib.string_of id) e in (some r, e')
    ]
