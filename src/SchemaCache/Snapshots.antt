-- ===== src/SchemaCache/Snapshots.antt =====
-- When a schema counts as loaded.
use basemaster.Base.{◌≡◌, String, none, some, List, arith, str_eq, eq_iff, eq_refl, if◌then◌else◌}
use basemaster.Base.Dict.{put}
use basemaster.Types.{TableInfo, Column}
use basemaster.SchemaCache.{
  SchemaCacheState, cache_of, tables_loaded, columns_loaded, snapshot_cached, columns_cached,
}

-- `ensureSnapshot` takes a schema for loaded whose table list and one table's columns are cached: after
-- loading these two, it answers from the cache, with no call, while no other table of the schema has
-- columns there, if none were cached before.
pub snapshot_cached_early :
    (id schema table other : String) (tables : List TableInfo) (cols : List Column)
    (s : SchemaCacheState)
    → (cache_of id s).columns schema ≡ none
    → (snapshot_cached id schema
          (columns_loaded id schema table cols (tables_loaded id schema tables s))
        ≡ some tables)
      × (columns_cached id schema other
            (columns_loaded id schema table cols (tables_loaded id schema tables s))
          ≡ (if str_eq table other then some cols else none))
unfolding snapshot_cached columns_cached columns_loaded tables_loaded put
snapshot_cached_early id schema table other tables cols s h = (
  ground (arith, eq_refl id, eq_refl schema),
  ground (arith, eq_refl id, eq_refl schema, eq_iff table other),
)
