-- ===== src/SchemaCache/Tests.antt =====
-- The theorems on a backend with one schema and two tables.
use basemaster.Base.Text.{codes}
use basemaster.Base.{◌≡◌, refl, String, false, none, some, List, [], ◌∷◌}
use basemaster.Base.Dict.{empty, put}
use basemaster.Types.{TableKind, TableInfo, Column, json}
use basemaster.SchemaCache.{
  cache_of, remove_tables_from_cache, SchemaCacheState, columns_loaded, tables_loaded,
  invalidate_schema,
}
use basemaster.SchemaCache.Coherent.{Backend, IsCoherent, Agrees-empty}
use basemaster.SchemaCache.Reach.{
  Reach, here, next, tables_come, columns_come, invalidates_schema, Reach-IsCoherent,
}
use basemaster.SchemaCache.Dropping.{after_drop, remove_tables_from_cache-IsCoherent}

abbrev table_named : String → TableInfo
table_named name = record {
  schema = "s";
  name = name;
  kind = TableKind.base;
  engine = none;
  row_estimate = none;
  size_bytes = none;
  comment = none;
}

abbrev tables : List TableInfo
tables = table_named "t" ∷ table_named "u" ∷ []

abbrev column : Column
column = record {
  name = codes "id";
  column_type = json;
  nullable = false;
  default = none;
  is_primary_key = false;
  is_auto_increment = false;
  comment = none;
}

abbrev backend : Backend
backend = record {
  schemas = λ id. record { name = "s"; charset = none; collation = none } ∷ [];
  tables = λ id schema. tables;
  columns = λ id schema table. column ∷ [];
}

abbrev nothing : SchemaCacheState
nothing = record { caches = empty; schema_list_tick = empty; pending_schema_drops = empty }

nothing-IsCoherent : IsCoherent backend nothing
nothing-IsCoherent id = Agrees-empty backend id

abbrev loaded : SchemaCacheState
loaded = columns_loaded "c" "s" "t" (column ∷ []) (tables_loaded "c" "s" tables nothing)

-- The tables and the columns of one of them come in, and the schema is invalidated.
answers : Reach backend nothing (invalidate_schema "c" "s" loaded)
answers =
    next (next (next here (tables_come "c" "s")) (columns_come "c" "s" "t"))
      (invalidates_schema "c" "s")

Reach-IsCoherent_example : IsCoherent backend (invalidate_schema "c" "s" loaded)
Reach-IsCoherent_example = Reach-IsCoherent nothing-IsCoherent answers

loaded-IsCoherent : IsCoherent backend loaded
loaded-IsCoherent =
    Reach-IsCoherent nothing-IsCoherent
      (next (next here (tables_come "c" "s")) (columns_come "c" "s" "t"))

loaded-tables : (cache_of "c" loaded).tables "s" ≡ some tables
unfolding tables_loaded columns_loaded put
loaded-tables = refl

remove_tables_from_cache-IsCoherent_example :
    IsCoherent
      (after_drop "c" "s" ("t" ∷ []) backend)
      (remove_tables_from_cache "c" "s" ("t" ∷ []) loaded)
remove_tables_from_cache-IsCoherent_example =
    remove_tables_from_cache-IsCoherent backend "c" "s" ("t" ∷ []) tables loaded loaded-IsCoherent
      loaded-tables
