-- ===== src/SchemaCache.antt =====
-- The store of state/schema-cache.ts. An asynchronous operation is two steps: `*_cached` is its test
-- of the cache, and the answer of the backend, whenever it comes, is an argument of `*_loaded`.
mod Agreeing
pub mod Coherent
pub mod Reach
pub mod Snapshots
pub mod Dropping
mod Tests
use basemaster.Base.{
  ℕ, ◌+◌, ◌&&◌, not, String, Bool, true, false, Option, none, some, List, [], ◌∷◌, ◌++◌, filter,
  str_eq, if◌then◌else◌,
}
use basemaster.Base.Dict.{Dict, empty, put, remove, get_or, includes}
use basemaster.Types.{SchemaInfo, TableInfo, Column}

pub record ConnectionCache : Type 0 where
  pub schemas : Option (List SchemaInfo)
  pub tables : Dict (List TableInfo)
  pub columns : Dict (Dict (List Column))

pub record SchemaCacheState : Type 0 where
  pub caches : Dict ConnectionCache
  pub schema_list_tick : Dict ℕ
  pub pending_schema_drops : Dict (List String)

-- The answer of `prefetchSchema`
pub record SchemaSnapshot : Type 0 where
  pub tables : List TableInfo
  pub columns : Dict (List Column)

abbrev pub empty_cache : ConnectionCache
empty_cache = record { schemas = none; tables = empty; columns = empty }

abbrev pub cache_of : String → SchemaCacheState → ConnectionCache
cache_of id s = get_or empty_cache (s.caches id)

abbrev pub set_cache : String → ConnectionCache → SchemaCacheState → SchemaCacheState
set_cache id c s = record s { caches = put id c s.caches }

-- `{ ...a, ...b }`
abbrev pub merge {ℓ} : {V : Type ℓ} → Dict V → Dict V → Dict V
merge a b k = elim (b k) [ some v ↦ some v | none ↦ a k ]

unfoldable pub schemas_cached : String → SchemaCacheState → Option (List SchemaInfo)
schemas_cached id s = (cache_of id s).schemas

unfoldable pub schemas_loaded : String → List SchemaInfo → SchemaCacheState → SchemaCacheState
schemas_loaded id schemas s = set_cache id (record (cache_of id s) { schemas = some schemas }) s

unfoldable pub tables_cached : String → String → SchemaCacheState → Option (List TableInfo)
tables_cached id schema s = (cache_of id s).tables schema

unfoldable pub tables_loaded :
    String → String → List TableInfo → SchemaCacheState → SchemaCacheState
tables_loaded id schema tables s =
    let cur = cache_of id s in set_cache id (record cur { tables = put schema tables cur.tables }) s

unfoldable pub columns_cached : String → String → String → SchemaCacheState → Option (List Column)
columns_cached id schema table s = elim ((cache_of id s).columns schema) [
  | none ↦ none
  | some cols ↦ cols table
]

unfoldable pub columns_loaded :
    String → String → String → List Column → SchemaCacheState → SchemaCacheState
columns_loaded id schema table cols s =
    let cur = cache_of id s in
    let schema_cols = get_or empty (cur.columns schema) in
    set_cache id (record cur { columns = put schema (put table cols schema_cols) cur.columns }) s

unfoldable pub snapshot_cached : String → String → SchemaCacheState → Option (List TableInfo)
snapshot_cached id schema s =
    let c = cache_of id s in elim (c.columns schema) [ none ↦ none | some _ ↦ c.tables schema ]

unfoldable pub snapshot_loaded :
    String → String → SchemaSnapshot → SchemaCacheState → SchemaCacheState
snapshot_loaded id schema snap s =
    let cur = cache_of id s in
    set_cache id
      (record cur {
        tables = put schema snap.tables cur.tables;
        columns = put schema (merge (get_or empty (cur.columns schema)) snap.columns) cur.columns;
      })
      s

unfoldable pub invalidate : String → SchemaCacheState → SchemaCacheState
invalidate id s = record s { caches = remove id s.caches }

abbrev forget_schema :
    String → String → Option ConnectionCache → SchemaCacheState → SchemaCacheState
forget_schema id schema none s = s
forget_schema id schema (some cur) s =
    set_cache id
      (record cur { tables = remove schema cur.tables; columns = remove schema cur.columns }) s

unfoldable pub invalidate_schema : String → String → SchemaCacheState → SchemaCacheState
invalidate_schema id schema s = forget_schema id schema (s.caches id) s

-- `for (const n of drop) delete nextCols[n]`
unfoldable pub remove_keys {ℓ} : {V : Type ℓ} → List String → Dict V → Dict V
remove_keys [] d = d
remove_keys (n ∷ names) d = remove_keys names (remove n d)

-- `cachedTables.filter((t) => !drop.has(t.name))`
abbrev pub keep_tables : List String → List TableInfo → List TableInfo
keep_tables names tables = filter (λ t. not (includes t.name names)) tables

abbrev drop_tables :
    String
    → String
    → List String
    → ConnectionCache
    → Option (List TableInfo)
    → SchemaCacheState
    → SchemaCacheState
drop_tables id schema names cur none s = s
drop_tables id schema names cur (some cached) s =
    set_cache id
      (record cur {
        tables = put schema (keep_tables names cached) cur.tables;
        columns = put schema (remove_keys names (get_or empty (cur.columns schema))) cur.columns;
      })
      s

abbrev drop_in :
    String → String → List String → Option ConnectionCache → SchemaCacheState → SchemaCacheState
drop_in id schema names none s = s
drop_in id schema names (some cur) s = drop_tables id schema names cur (cur.tables schema) s

unfoldable pub remove_tables_from_cache :
    String → String → List String → SchemaCacheState → SchemaCacheState
remove_tables_from_cache id schema [] s = s
remove_tables_from_cache id schema (n ∷ names) s = drop_in id schema (n ∷ names) (s.caches id) s

unfoldable pub mark_schema_dropped : String → String → SchemaCacheState → SchemaCacheState
mark_schema_dropped id schema s =
    let cur = get_or [] (s.pending_schema_drops id) in
    if includes schema cur
    then s
    else record s { pending_schema_drops = put id (cur ++ schema ∷ []) s.pending_schema_drops }

unfoldable pub clear_pending_schema_drops : String → SchemaCacheState → SchemaCacheState
clear_pending_schema_drops id s = elim (s.pending_schema_drops id) [
  | none ↦ s
  | some _ ↦ record s { pending_schema_drops = remove id s.pending_schema_drops }
]

unfoldable pub bump_schema_list : String → SchemaCacheState → SchemaCacheState
bump_schema_list id s = record s {
  schema_list_tick = put id (get_or 0 (s.schema_list_tick id) + 1) s.schema_list_tick;
}
