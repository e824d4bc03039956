-- ===== src/SchemaCache/Coherent.antt =====
-- The cache says what the backend would say.
use basemaster.Base.{
  ◌≡◌, String, Bool-cases, inl, inr, sym, Option-cases, some, List, str_eq, eq_iff,
}
use mathlib.Core.Option.{some-injective}
use basemaster.Base.Dict.{empty, put, remove, get_or}
use basemaster.Types.{SchemaInfo, TableInfo, Column}
use basemaster.SchemaCache.{
  ConnectionCache, SchemaCacheState, SchemaSnapshot, empty_cache, cache_of, set_cache,
  schemas_loaded, tables_loaded, columns_loaded, snapshot_loaded, invalidate, invalidate_schema,
}
use basemaster.SchemaCache.Agreeing.{
  put-agrees, remove-agrees, merge-agrees, put-agrees_nested, remove-agrees_nested,
}

-- What the backend answers, at one time, to each of the calls.
pub record Backend : Type 0 where
  pub schemas : String → List SchemaInfo
  pub tables : String → String → List TableInfo
  pub columns : String → String → String → List Column

-- Each part of a connection's cache that is there is what the backend answers.
pub record Agrees (b : Backend) (id : String) (c : ConnectionCache) : Type 0 where
  pub schemas : (l : List SchemaInfo) → c.schemas ≡ some l → l ≡ b.schemas id
  pub tables :
      (schema : String) (l : List TableInfo) → c.tables schema ≡ some l → l ≡ b.tables id schema
  pub columns :
      (schema table : String) (l : List Column)
      → get_or empty (c.columns schema) table ≡ some l
      → l ≡ b.columns id schema table

abbrev pub IsCoherent : Backend → SchemaCacheState → Type 0
IsCoherent b s = (id : String) → Agrees b id (cache_of id s)

pub Agrees-empty : (b : Backend) (id : String) → Agrees b id empty_cache
Agrees-empty b id = record {
  schemas = λ l e. absurd (cc e);
  tables = λ schema l e. absurd (cc e);
  columns = λ schema table l e. absurd (cc e);
}

pub set_cache-IsCoherent :
    (b : Backend) (id : String) (c : ConnectionCache) (s : SchemaCacheState)
    → Agrees b id c
    → IsCoherent b s
    → IsCoherent b (set_cache id c s)
unfolding put
set_cache-IsCoherent b id c s new h j = elim (Bool-cases (str_eq id j)) [
  | inl e ↦ rw (e, ← (eq_iff id j).0 e) new
  | inr e ↦ rw e (h j)
]

pub remove-IsCoherent :
    (b : Backend) (id : String) (s : SchemaCacheState)
    → IsCoherent b s
    → IsCoherent b (invalidate id s)
unfolding invalidate remove
remove-IsCoherent b id s h j = elim (Bool-cases (str_eq id j)) [
  | inl e ↦ rw e (Agrees-empty b j)
  | inr e ↦ rw e (h j)
]

module _ (b : Backend) (s : SchemaCacheState) (h : IsCoherent b s) (id : String) where
  pub schemas_loaded-IsCoherent : IsCoherent b (schemas_loaded id (b.schemas id) s)
  unfolding schemas_loaded
  schemas_loaded-IsCoherent =
      set_cache-IsCoherent b id _ s
        (record {
          schemas = λ l e. sym (some-injective _ _ e);
          tables = (h id).tables;
          columns = (h id).columns;
        })
        h

  pub tables_loaded-IsCoherent :
      (schema : String) → IsCoherent b (tables_loaded id schema (b.tables id schema) s)
  unfolding tables_loaded
  tables_loaded-IsCoherent schema =
      set_cache-IsCoherent b id _ s
        (record {
          schemas = (h id).schemas;
          tables = put-agrees (b.tables id) schema _ (h id).tables;
          columns = (h id).columns;
        })
        h

  pub columns_loaded-IsCoherent :
      (schema table : String)
      → IsCoherent b (columns_loaded id schema table (b.columns id schema table) s)
  unfolding columns_loaded
  columns_loaded-IsCoherent schema table =
      set_cache-IsCoherent b id _ s
        (record {
          schemas = (h id).schemas;
          tables = (h id).tables;
          columns =
              put-agrees_nested (b.columns id) schema _ (h id).columns _
                (put-agrees (b.columns id schema) table _ ((h id).columns schema));
        })
        h

  pub snapshot_loaded-IsCoherent :
      (schema : String) (snap : SchemaSnapshot)
      → snap.tables ≡ b.tables id schema
      → ((t : String) (l : List Column) → snap.columns t ≡ some l → l ≡ b.columns id schema t)
      → IsCoherent b (snapshot_loaded id schema snap s)
  unfolding snapshot_loaded
  snapshot_loaded-IsCoherent schema snap same agree = rw same (
      set_cache-IsCoherent b id _ s
        (record {
          schemas = (h id).schemas;
          tables = put-agrees (b.tables id) schema _ (h id).tables;
          columns =
              put-agrees_nested (b.columns id) schema _ (h id).columns _
                (merge-agrees (b.columns id schema) _ snap.columns ((h id).columns schema) agree);
        })
        h)

  Agrees-cached : (c : ConnectionCache) → s.caches id ≡ some c → Agrees b id c
  Agrees-cached c e = rw e at (h id)

  pub invalidate_schema-IsCoherent :
      (schema : String) → IsCoherent b (invalidate_schema id schema s)
  unfolding invalidate_schema
  invalidate_schema-IsCoherent schema = elim (Option-cases (s.caches id)) [
    | inl e ↦ rw e h
    | inr (c, e) ↦ rw e (
        set_cache-IsCoherent b id _ s
          (record {
            schemas = (Agrees-cached c e).schemas;
            tables = remove-agrees (b.tables id) schema _ (Agrees-cached c e).tables;
            columns = remove-agrees_nested (b.columns id) schema _ (Agrees-cached c e).columns;
          })
          h)
  ]
