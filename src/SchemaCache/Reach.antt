-- ===== src/SchemaCache/Reach.antt =====
-- The cache through any sequence of answers and invalidations.
use basemaster.Base.{◌≡◌, String, sym, some, List, arith}
use mathlib.Core.Path.{subst}
use basemaster.Base.Dict.{Dict, get_or}
use basemaster.Types.{Column}
use basemaster.SchemaCache.{
  ConnectionCache, SchemaCacheState, SchemaSnapshot, empty_cache, schemas_loaded, tables_loaded,
  columns_loaded, snapshot_loaded, invalidate, invalidate_schema, mark_schema_dropped,
  clear_pending_schema_drops, bump_schema_list,
}
use basemaster.SchemaCache.Coherent.{
  Backend, IsCoherent, Agrees, schemas_loaded-IsCoherent, tables_loaded-IsCoherent,
  columns_loaded-IsCoherent, snapshot_loaded-IsCoherent, remove-IsCoherent,
  invalidate_schema-IsCoherent,
}

-- What happens to the cache while the backend's answers stay as they are: its answers come in, in any
-- order and however late, and the program invalidates what it likes.
pub data Step (b : Backend) (s : SchemaCacheState) : SchemaCacheState → Type 0 where
  schemas_come : (id : String) → Step b s (schemas_loaded id (b.schemas id) s)
  tables_come : (id schema : String) → Step b s (tables_loaded id schema (b.tables id schema) s)
  columns_come :
      (id schema table : String)
      → Step b s (columns_loaded id schema table (b.columns id schema table) s)
  snapshot_comes :
      (id schema : String) (snap : SchemaSnapshot)
      → snap.tables ≡ b.tables id schema
      → ((t : String) (l : List Column) → snap.columns t ≡ some l → l ≡ b.columns id schema t)
      → Step b s (snapshot_loaded id schema snap s)
  invalidates : (id : String) → Step b s (invalidate id s)
  invalidates_schema : (id schema : String) → Step b s (invalidate_schema id schema s)
  marks : (id schema : String) → Step b s (mark_schema_dropped id schema s)
  clears : (id : String) → Step b s (clear_pending_schema_drops id s)
  bumps : (id : String) → Step b s (bump_schema_list id s)

pub data Reach (b : Backend) (s : SchemaCacheState) : SchemaCacheState → Type 0 where
  here : Reach b s s
  next : {t u : SchemaCacheState} → Reach b s t → Step b t u → Reach b s u

caches-mark_schema_dropped :
    (id schema : String) (s : SchemaCacheState)
    → (mark_schema_dropped id schema s).caches ≡ s.caches
unfolding mark_schema_dropped
caches-mark_schema_dropped id schema s = ground arith

caches-clear :
    (id : String) (s : SchemaCacheState) → (clear_pending_schema_drops id s).caches ≡ s.caches
unfolding clear_pending_schema_drops
caches-clear id s = ground arith

IsCoherent-of_caches :
    (b : Backend) (s t : SchemaCacheState) → t.caches ≡ s.caches → IsCoherent b s → IsCoherent b t
IsCoherent-of_caches b s t e h id =
    subst (λ (d : Dict ConnectionCache). Agrees b id (get_or empty_cache (d id))) (sym e) (h id)

Step-IsCoherent :
    {b : Backend} {s t : SchemaCacheState} → Step b s t → IsCoherent b s → IsCoherent b t
unfolding bump_schema_list
Step-IsCoherent {b} {s} (schemas_come id) h = schemas_loaded-IsCoherent b s h id
Step-IsCoherent {b} {s} (tables_come id schema) h = tables_loaded-IsCoherent b s h id schema
Step-IsCoherent {b} {s} (columns_come id schema table) h =
    columns_loaded-IsCoherent b s h id schema table
Step-IsCoherent {b} {s} (snapshot_comes id schema snap same agree) h =
    snapshot_loaded-IsCoherent b s h id schema snap same agree
Step-IsCoherent {b} {s} (invalidates id) h = remove-IsCoherent b id s h
Step-IsCoherent {b} {s} (invalidates_schema id schema) h =
    invalidate_schema-IsCoherent b s h id schema
Step-IsCoherent {b} {s} (marks id schema) h =
    IsCoherent-of_caches b s (mark_schema_dropped id schema s)
      (caches-mark_schema_dropped id schema s) h
Step-IsCoherent {b} {s} (clears id) h =
    IsCoherent-of_caches b s (clear_pending_schema_drops id s) (caches-clear id s) h
Step-IsCoherent (bumps id) h = h

-- While the backend's answers do not change, the cache never says anything else than the backend:
-- from a coherent cache, whatever answers come in late or out of order, and whatever is invalidated,
-- every schema list, table list and column list that the cache holds is the backend's own.
pub Reach-IsCoherent :
    {b : Backend} {s t : SchemaCacheState} → IsCoherent b s → Reach b s t → IsCoherent b t
Reach-IsCoherent h here = h
Reach-IsCoherent h (next r st) = Step-IsCoherent st (Reach-IsCoherent h r)
