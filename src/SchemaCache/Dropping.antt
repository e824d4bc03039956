-- ===== src/SchemaCache/Dropping.antt =====
-- What the cache says after tables have been dropped and removed from it.
use basemaster.Base.{
  ◌≡◌, refl, ap, ◌&&◌, String, false, none, some, List, [], ◌∷◌, arith, str_eq, eq_iff, eq_refl,
  if◌then◌else◌, Bool-cases, Option-cases, inl, inr,
}
use basemaster.Base.Dict.{Dict, empty, put, remove, get_or, includes}
use basemaster.Types.{TableInfo}
use basemaster.SchemaCache.{
  ConnectionCache, SchemaCacheState, cache_of, remove_keys, keep_tables, remove_tables_from_cache,
}
use basemaster.SchemaCache.Agreeing.{none-ne-some}
use basemaster.SchemaCache.Coherent.{Backend, Agrees, IsCoherent}

-- The tables of a list whose names are not among those that were dropped.
abbrev pub left_tables : List String → List TableInfo → List TableInfo
left_tables names [] = []
left_tables names (t ∷ tables) =
    if includes t.name names then left_tables names tables else t ∷ left_tables names tables

keep_tables-left_tables :
    (names : List String) (tables : List TableInfo)
    → keep_tables names tables ≡ left_tables names tables
keep_tables-left_tables names [] = refl
keep_tables-left_tables names (t ∷ tables) = ground (arith, keep_tables-left_tables names tables)

-- The backend when the named tables of a schema are gone: it does not list them and has no columns of
-- theirs.
abbrev pub after_drop : String → String → List String → Backend → Backend
after_drop id schema names b = record {
  schemas = b.schemas;
  tables = λ i sc.
      if str_eq id i && str_eq schema sc then left_tables names (b.tables i sc) else b.tables i sc;
  columns = λ i sc t.
      if str_eq id i && str_eq schema sc && includes t names then [] else b.columns i sc t;
}

remove_keys_lem {ℓ} :
    {V : Type ℓ} (names : List String) (d : Dict V) (t : String)
    → remove_keys names d t ≡ (if includes t names then none else d t)
unfolding remove_keys remove includes
remove_keys_lem [] d t = refl
remove_keys_lem (n ∷ names) d t = ground (arith, remove_keys_lem names (remove n d) t)

left_tables_none : (tables : List TableInfo) → left_tables [] tables ≡ tables
unfolding includes
left_tables_none [] = refl
left_tables_none (t ∷ tables) = ap (◌∷◌ t) (left_tables_none tables)

-- The cache of the connection whose tables are dropped.
module _ (b : Backend) (id schema : String) (names : List String) where
  Agrees-removed :
      (c : ConnectionCache) (cached : List TableInfo)
      → Agrees b id c
      → c.tables schema ≡ some cached
      → Agrees (after_drop id schema names b) id (record c {
        tables = put schema (keep_tables names cached) c.tables;
        columns = put schema (remove_keys names (get_or empty (c.columns schema))) c.columns;
      })
  unfolding put
  Agrees-removed c cached h at = record {
    schemas = h.schemas;
    tables = λ sc l e. ground (
      arith,
      h.tables sc l,
      h.tables schema cached,
      keep_tables-left_tables names cached,
      eq_iff schema sc,
      eq_refl id,
    );
    columns = λ sc t l e. ground (
      arith,
      h.columns sc t l,
      remove_keys_lem names (get_or empty (c.columns schema)) t,
      eq_iff schema sc,
      eq_refl id,
    );
  }

  Agrees-other :
      (i : String) (c : ConnectionCache)
      → str_eq id i ≡ false
      → Agrees b i c
      → Agrees (after_drop id schema names b) i c
  Agrees-other i c ne h = record {
    schemas = h.schemas;
    tables = λ sc l e. ground (arith, h.tables sc l);
    columns = λ sc t l e. ground (arith, h.columns sc t l);
  }

  Agrees-nothing_dropped :
      (i : String) (c : ConnectionCache)
      → names ≡ []
      → Agrees b i c
      → Agrees (after_drop id schema names b) i c
  unfolding includes
  Agrees-nothing_dropped i c e h = rw e (record {
    schemas = h.schemas;
    tables = λ sc l k. ground (arith, h.tables sc l, left_tables_none (b.tables i sc));
    columns = λ sc t l k. ground (arith, h.columns sc t l);
  })

  removed-IsCoherent :
      (n : String) (rest : List String) (s : SchemaCacheState) (c : ConnectionCache)
      (cached : List TableInfo)
      → names ≡ n ∷ rest
      → IsCoherent b s
      → s.caches id ≡ some c
      → c.tables schema ≡ some cached
      → IsCoherent (after_drop id schema names b) (remove_tables_from_cache id schema names s)
  unfolding remove_tables_from_cache put
  removed-IsCoherent n rest s c cached same h at found i =
      rw (same, at, found)
        (elim (Bool-cases (str_eq id i)) [
          | inl e ↦
              rw (e, ← (eq_iff id i).0 e, ← same) (Agrees-removed c cached (rw at at (h id)) found)
          | inr e ↦ rw (e, ← same) (Agrees-other i (cache_of i s) e (h i))
        ])

-- When tables have been dropped, and `removeTablesFromCache` is called with their names while the
-- schema's table list is cached, a cache that said what the backend said before the drop says what it
-- says after: the tables are off the list and none of their columns is left.
pub remove_tables_from_cache-IsCoherent :
    (b : Backend) (id schema : String) (names : List String) (cached : List TableInfo)
    (s : SchemaCacheState)
    → IsCoherent b s
    → (cache_of id s).tables schema ≡ some cached
    → IsCoherent (after_drop id schema names b) (remove_tables_from_cache id schema names s)
remove_tables_from_cache-IsCoherent b id schema [] cached s h found =
    unfold remove_tables_from_cache in
    λ i. Agrees-nothing_dropped b id schema [] i (cache_of i s) refl (h i)
remove_tables_from_cache-IsCoherent b id schema (n ∷ names) cached s h found =
    elim (Option-cases (s.caches id)) [
      | inl e ↦ absurd (none-ne-some (rw e at found))
      | inr (c, e) ↦
          removed-IsCoherent b id schema (n ∷ names) n names s c cached refl h e (rw e at found)
    ]
