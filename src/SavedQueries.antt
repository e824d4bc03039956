-- ===== src/SavedQueries.antt =====
-- state/saved-queries.ts: the saved queries of each connection, kept once they are loaded. Where an
-- operation awaits the backend, it is modelled from the answer on.
mod Tests
pub mod Coherent
pub mod Reach
use basemaster.Base.{
  ℕ, String, Bool, true, false, not, ◌||◌, Option, none, some, List, [], ◌∷◌, ◌++◌, map, filter,
  str_eq, if◌then◌else◌,
}
use basemaster.Base.Text.{Text}
use basemaster.Base.Dict.{Dict, put, remove, get_or}

pub record SavedQuery : Type 0 where
  pub id : String
  pub connection_id : String
  pub schema : Option String
  pub name : Text
  pub sql : Text
  pub created_at : ℕ
  pub updated_at : ℕ

pub record SavedQueriesState : Type 0 where
  pub cache : Dict (List SavedQuery)
  pub loading : Dict Bool

-- What `ensure` does first: it answers from the cache, waits for the load that is under way, or loads.
pub data Ensured : Type 0 where
  cached : List SavedQuery → Ensured
  waits refreshes : Ensured

abbrev pub ensured : Option (List SavedQuery) → Bool → Ensured
ensured (some list) loading = cached list
ensured none true = waits
ensured none false = refreshes

unfoldable pub ensure : String → SavedQueriesState → Ensured
ensure connection_id s = ensured (s.cache connection_id) (get_or false (s.loading connection_id))

-- The answer behind the wait.
unfoldable pub waited : String → SavedQueriesState → List SavedQuery
waited connection_id s = get_or [] (s.cache connection_id)

unfoldable pub refresh_begin : String → SavedQueriesState → SavedQueriesState
unfolding put
refresh_begin connection_id s = record s { loading = put connection_id true s.loading }

-- The end of `refresh`, with the list of the backend, or with none if it throws.
unfoldable pub refresh_end :
    String → Option (List SavedQuery) → SavedQueriesState → SavedQueriesState
unfolding put
refresh_end connection_id none s = record s { loading = put connection_id false s.loading }
refresh_end connection_id (some list) s = record {
  cache = put connection_id list s.cache;
  loading = put connection_id false s.loading;
}

unfoldable pub invalidate : String → SavedQueriesState → SavedQueriesState
unfolding remove
invalidate connection_id s = record s { cache = remove connection_id s.cache }

abbrev pub with_update : String → SavedQuery → SavedQuery → SavedQuery
with_update id saved q = if str_eq q.id id then saved else q

abbrev pub delete_from :
    String → String → SavedQueriesState → Option (List SavedQuery) → SavedQueriesState
delete_from connection_id id s none = s
delete_from connection_id id s (some cur) = record s {
  cache = put connection_id (filter (λ q. not (str_eq q.id id)) cur) s.cache;
}

-- A list that is not kept is left alone.
unfoldable pub delete : String → String → SavedQueriesState → SavedQueriesState
unfolding put
delete connection_id id s = delete_from connection_id id s (s.cache connection_id)

-- `q.schema === schema || q.schema === null`
abbrev pub in_schema : String → Option String → Bool
in_schema schema none = true
in_schema schema (some own) = str_eq own schema

unfoldable pub filter_by_schema : List SavedQuery → String → List SavedQuery
filter_by_schema all schema = filter (λ q. in_schema schema q.schema) all

-- `not_after a b`: `a.name.localeCompare(b.name, …) <= 0`
module _ (not_after : SavedQuery → SavedQuery → Bool) where
  unfoldable pub insert_query : SavedQuery → List SavedQuery → List SavedQuery
  insert_query q [] = q ∷ []
  insert_query q (x ∷ xs) =
      let rest = insert_query q xs in if not_after q x then q ∷ x ∷ xs else x ∷ rest

  -- The stable sort of the list.
  unfoldable pub sort_queries : List SavedQuery → List SavedQuery
  unfolding insert_query
  sort_queries [] = []
  sort_queries (q ∷ qs) = insert_query q (sort_queries qs)

  unfoldable pub create : String → SavedQuery → SavedQueriesState → SavedQueriesState
  unfolding put sort_queries
  create connection_id saved s = record s {
    cache =
        put connection_id (sort_queries (get_or [] (s.cache connection_id) ++ saved ∷ [])) s.cache;
  }

  unfoldable pub update : String → SavedQuery → SavedQueriesState → SavedQueriesState
  unfolding put sort_queries
  update id saved s = record s {
    cache =
        put saved.connection_id
          (sort_queries (map (with_update id saved) (get_or [] (s.cache saved.connection_id))))
          s.cache;
  }
