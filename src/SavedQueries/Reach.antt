-- ===== src/SavedQueries/Reach.antt =====
-- The cache of state/saved-queries.ts through any sequence of operations.
use basemaster.Base.{◌≡◌, String, Bool, none, some, List, [], ◌∷◌, ◌++◌, filter, All, str_eq, true}
use basemaster.SavedQueries.{
  SavedQuery, SavedQueriesState, refresh_begin, refresh_end, invalidate, delete, create, update,
}
use basemaster.SavedQueries.Coherent.{of_connection, rows_changed, rows_without}

-- The store, and the queries that the backend has stored.
pub record Saved : Type 0 where
  pub state : SavedQueriesState
  pub rows : List SavedQuery

-- One operation, with the backend's answer. A list that arrives is still the one of the backend: nothing
-- has been created, changed or deleted for the connection since it was read. A query is created, changed or deleted only where the list of
-- its connection is kept, and a changed one stays with its connection.
pub data Step (not_after : SavedQuery → SavedQuery → Bool) (w : Saved) : Saved → Type 0 where
  begins_refresh :
      (conn : String) → Step not_after w (record w { state = refresh_begin conn w.state })
  refreshes :
      (conn : String) (list : List SavedQuery)
      → list ≡ filter (of_connection conn) w.rows
      → Step not_after w (record w { state = refresh_end conn (some list) w.state })
  fails_refresh :
      (conn : String) → Step not_after w (record w { state = refresh_end conn none w.state })
  invalidates : (conn : String) → Step not_after w (record w { state = invalidate conn w.state })
  creates :
      (conn : String) (cur : List SavedQuery) (saved : SavedQuery)
      → w.state.cache conn ≡ some cur
      → saved.connection_id ≡ conn
      → Step not_after w
          (record { state = create not_after conn saved w.state; rows = w.rows ++ saved ∷ [] })
  updates :
      (id : String) (cur : List SavedQuery) (saved : SavedQuery)
      → w.state.cache saved.connection_id ≡ some cur
      → All (λ q. str_eq q.id id ≡ true → q.connection_id ≡ saved.connection_id) w.rows
      → Step not_after w (record {
        state = update not_after id saved w.state;
        rows = rows_changed id saved w.rows;
      })
  deletes :
      (conn id : String) (cur : List SavedQuery)
      → w.state.cache conn ≡ some cur
      → All (λ q. str_eq q.id id ≡ true → q.connection_id ≡ conn) w.rows
      → Step not_after w (record { state = delete conn id w.state; rows = rows_without id w.rows })

pub data Reach (not_after : SavedQuery → SavedQuery → Bool) (w : Saved) : Saved → Type 0 where
  here : Reach not_after w w
  next : {u v : Saved} → Reach not_after w u → Step not_after u v → Reach not_after w v
