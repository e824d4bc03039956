-- ===== src/SavedQueries/Tests.antt =====
-- Runs of the saved queries, and the theorem at a concrete input.
use basemaster.Base.{◌≡◌, refl, String, Bool, true, none, some, [], ◌∷◌, filter}
use basemaster.Base.Text.{codes}
use basemaster.Base.Dict.{empty}
use basemaster.SavedQueries.{
  SavedQuery, SavedQueriesState, refresh_end, create, update, ensure, cached,
  refreshes as goes_to_backend,
}
use basemaster.SavedQueries.Coherent.{of_connection}
use basemaster.SavedQueries.Reach.{Saved, Reach, refreshes}

abbrev stored_query : String → SavedQuery
stored_query id = record {
  id = id;
  connection_id = "c";
  schema = none;
  name = codes "all users";
  sql = codes "SELECT 1";
  created_at = 0;
  updated_at = 0;
}

abbrev in_turn : SavedQuery → SavedQuery → Bool
in_turn a b = true

abbrev started : SavedQueriesState
started = record { cache = empty; loading = empty }

abbrev loaded : SavedQueriesState
loaded = refresh_end "c" (some (filter (of_connection "c") (stored_query "1" ∷ []))) started

abbrev created : Saved
created = record {
  state = create in_turn "c" (stored_query "2") loaded;
  rows = stored_query "1" ∷ stored_query "2" ∷ [];
}

abbrev start : Saved
start = record { state = started; rows = stored_query "1" ∷ [] }

-- A query that is changed before its connection's list was loaded leaves an empty list, which then
-- counts as loaded.
updated_early : ensure "c" (update in_turn "1" (stored_query "1") started) ≡ cached []
unfolding ensure update
updated_early = refl

-- One that is created so is the only one of the list.
created_early :
    ensure "c" (create in_turn "c" (stored_query "2") started) ≡ cached (stored_query "2" ∷ [])
unfolding ensure create
created_early = refl

ensured_first : ensure "c" started ≡ goes_to_backend
unfolding ensure
ensured_first = refl

-- A list that was read before a query was created, and arrives behind it, takes it out of the cache.
late_list :
    (refresh_end "c" (some (stored_query "1" ∷ [])) created.state).cache "c"
    ≡ some (stored_query "1" ∷ [])
unfolding refresh_end create
late_list = refl
