-- ===== src/Tabs/Runtime/Laws.antt =====
-- Moving and patching the kept state of tabs.
use basemaster.Base.{
  ◌≡◌, ◌≢◌, refl, ap, sym, ◌∙◌, String, Bool, Option, none, some, arith, str_eq, eq_iff,
  if◌then◌else◌,
}
use basemaster.Base.Dict.{put, remove, put_self}
use basemaster.Tabs.Runtime.{
  TabRuntimeState, query, table, ByTab, QueryTabState, QueryPatch, over_query, query_base,
  empty_query, patch_query, query_of, table_of, move,
}

-- What a tab shows after `move(from, to, removeSource)` between two different tabs: the target has what
-- the source had, or keeps its own if the source had nothing; the source loses it exactly if the flag is
-- set; every other tab is as before.
pub move_lem :
    (from to : String) (remove_source : Bool) (s : ByTab) (j : String)
    → from ≢ to
    → move from to remove_source s j ≡ (
        if str_eq to j
        then (elim (s from) [ none ↦ s to | some entry ↦ some entry ])
        else if str_eq from j
        then (if remove_source then none else s from)
        else s j)
unfolding move put remove
move_lem from to remove_source s j h = ground (arith, eq_iff from to, eq_iff to j, eq_iff from j)

abbrev pub or_empty_query : Option QueryTabState → QueryTabState
or_empty_query none = empty_query
or_empty_query (some s) = s

-- `query_of` of a store, on what the store holds for the tab
abbrev as_query : Option TabRuntimeState → Option QueryTabState
as_query (some (query q)) = some q
as_query _ = none

or_empty_query-as_query : (o : Option TabRuntimeState) → query_base o ≡ or_empty_query (as_query o)
or_empty_query-as_query none = refl
or_empty_query-as_query (some (query q)) = refl
or_empty_query-as_query (some (table t)) = refl

query_of_lem : (tab_id : String) (s : ByTab) → query_of tab_id s ≡ as_query (s tab_id)
unfolding query_of
query_of_lem tab_id s = by_state (s tab_id)
  where
    by_state :
        (o : Option TabRuntimeState)
        → (elim o [ some state ↦ elim state [ query q ↦ some q | table _ ↦ none ] | none ↦ none ])
          ≡ as_query o
    by_state none = refl
    by_state (some (query q)) = refl
    by_state (some (table t)) = refl

table_of_query :
    (tab_id : String) (s : ByTab) {q : QueryTabState}
    → s tab_id ≡ some (query q)
    → table_of tab_id s ≡ none
unfolding table_of
table_of_query tab_id s e = rw (e, table_of) refl

put_if :
    (k : String) (v : TabRuntimeState) (s : ByTab) (j : String)
    → put k v s j ≡ (if str_eq k j then put k v s k else s j)
put_if k v s j = rw put_self (unfold put in refl)

-- `patchQuery` merges the patch into the query state of the tab, or into an empty one if the tab has
-- none; the tab is then a query tab, whatever it was, and no other tab changes.
pub patch_query_lem :
    (tab_id : String) (p : QueryPatch) (s : ByTab) (j : String)
    → (query_of tab_id (patch_query tab_id p s)
        ≡ some (over_query p (or_empty_query (query_of tab_id s))))
      × (table_of tab_id (patch_query tab_id p s) ≡ none)
      × (patch_query tab_id p s j
          ≡ (if str_eq tab_id j then patch_query tab_id p s tab_id else s j))
unfolding patch_query
patch_query_lem tab_id p s j = (
  query_of_lem tab_id _
      ∙ ap as_query (put_self tab_id _ s)
      ∙ ap (λ b. some (over_query p b))
          (or_empty_query-as_query (s tab_id) ∙ ap or_empty_query (sym (query_of_lem tab_id s))),
  table_of_query tab_id _ (put_self tab_id _ s),
  put_if tab_id _ s j,
)
