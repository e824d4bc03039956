-- ===== src/Tabs/Runtime.antt =====
-- state/tab-state.ts: what a tab shows, by the tab's id. A patch has an `Option` for each field, `none`
-- where it does not have the key; `some none` sets the field to `undefined`.
pub mod Laws
use basemaster.Base.{ℕ, String, Bool, Option, none, some, List, if◌then◌else◌}
use basemaster.Types.{OrderBy, Filter, FilterNode}
use basemaster.Base.Dict.{Dict, put, remove}

-- `{ ...base, ...patch }` at one field
abbrev pub over {ℓ} : {A : Type ℓ} → Option A → A → A
over none a = a
over (some b) a = b

pub record ScrollOffset : Type 0 where
  pub col : ℕ
  pub row : ℕ

pub record QueryTabState : Type 0 where
  pub sql : Option String
  pub schema : Option String
  pub column_sizes : Option (Dict ℕ)
  pub scroll_offset : Option ScrollOffset

pub record QueryPatch : Type 0 where
  pub sql : Option (Option String)
  pub schema : Option (Option String)
  pub column_sizes : Option (Option (Dict ℕ))
  pub scroll_offset : Option (Option ScrollOffset)

pub record TableTabState : Type 0 where
  pub page : Option ℕ
  pub limit : Option ℕ
  pub order_by : Option (Option OrderBy)
  pub hidden_columns : Option (List String)
  pub column_order : Option (List String)
  pub column_sizes : Option (Dict ℕ)
  pub scroll_offset : Option ScrollOffset
  pub filter_tree : Option (Option FilterNode)
  pub filter_tree_draft : Option (Option FilterNode)
  pub filters : Option (List Filter)

pub record TablePatch : Type 0 where
  pub page : Option (Option ℕ)
  pub limit : Option (Option ℕ)
  pub order_by : Option (Option (Option OrderBy))
  pub hidden_columns : Option (Option (List String))
  pub column_order : Option (Option (List String))
  pub column_sizes : Option (Option (Dict ℕ))
  pub scroll_offset : Option (Option ScrollOffset)
  pub filter_tree : Option (Option (Option FilterNode))
  pub filter_tree_draft : Option (Option (Option FilterNode))
  pub filters : Option (Option (List Filter))

pub data TabRuntimeState : Type 0 where
  query : QueryTabState → TabRuntimeState
  table : TableTabState → TabRuntimeState

abbrev pub ByTab : Type 0
ByTab = Dict TabRuntimeState

abbrev pub empty_query : QueryTabState
empty_query = record { sql = none; schema = none; column_sizes = none; scroll_offset = none }

abbrev pub empty_table : TableTabState
empty_table = record {
  page = none;
  limit = none;
  order_by = none;
  hidden_columns = none;
  column_order = none;
  column_sizes = none;
  scroll_offset = none;
  filter_tree = none;
  filter_tree_draft = none;
  filters = none;
}

-- `cur && cur.kind === "query" ? cur : {}`
abbrev pub query_base : Option TabRuntimeState → QueryTabState
query_base (some (query s)) = s
query_base _ = empty_query

abbrev pub table_base : Option TabRuntimeState → TableTabState
table_base (some (table s)) = s
table_base _ = empty_table

abbrev pub over_query : QueryPatch → QueryTabState → QueryTabState
over_query p s = record {
  sql = over p.sql s.sql;
  schema = over p.schema s.schema;
  column_sizes = over p.column_sizes s.column_sizes;
  scroll_offset = over p.scroll_offset s.scroll_offset;
}

abbrev pub over_table : TablePatch → TableTabState → TableTabState
over_table p s = record {
  page = over p.page s.page;
  limit = over p.limit s.limit;
  order_by = over p.order_by s.order_by;
  hidden_columns = over p.hidden_columns s.hidden_columns;
  column_order = over p.column_order s.column_order;
  column_sizes = over p.column_sizes s.column_sizes;
  scroll_offset = over p.scroll_offset s.scroll_offset;
  filter_tree = over p.filter_tree s.filter_tree;
  filter_tree_draft = over p.filter_tree_draft s.filter_tree_draft;
  filters = over p.filters s.filters;
}

unfoldable pub patch_query : String → QueryPatch → ByTab → ByTab
patch_query tab_id p s = put tab_id (query (over_query p (query_base (s tab_id)))) s

unfoldable pub patch_table : String → TablePatch → ByTab → ByTab
patch_table tab_id p s = put tab_id (table (over_table p (table_base (s tab_id)))) s

unfoldable pub query_of : String → ByTab → Option QueryTabState
query_of tab_id s = elim (s tab_id) [
  | some state ↦ elim state [ query q ↦ some q | table _ ↦ none ]
  | none ↦ none
]

unfoldable pub table_of : String → ByTab → Option TableTabState
table_of tab_id s = elim (s tab_id) [
  | some state ↦ elim state [ table t ↦ some t | query _ ↦ none ]
  | none ↦ none
]

abbrev pub move_entry : String → String → Bool → Option TabRuntimeState → ByTab → ByTab
move_entry from to remove_source none s = s
move_entry from to remove_source (some entry) s =
    let next = put to entry s in if remove_source then remove from next else next

-- `move(from, to, removeSource)`; an absent flag is `false`.
unfoldable pub move : String → String → Bool → ByTab → ByTab
move from to remove_source s = move_entry from to remove_source (s from) s

unfoldable pub snapshot : String → ByTab → Option TabRuntimeState
snapshot tab_id s = s tab_id
