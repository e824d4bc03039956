-- ===== src/MultiSelect.antt =====
-- The selection of tables in the sidebar: state/sidebar-multi-select.ts. A `Set` is its `has`.
pub mod Ranges
mod Tests
use basemaster.Base.{
  ℕ, ◌+◌, ◌&&◌, ◌||◌, not, String, Bool, true, false, Option, none, some, List, [], ◌∷◌, find_index,
  slice, leb, str_eq, if◌then◌else◌,
}
use basemaster.Base.Dict.{includes}

pub record SidebarMultiScope : Type 0 where
  pub connection_id : String
  pub schema : String

pub record SidebarMultiState : Type 0 where
  pub scope : Option SidebarMultiScope
  pub selected : String → Bool
  pub anchor : Option String
  pub ordered : List String

pub record Mods : Type 0 where
  pub ctrl : Bool
  pub shift : Bool

abbrev pub same_multi_scope : Option SidebarMultiScope → SidebarMultiScope → Bool
same_multi_scope none b = false
same_multi_scope (some a) b = str_eq a.connection_id b.connection_id && str_eq a.schema b.schema

abbrev pub no_table : String → Bool
no_table t = false

abbrev pub only : String → String → Bool
only table t = str_eq table t

unfoldable pub set_ordered_list :
    SidebarMultiScope → List String → SidebarMultiState → SidebarMultiState
set_ordered_list scope ordered s =
    if same_multi_scope s.scope scope
    then record s { ordered = ordered; selected = λ t. s.selected t && includes t ordered }
    else record s { ordered = ordered }

-- `list.indexOf(table)`
abbrev pub index_of : String → List String → Option ℕ
index_of table list = find_index (λ t. str_eq t table) list

-- `for (let i = from; i <= to; i++) range.add(list[i]);`, with the places in order
abbrev pub add_range : ℕ → ℕ → List String → (String → Bool) → String → Bool
add_range a b list selected t =
    selected t
    || (if leb a b then includes t (slice a (b + 1) list) else includes t (slice b (a + 1) list))

-- What a click does if it does not extend a range.
abbrev pub click : SidebarMultiScope → String → Bool → SidebarMultiState → SidebarMultiState
click scope table toggles s =
    if toggles
    then record s {
      scope = some scope;
      selected = λ t. if str_eq table t then not (s.selected table) else s.selected t;
      anchor = some table;
    }
    else record s { scope = some scope; selected = only table; anchor = some table }

-- The branch of a shift-click, at the places of the anchor and of the table in the list.
abbrev pub extend :
    SidebarMultiScope → String → Bool → Option ℕ → Option ℕ → SidebarMultiState → SidebarMultiState
extend scope table toggles (some a) (some b) s = record s {
  scope = some scope;
  selected = add_range a b s.ordered s.selected;
}
extend scope table toggles none _ s = click scope table toggles s
extend scope table toggles (some a) none s = click scope table toggles s

-- `cur.anchor` as a condition: neither null nor empty
abbrev pub shift_click :
    SidebarMultiScope → String → Bool → Option String → SidebarMultiState → SidebarMultiState
shift_click scope table toggles none s = click scope table toggles s
shift_click scope table toggles (some anchor) s =
    if str_eq anchor ""
    then click scope table toggles s
    else extend scope table toggles (index_of anchor s.ordered) (index_of table s.ordered) s

unfoldable pub handle_click :
    SidebarMultiScope → String → Mods → SidebarMultiState → SidebarMultiState
handle_click scope table mods s =
    let in_scope = same_multi_scope s.scope scope in
    if mods.shift && in_scope
    then shift_click scope table (mods.ctrl && in_scope) s.anchor s
    else click scope table (mods.ctrl && in_scope) s

unfoldable pub ensure_contains : SidebarMultiScope → String → SidebarMultiState → SidebarMultiState
ensure_contains scope table s =
    if same_multi_scope s.scope scope && s.selected table
    then s
    else record s { scope = some scope; selected = only table; anchor = some table }

unfoldable pub clear : SidebarMultiState → SidebarMultiState
clear s = record s { scope = none; selected = no_table; anchor = none }

unfoldable pub is_selected : SidebarMultiScope → String → SidebarMultiState → Bool
is_selected scope table s = same_multi_scope s.scope scope && s.selected table
