-- ===== src/Tabs/Store.antt =====
-- The store of state/tabs.ts. Closing a tab also calls `remove` of state/tab-state.ts, so the state of
-- both stores is one record here. A new id (`crypto.randomUUID`) is an argument.
use basemaster.Base.{
  ℕ, ◌-◌, String, Bool, false, not, Option, none, some, List, [], ◌∷◌, ◌++◌, map, length, get_elem?,
  filter, find, find_index, any, head?, str_eq, if◌then◌else◌,
}
use basemaster.Base.Dict.{remove}
use basemaster.Tabs.Kind.{TabKind, welcome, is_ephemeral}
use basemaster.Tabs.Runtime.{ByTab, over}

pub record Tab : Type 0 where
  pub id : String
  pub label : String
  pub kind : TabKind
  pub dirty : Option Bool
  pub accent_color : Option (Option String)

-- `Omit<Tab, "id">`
pub record NewTab : Type 0 where
  pub label : String
  pub kind : TabKind
  pub dirty : Option Bool
  pub accent_color : Option (Option String)

-- `Partial<Omit<Tab, "id">>`
pub record TabPatch : Type 0 where
  pub label : Option String
  pub kind : Option TabKind
  pub dirty : Option (Option Bool)
  pub accent_color : Option (Option (Option String))

pub record TabsState : Type 0 where
  pub tabs : List Tab
  pub active_id : Option String

-- The stores of tabs.ts and tab-state.ts
pub record World : Type 0 where
  pub bar : TabsState
  pub by_tab : ByTab

-- `{ ...tab, id }`
abbrev pub with_id : String → NewTab → Tab
with_id id tab = record {
  id = id;
  label = tab.label;
  kind = tab.kind;
  dirty = tab.dirty;
  accent_color = tab.accent_color;
}

abbrev pub id_is : String → Tab → Bool
id_is id t = str_eq t.id id

abbrev pub welcome_tab : String → Tab
welcome_tab id = record {
  id = id;
  label = "Bem-vindo";
  kind = welcome;
  dirty = none;
  accent_color = none;
}

-- `tab?.id ?? other`
abbrev pub id_or : Option Tab → Option String → Option String
id_or none other = other
id_or (some t) other = some t.id

abbrev pub or_new : Option String → String → String
or_new none fresh = fresh
or_new (some id) fresh = id

unfoldable pub open_tab : NewTab → Option String → String → TabsState → TabsState × String
open_tab tab explicit_id fresh s =
    let id = or_new explicit_id fresh in
    (record { tabs = s.tabs ++ with_id id tab ∷ []; active_id = some id }, id)

abbrev focus : Option Tab → NewTab → String → TabsState → TabsState × String
focus (some existing) tab fresh s = (record s { active_id = some existing.id }, existing.id)
focus none tab fresh s = open_tab tab none fresh s

unfoldable pub open_or_focus : (Tab → Bool) → NewTab → String → TabsState → TabsState × String
open_or_focus matches tab fresh s = focus (find matches s.tabs) tab fresh s

-- `s.activeId === id`, and the same for each tab's id
abbrev pub active_is : Option String → String → Bool
active_is none id = false
active_is (some a) id = str_eq a id

abbrev pub is_active : Option String → Tab → Bool
is_active active t = active_is active t.id

-- `Math.max(0, idx - 1)`, where `findIndex` gives -1 for `none`
abbrev pub before : Option ℕ → ℕ
before none = 0
before (some k) = k - 1

-- `s.tabs.filter((t) => t.id !== id)`
abbrev pub without : String → List Tab → List Tab
without id tabs = filter (λ t. not (id_is id t)) tabs

-- The `set` of `close`
unfoldable pub close_bar : String → TabsState → TabsState
close_bar id s =
    let tabs = without id s.tabs in
    let neighbour = get_elem? tabs (before (find_index (id_is id) s.tabs)) in
    record {
      tabs = tabs;
      active_id =
          if active_is s.active_id id
          then id_or neighbour (id_or (head? tabs) none)
          else s.active_id;
    }

unfoldable pub close : String → World → World
unfolding close_bar
close id w = record { bar = close_bar id w.bar; by_tab = remove id w.by_tab }

abbrev pub ids : List Tab → List String
ids [] = []
ids (t ∷ tabs) = t.id ∷ ids tabs

-- `for (const id of removed) tabState.remove(id)`
unfoldable pub remove_all : List String → ByTab → ByTab
remove_all [] by_tab = by_tab
remove_all (id ∷ removed) by_tab = remove_all removed (remove id by_tab)

-- The `set` of `closeMany`, on the tabs that it keeps
abbrev pub keep_bar : List Tab → TabsState → TabsState
keep_bar keep s = record {
  tabs = keep;
  active_id = if any (is_active s.active_id) keep then s.active_id else id_or (head? keep) none;
}

unfoldable pub close_many : (Tab → Bool) → World → World × ℕ
unfolding remove_all
close_many predicate w =
    let keep = filter (λ t. not (predicate t)) w.bar.tabs in
    let removed = filter predicate w.bar.tabs in
    (
      record { bar = keep_bar keep w.bar; by_tab = remove_all (ids removed) w.by_tab },
      length removed,
    )

unfoldable pub set_active : String → TabsState → TabsState
set_active id s = record s { active_id = some id }

abbrev pub over_tab : TabPatch → Tab → Tab
over_tab p t = record t {
  label = over p.label t.label;
  kind = over p.kind t.kind;
  dirty = over p.dirty t.dirty;
  accent_color = over p.accent_color t.accent_color;
}

unfoldable pub patch : String → TabPatch → TabsState → TabsState
patch id p s = record s { tabs = map (λ t. if id_is id t then over_tab p t else t) s.tabs }

abbrev pub restored : List Tab → String → TabsState → TabsState
restored [] wid s = record { tabs = welcome_tab wid ∷ []; active_id = some wid }
restored (t ∷ valid) wid s = record {
  tabs = t ∷ valid;
  active_id = if any (is_active s.active_id) (t ∷ valid) then s.active_id else some t.id;
}

-- `wid` is the new id of the welcome tab
unfoldable pub sanitize_restored : String → TabsState → TabsState
sanitize_restored wid s = restored (filter (λ t. not (is_ephemeral t.kind)) s.tabs) wid s
