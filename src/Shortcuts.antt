-- ===== src/Shortcuts.antt =====
-- The keyboard shortcuts: the catalog of lib/shortcuts/registry.ts, but for its labels, and the user's
-- bindings of state/shortcuts.ts (here), and the canonical form of lib/shortcuts/match.ts (Match).
mod Tests
pub mod Match
pub mod Index
use basemaster.Base.{
  Bool, true, false, Option, none, some, List, [], ◌∷◌, ◌++◌, find, if◌then◌else◌,
}
use basemaster.Base.Text.{Text, codes, same_text}
use basemaster.Shortcuts.Match.{normalize_binding}

pub data Scope : Type 0 where
  global editor grid : Scope

pub record ShortcutAction : Type 0 where
  pub id : Text
  pub default_binding : Option Text
  pub scope : Scope
  pub allow_in_inputs : Bool
  pub sidebar_only : Bool

abbrev action : Text → Text → Scope → Bool → Bool → ShortcutAction
action id binding scope inputs sidebar = record {
  id = id;
  default_binding = some binding;
  scope = scope;
  allow_in_inputs = inputs;
  sidebar_only = sidebar;
}

abbrev pub shortcuts : List ShortcutAction
shortcuts =
    action (codes "query.run") (codes "Mod+Enter") editor false false
    ∷ action (codes "query.format") (codes "Mod+Shift+F") editor false false
    ∷ action (codes "query.toggleComment") (codes "Mod+/") editor false false
    ∷ action (codes "query.save") (codes "Mod+S") global false false
    ∷ action (codes "query.searchResult") (codes "Mod+F") global false false
    ∷ action (codes "tab.newQuery") (codes "Mod+T") global false false
    ∷ action (codes "tab.close") (codes "Mod+W") global false false
    ∷ action (codes "tab.next") (codes "Ctrl+Tab") global false false
    ∷ action (codes "tab.prev") (codes "Ctrl+Shift+Tab") global false false
    ∷ action (codes "table.openStructure") (codes "Mod+D") global false false
    ∷ action (codes "table.refresh") (codes "F5") global false false
    ∷ action (codes "layout.toggleSidebar") (codes "Mod+B") global true false
    ∷ action (codes "layout.toggleAi") (codes "Mod+J") global true false
    ∷ action (codes "view.zoomIn") (codes "Mod+=") global true false
    ∷ action (codes "view.zoomOut") (codes "Mod+-") global true false
    ∷ action (codes "view.zoomReset") (codes "Mod+0") global true false
    ∷ action (codes "view.fullscreen") (codes "F11") global true false
    ∷ action (codes "rename.selected") (codes "F2") global false true
    ∷ action (codes "delete.selected") (codes "Delete") global false true
    ∷ action (codes "global.palette") (codes "Mod+K") global true false
    ∷ action (codes "global.cheatsheet") (codes "Mod+/") global true false
    ∷ action (codes "global.settings") (codes "Mod+,") global true false
    ∷ []

unfoldable pub action_by_id : Text → Option ShortcutAction
unfolding same_text
action_by_id id = find (λ a. same_text a.id id) shortcuts

-- `overrides`: absent, or a binding, or `null` (here none) for a shortcut that is switched off.
abbrev pub Overrides : Type 0
Overrides = Text → Option (Option Text)

abbrev norm_of : Option Text → Option Text
norm_of none = none
norm_of (some []) = none
norm_of (some (c ∷ binding)) = some (normalize_binding (c ∷ binding))

unfoldable pub set_binding : Text → Option Text → Overrides → Overrides
unfolding normalize_binding same_text
set_binding action_id binding overrides id =
    if same_text action_id id then some (norm_of binding) else overrides id

unfoldable pub reset_binding : Text → Overrides → Overrides
unfolding same_text
reset_binding action_id overrides id = if same_text action_id id then none else overrides id

unfoldable pub reset_all : Overrides → Overrides
reset_all overrides id = none

abbrev default_or : Option Text → Option (Option Text) → Option Text
default_or default none = default
default_or default (some o) = o

abbrev pub effective : Option (Option Text) → Option ShortcutAction → Option Text
effective o none = none
effective o (some a) = default_or a.default_binding o

unfoldable pub resolve : Overrides → Text → Option Text
unfolding action_by_id
resolve overrides action_id = effective (overrides action_id) (action_by_id action_id)

-- A `Map` from bindings to the ids of their actions; a binding that is absent has none.
abbrev pub Index : Type 0
Index = Text → List Text

-- `arr.push(id); out.set(b, arr)`, for a binding that is there and is not empty.
unfoldable pub add_action : Option Text → Text → Index → Index
unfolding same_text
add_action none id out key = out key
add_action (some []) id out key = out key
add_action (some (c ∷ b)) id out key = if same_text (c ∷ b) key then out key ++ id ∷ [] else out key

unfoldable pub index_from : Overrides → List ShortcutAction → Index → Index
unfolding resolve add_action
index_from overrides [] out = out
index_from overrides (a ∷ actions) out =
    index_from overrides actions (add_action (resolve overrides a.id) a.id out)

unfoldable pub index_by_binding : Overrides → Index
unfolding index_from
index_by_binding overrides = index_from overrides shortcuts (λ key. [])
