-- ===== src/Tabs/Tests.antt =====
-- The theorems on a tab bar with three tabs.
use basemaster.Base.{refl, String, Bool, true, none, some, [], ◌∷◌, str_eq}
use basemaster.Base.Dict.{put, empty}
use basemaster.Tabs.Kind.{TabKind, welcome, settings, new_connection}
use basemaster.Tabs.Runtime.{QueryTabState, QueryPatch, query, ByTab, empty_query}
use basemaster.Tabs.Draft.{DraftPatch, StructureTab}
use basemaster.Tabs.Store.{Tab, NewTab, TabsState, World, open_tab, close, sanitize_restored}
use basemaster.Tabs.Invariant.{IsValid}
use basemaster.Tabs.Reach.{Reach, here, next, opens, closes, restarts, Reach-IsValid}

abbrev tab : String → TabKind → Tab
tab id kind = record { id = id; label = id; kind = kind; dirty = none; accent_color = none }

abbrev bar : TabsState
bar = record {
  tabs = tab "a" welcome ∷ tab "b" settings ∷ tab "c" new_connection ∷ [];
  active_id = some "b";
}

abbrev run_sql : QueryTabState
run_sql = record empty_query { sql = some "SELECT 1" }

abbrev kept : ByTab
kept = put "b" (query run_sql) empty

abbrev world : World
world = record { bar = bar; by_tab = kept }

bar-IsValid : IsValid bar
bar-IsValid = record { distinct = (refl, (refl, (refl, tt))); active = refl }

abbrev fresh_tab : NewTab
fresh_tab = record { label = "d"; kind = settings; dirty = none; accent_color = none }

abbrev opened_world : World
opened_world = record world { bar = (open_tab fresh_tab none "d" bar).0 }

abbrev restarted : World
restarted = record (close "d" opened_world) {
  bar = sanitize_restored "w" (close "d" opened_world).bar;
}

-- A tab is opened_world and closed, and the program restarts.
session : Reach world restarted
session = next (next (next here (opens fresh_tab none "d" refl)) (closes "d")) (restarts "w")

Reach-IsValid_example : IsValid restarted.bar
Reach-IsValid_example = Reach-IsValid bar-IsValid session

abbrev is_b : Tab → Bool
is_b t = str_eq t.id "b"

abbrev to_schema : QueryPatch
to_schema = record {
  sql = none;
  schema = some (some "s");
  column_sizes = none;
  scroll_offset = none;
}

abbrev no_change : DraftPatch
no_change = record {
  view = none;
  editing = none;
  structure_tab = none;
  draft_cols = none;
  draft_idx = none;
  draft_fks = none;
  draft_opts = none;
}

abbrev starts_edit : DraftPatch
starts_edit = record no_change { editing = some (some true) }

abbrev shows_sql : DraftPatch
shows_sql = record no_change { structure_tab = some (some StructureTab.sql) }
