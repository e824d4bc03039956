-- ===== src/Tabs/Draft.antt =====
-- state/table-draft.ts: the draft of a table's structure, kept for a tab only while the program runs.
pub mod Laws
use basemaster.Base.{String, Bool, Option, none, some, List}
use basemaster.Base.Text.{Text}
use basemaster.Base.Dict.{Dict, put, remove}
use basemaster.Tabs.Kind.{InitialView}
use basemaster.Tabs.Runtime.{over}

pub record DraftColumn : Type 0 where
  pub uid : String
  pub original_name : Option Text
  pub name : Text
  pub raw_type : Text
  pub nullable : Bool
  pub default : Option Text
  pub comment : Text
  pub is_primary_key : Bool
  pub is_auto_increment : Bool

pub record DraftIndex : Type 0 where
  pub uid : String
  pub original_name : Option Text
  pub name : Text
  pub columns : List Text
  pub unique : Bool
  pub index_type : Text

pub record DraftForeignKey : Type 0 where
  pub uid : String
  pub original_name : Option Text
  pub name : Text
  pub columns : List Text
  pub ref_schema : Text
  pub ref_table : Text
  pub ref_columns : List Text
  pub on_update : Text
  pub on_delete : Text

pub record DraftOptions : Type 0 where
  pub engine : Text
  pub charset : Text
  pub collation : Text
  pub row_format : Text
  pub auto_increment : Text
  pub comment : Text

pub data StructureTab : Type 0 where
  columns indexes foreign_keys checks triggers options sql : StructureTab

pub record TableDraftEntry : Type 0 where
  pub view : Option InitialView
  pub editing : Option Bool
  pub structure_tab : Option StructureTab
  pub draft_cols : Option (List DraftColumn)
  pub draft_idx : Option (List DraftIndex)
  pub draft_fks : Option (List DraftForeignKey)
  pub draft_opts : Option DraftOptions

-- `Partial<TableDraftEntry>`: `none` where a key is absent.
pub record DraftPatch : Type 0 where
  pub view : Option (Option InitialView)
  pub editing : Option (Option Bool)
  pub structure_tab : Option (Option StructureTab)
  pub draft_cols : Option (Option (List DraftColumn))
  pub draft_idx : Option (Option (List DraftIndex))
  pub draft_fks : Option (Option (List DraftForeignKey))
  pub draft_opts : Option (Option DraftOptions)

abbrev pub Drafts : Type 0
Drafts = Dict TableDraftEntry

abbrev pub empty_entry : TableDraftEntry
empty_entry = record {
  view = none;
  editing = none;
  structure_tab = none;
  draft_cols = none;
  draft_idx = none;
  draft_fks = none;
  draft_opts = none;
}

-- `s.byTab[tabId] ?? {}`
abbrev pub entry_of : Option TableDraftEntry → TableDraftEntry
entry_of none = empty_entry
entry_of (some e) = e

-- `{ ...cur, ...p }`
abbrev pub over_entry : DraftPatch → TableDraftEntry → TableDraftEntry
over_entry p e = record {
  view = over p.view e.view;
  editing = over p.editing e.editing;
  structure_tab = over p.structure_tab e.structure_tab;
  draft_cols = over p.draft_cols e.draft_cols;
  draft_idx = over p.draft_idx e.draft_idx;
  draft_fks = over p.draft_fks e.draft_fks;
  draft_opts = over p.draft_opts e.draft_opts;
}

unfoldable pub get_draft : String → Drafts → Option TableDraftEntry
get_draft tab_id s = s tab_id

unfoldable pub patch_draft : String → DraftPatch → Drafts → Drafts
patch_draft tab_id p s = put tab_id (over_entry p (entry_of (s tab_id))) s

unfoldable pub clear_draft : String → Drafts → Drafts
clear_draft tab_id s = remove tab_id s
