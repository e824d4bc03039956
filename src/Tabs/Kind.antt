-- ===== src/Tabs/Kind.antt =====
-- The kinds of tabs of state/tabs.ts. A field marked `?` is an `Option`.
use basemaster.Base.{String, Bool, true, false, Option, List}
use basemaster.Types.{TransferJob}

pub data InitialView : Type 0 where
  data_view structure : InitialView

pub data Category : Type 0 where
  all tables views : Category

-- A schema to dump, with its tables (all of them if absent).
pub record Scope : Type 0 where
  pub schema : String
  pub tables : Option (List String)

pub record QueryTab : Type 0 where
  pub connection_id : String
  pub schema : Option String
  pub initial_sql : Option String
  pub auto_run : Option Bool
  pub saved_query_id : Option String
  pub saved_query_name : Option String

pub record TableTab : Type 0 where
  pub connection_id : String
  pub schema : String
  pub table : String
  pub initial_view : Option InitialView
  pub initial_edit : Option Bool

pub record TransferTab : Type 0 where
  pub source_connection_id : Option String
  pub source_schema : Option String
  pub target_connection_id : Option String
  pub target_schema : Option String
  pub tables : Option (List String)
  pub auto_advance : Option Bool
  pub target_folder_name : Option String
  pub initial_jobs : Option (List TransferJob)
  pub saved_transfer_id : Option String

pub data TabKind : Type 0 where
  welcome new_connection settings saved_transfers_list : TabKind
  edit_connection : (connection_id : String) → TabKind
  query : QueryTab → TabKind
  table : TableTab → TabKind
  tables_list : (connection_id schema : String) → (category : Option Category) → TabKind
  saved_queries_list : (connection_id : String) → (schema : Option String) → TabKind
  query_history scheduled_backups processes users : (connection_id : String) → TabKind
  data_import : (connection_id schema table : Option String) → TabKind
  new_table : (connection_id schema : String) → TabKind
  sql_dump : (source_connection_id : String) → (scopes : List Scope) → TabKind
  sql_import :
      (target_connection_id : String) → (schema initial_file_path : Option String) → TabKind
  schema_rename : (connection_id from to : String) → TabKind
  data_transfer : TransferTab → TabKind

-- EPHEMERAL_KINDS.includes(kind): the kinds that are not restored.
unfoldable pub is_ephemeral : TabKind → Bool
is_ephemeral new_connection = true
is_ephemeral (edit_connection _) = true
is_ephemeral (schema_rename _ _ _) = true
is_ephemeral _ = false
