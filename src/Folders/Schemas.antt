-- ===== src/Folders/Schemas.antt =====
-- The store of schema folders of state/folder-stores.ts.
pub mod Integrity
use basemaster.Base.{
  String, Bool, true, false, not, Option, none, some, List, [], ◌∷◌, ◌++◌, map, filter, str_eq,
  if◌then◌else◌,
}
use basemaster.Base.Dict.{Dict, empty, put, get_or}
use basemaster.Types.{SchemaFolder, SchemaFolderAssignment}
use basemaster.Folders.{unassign, assign}

-- By connection; `none` is both `null` and absent: not loaded.
pub record State : Type 0 where
  pub folders : Dict (List SchemaFolder)
  pub assignments : Dict (Dict String)

abbrev pub asg_from : Dict String → List SchemaFolderAssignment → Dict String
asg_from m [] = m
asg_from m (a ∷ rows) = asg_from (put a.schema_name a.folder_id m) rows

unfoldable pub asg_map : List SchemaFolderAssignment → Dict String
asg_map rows = asg_from empty rows

abbrev pub folders_of : String → State → List SchemaFolder
folders_of k s = get_or [] (s.folders k)

abbrev pub assignments_of : String → State → Dict String
assignments_of k s = get_or empty (s.assignments k)

abbrev pub folder_is : String → SchemaFolder → Bool
folder_is id f = str_eq f.id id

-- `ensure`: whether it returns with no `reload`.
unfoldable pub is_loaded : String → State → Bool
is_loaded connection_id s = elim (s.folders connection_id) [ none ↦ false | some _ ↦ true ]

unfoldable pub reload : String → List SchemaFolder → List SchemaFolderAssignment → State → State
reload connection_id folders asgs s = record {
  folders = put connection_id folders s.folders;
  assignments = put connection_id (asg_map asgs) s.assignments;
}

unfoldable pub create : String → SchemaFolder → State → State
create connection_id folder s = record s {
  folders = put connection_id (folders_of connection_id s ++ folder ∷ []) s.folders;
}

abbrev pub renamed : String → String → List SchemaFolder → List SchemaFolder
renamed id name folders = map (λ f. if folder_is id f then record f { name = name } else f) folders

unfoldable pub rename : String → String → String → State → State
rename connection_id id name s = record s {
  folders = put connection_id (renamed id name (folders_of connection_id s)) s.folders;
}

abbrev pub without : String → List SchemaFolder → List SchemaFolder
without id folders = filter (λ f. not (folder_is id f)) folders

unfoldable pub delete : String → String → State → State
delete connection_id id s = record {
  folders = put connection_id (without id (folders_of connection_id s)) s.folders;
  assignments = put connection_id (unassign id (assignments_of connection_id s)) s.assignments;
}

unfoldable pub move : String → String → Option String → State → State
move connection_id name folder_id s = record s {
  assignments =
      put connection_id (assign name folder_id (assignments_of connection_id s)) s.assignments;
}
