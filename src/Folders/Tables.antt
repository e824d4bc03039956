-- ===== src/Folders/Tables.antt =====
-- The store of table folders of state/folder-stores.ts.
pub mod Integrity
use basemaster.Base.{
  String, Bool, true, false, not, Option, none, some, List, [], ◌∷◌, ◌++◌, map, filter, str_eq,
  if◌then◌else◌,
}
use Prim.Native.String
use basemaster.Base.Dict.{Dict, empty, put, get_or}
use basemaster.Types.{TableFolder, TableFolderAssignment}
use basemaster.Folders.{unassign, assign}

-- `${connectionId}:${schema}`
unfoldable pub key : String → String → String
key connection_id schema = String.◌++◌ connection_id (String.◌++◌ ":" schema)

-- By `key(connId, schema)`; `none` is both `null` and absent: not loaded.
pub record State : Type 0 where
  pub folders : Dict (List TableFolder)
  pub assignments : Dict (Dict String)

abbrev pub asg_from : Dict String → List TableFolderAssignment → Dict String
asg_from m [] = m
asg_from m (a ∷ rows) = asg_from (put a.table_name a.folder_id m) rows

unfoldable pub asg_map : List TableFolderAssignment → Dict String
asg_map rows = asg_from empty rows

abbrev pub folders_of : String → State → List TableFolder
folders_of k s = get_or [] (s.folders k)

abbrev pub assignments_of : String → State → Dict String
assignments_of k s = get_or empty (s.assignments k)

abbrev pub folder_is : String → TableFolder → Bool
folder_is id f = str_eq f.id id

-- `ensure`: whether it returns with no `reload`.
unfoldable pub is_loaded : String → String → State → Bool
is_loaded connection_id schema s = elim (s.folders (key connection_id schema)) [
  | none ↦ false
  | some _ ↦ true
]

unfoldable pub reload :
    String → String → List TableFolder → List TableFolderAssignment → State → State
reload connection_id schema folders asgs s = record {
  folders = put (key connection_id schema) folders s.folders;
  assignments = put (key connection_id schema) (asg_map asgs) s.assignments;
}

unfoldable pub create : String → String → TableFolder → State → State
create connection_id schema folder s = record s {
  folders =
      put (key connection_id schema) (folders_of (key connection_id schema) s ++ folder ∷ [])
        s.folders;
}

abbrev pub renamed : String → String → List TableFolder → List TableFolder
renamed id name folders = map (λ f. if folder_is id f then record f { name = name } else f) folders

unfoldable pub rename : String → String → String → String → State → State
rename connection_id schema id name s = record s {
  folders =
      put (key connection_id schema) (renamed id name (folders_of (key connection_id schema) s))
        s.folders;
}

abbrev pub without : String → List TableFolder → List TableFolder
without id folders = filter (λ f. not (folder_is id f)) folders

unfoldable pub delete : String → String → String → State → State
delete connection_id schema id s = record {
  folders =
      put (key connection_id schema) (without id (folders_of (key connection_id schema) s))
        s.folders;
  assignments =
      put (key connection_id schema) (unassign id (assignments_of (key connection_id schema) s))
        s.assignments;
}

unfoldable pub move : String → String → String → Option String → State → State
move connection_id schema name folder_id s = record s {
  assignments =
      put (key connection_id schema)
        (assign name folder_id (assignments_of (key connection_id schema) s)) s.assignments;
}
