-- ===== src/Folders/Tables/Integrity.antt =====
-- No name is assigned to a table folder that is not listed.
use basemaster.Base.{
  ◌≡◌, refl, ap, String, true, false, Option, List, [], ◌∷◌, ◌++◌, arith, str_eq, eq_iff,
  Bool-cases, inl, inr,
}
use basemaster.Base.Dict.{Dict, empty, put, includes}
use basemaster.Types.{TableFolder, TableFolderAssignment}
use basemaster.Folders.{IsClosed, IsTarget, unassign-IsClosed, assign-IsClosed, includes-append}
use basemaster.Folders.Tables.{
  State, folders_of, assignments_of, asg_from, asg_map, reload, create, renamed, rename, without,
  delete, move, key,
}

abbrev pub ids : List TableFolder → List String
ids [] = []
ids (f ∷ folders) = f.id ∷ ids folders

-- Every name of a schema is assigned to a folder that is listed there.
abbrev pub IsValid : State → Type 0
IsValid s = (k : String) → IsClosed (ids (folders_of k s)) (assignments_of k s)

ids-append : (xs ys : List TableFolder) → ids (xs ++ ys) ≡ ids xs ++ ids ys
ids-append [] ys = refl
ids-append (x ∷ xs) ys = ap (◌∷◌ x.id) (ids-append xs ys)

ids-renamed :
    (id name : String) (folders : List TableFolder) → ids (renamed id name folders) ≡ ids folders
ids-renamed id name [] = refl
ids-renamed id name (f ∷ folders) = ground (arith, ids-renamed id name folders)

includes-without :
    (id : String) (folders : List TableFolder) (f : String)
    → str_eq f id ≡ false
    → includes f (ids folders) ≡ true
    → includes f (ids (without id folders)) ≡ true
unfolding includes
includes-without id [] f ne h = h
includes-without id (g ∷ folders) f ne h =
    ground (arith, includes-without id folders f ne, eq_iff g.id f, eq_iff g.id id, eq_iff f id)

-- The rows of an answer name only folders of the same answer.
abbrev pub AreListed : List String → List TableFolderAssignment → Type 0
AreListed ids [] = Unit
AreListed ids (a ∷ rows) = (includes a.folder_id ids ≡ true) × AreListed ids rows

asg_from-IsClosed :
    (ids : List String) (m : Dict String) (rows : List TableFolderAssignment)
    → IsClosed ids m
    → AreListed ids rows
    → IsClosed ids (asg_from m rows)
asg_from-IsClosed ids m [] h l = h
asg_from-IsClosed ids m (a ∷ rows) h (listed, l) =
    asg_from-IsClosed ids (put a.table_name a.folder_id m) rows
      (unfold put in λ name id e. ground (arith, h name id)) l

-- Two parts of the state, changed at one key alone.
IsValid-set :
    (k : String) (folders : List TableFolder) (asg : Dict String) (s : State)
    → IsClosed (ids folders) asg
    → IsValid s
    → IsValid (record { folders = put k folders s.folders; assignments = put k asg s.assignments })
unfolding put
IsValid-set k folders asg s new h j = elim (Bool-cases (str_eq k j)) [
  | inl e ↦ rw e new
  | inr e ↦ rw e (h j)
]

IsValid-set_folders :
    (k : String) (folders : List TableFolder) (s : State)
    → IsClosed (ids folders) (assignments_of k s)
    → IsValid s
    → IsValid (record s { folders = put k folders s.folders })
unfolding put
IsValid-set_folders k folders s new h j = elim (Bool-cases (str_eq k j)) [
  | inl e ↦ rw (e, ← (eq_iff k j).0 e) new
  | inr e ↦ rw e (h j)
]

IsValid-set_assignments :
    (k : String) (asg : Dict String) (s : State)
    → IsClosed (ids (folders_of k s)) asg
    → IsValid s
    → IsValid (record s { assignments = put k asg s.assignments })
unfolding put
IsValid-set_assignments k asg s new h j = elim (Bool-cases (str_eq k j)) [
  | inl e ↦ rw (e, ← (eq_iff k j).0 e) new
  | inr e ↦ rw e (h j)
]

-- What the program does with the folders, when the backend has answered.
pub data Step (s : State) : State → Type 0 where
  reloads :
      (connection_id schema : String) (folders : List TableFolder)
      (rows : List TableFolderAssignment)
      → AreListed (ids folders) rows
      → Step s (reload connection_id schema folders rows s)
  creates :
      (connection_id schema : String) (folder : TableFolder)
      → Step s (create connection_id schema folder s)
  renames : (connection_id schema id name : String) → Step s (rename connection_id schema id name s)
  deletes : (connection_id schema id : String) → Step s (delete connection_id schema id s)
  moves :
      (connection_id schema name : String) (target : Option String)
      → IsTarget target (ids (folders_of (key connection_id schema) s))
      → Step s (move connection_id schema name target s)

pub data Reach (s : State) : State → Type 0 where
  here : Reach s s
  next : {t u : State} → Reach s t → Step t u → Reach s u

Step-IsValid : {s t : State} → Step s t → IsValid s → IsValid t
unfolding reload asg_map create rename delete move
Step-IsValid {s} (reloads connection_id schema folders rows listed) h =
    IsValid-set (key connection_id schema) folders _ s
      (asg_from-IsClosed (ids folders) empty rows (λ name id e. absurd (cc e)) listed) h
Step-IsValid {s} (creates connection_id schema folder) h =
    IsValid-set_folders (key connection_id schema) _ s
      (λ name id e. rw (ids-append, includes-append, h (key connection_id schema) name id e) refl) h
Step-IsValid {s} (renames connection_id schema id name) h =
    IsValid-set_folders (key connection_id schema) _ s
      (rw ids-renamed (h (key connection_id schema))) h
Step-IsValid {s} (deletes connection_id schema id) h =
    IsValid-set (key connection_id schema) _ _ s
      (unassign-IsClosed id _ _ _ (includes-without id (folders_of (key connection_id schema) s))
        (h (key connection_id schema)))
      h
Step-IsValid {s} (moves connection_id schema name target t) h =
    IsValid-set_assignments (key connection_id schema) _ s
      (assign-IsClosed name target _ _ t (h (key connection_id schema))) h

-- No table is ever assigned to a folder that is not listed: this holds from a state where it holds,
-- through every creation, renaming, deletion, move and reload, in any order, if a reload's rows name
-- folders of the same answer and a move's target is a listed folder or none.
pub tables-Reach-IsValid : {s t : State} → IsValid s → Reach s t → IsValid t
tables-Reach-IsValid h here = h
tables-Reach-IsValid h (next r st) = Step-IsValid st (tables-Reach-IsValid h r)
