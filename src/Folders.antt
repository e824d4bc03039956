-- ===== src/Folders.antt =====
-- The two stores of state/folder-stores.ts. An asynchronous operation is modelled by what it does when
-- the backend's answer is there; the answer is an argument. An assignment of a schema, or a table, to a
-- folder is a map from its name to the folder's id.
pub mod Schemas
pub mod Tables
mod Tests
use basemaster.Base.{
  String, ◌≡◌, refl, true, false, Option, none, some, List, [], ◌∷◌, ◌++◌, arith, str_eq,
  if◌then◌else◌,
}
use basemaster.Base.Dict.{Dict, put, remove, includes}

-- `for (const k of Object.keys(asg)) if (asg[k] === id) delete asg[k];`
unfoldable pub unassign : String → Dict String → Dict String
unassign id asg k = elim (asg k) [
  | none ↦ none
  | some folder ↦ if str_eq folder id then none else some folder
]

-- `if (folderId) cur[name] = folderId; else delete cur[name];`, where "" counts as no folder
unfoldable pub assign : String → Option String → Dict String → Dict String
assign name none asg = remove name asg
assign name (some folder_id) asg =
    if str_eq folder_id "" then remove name asg else put name folder_id asg

-- Every folder to which a name is assigned is one of the folders with these ids.
abbrev pub IsClosed : List String → Dict String → Type 0
IsClosed ids asg = (name id : String) → asg name ≡ some id → includes id ids ≡ true

unassign_lem :
    (id : String) (asg : Dict String) (k f : String)
    → unassign id asg k ≡ some f
    → (str_eq f id ≡ false) × (asg k ≡ some f)
unfolding unassign
unassign_lem id asg k f e = ground arith

pub unassign-IsClosed :
    (id : String) (ids rest : List String) (asg : Dict String)
    → ((f : String) → str_eq f id ≡ false → includes f ids ≡ true → includes f rest ≡ true)
    → IsClosed ids asg
    → IsClosed rest (unassign id asg)
unassign-IsClosed id ids rest asg keeps h name f e =
    let (ne, old) = unassign_lem id asg name f e in keeps f ne (h name f old)

-- The folder of a `move`, if it is not null, is listed.
abbrev pub IsTarget : Option String → List String → Type 0
IsTarget none ids = Unit
IsTarget (some id) ids = includes id ids ≡ true

pub assign-IsClosed :
    (name : String) (target : Option String) (ids : List String) (asg : Dict String)
    → IsTarget target ids
    → IsClosed ids asg
    → IsClosed ids (assign name target asg)
unfolding assign put remove
assign-IsClosed name none ids asg t h k f e = ground (arith, h k f)
assign-IsClosed name (some id) ids asg t h k f e = ground (arith, h k f)

pub includes-append :
    (a : String) (xs ys : List String)
    → includes a (xs ++ ys) ≡ (if includes a xs then true else includes a ys)
unfolding includes
includes-append a [] ys = refl
includes-append a (x ∷ xs) ys = ground (arith, includes-append a xs ys)
