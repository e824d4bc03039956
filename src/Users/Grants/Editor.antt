-- ===== src/Users/Grants/Editor.antt =====
-- The dialog of components/users-view.tsx that edits a user's privileges: its state, the statements that
-- it makes, and what is saved.
use basemaster.Base.{
  Bool, true, false, not, ◌&&◌, ◌||◌, Option, none, some, List, [], ◌∷◌, ◌++◌, map, if◌then◌else◌,
}
use basemaster.Base.Text.{Text, codes, join}
use basemaster.Users.Grants.{
  has, add, delete, eq_set, pg_attrs, pg_db_privs, mysql_grant_diff, quote_ident, quote_lit,
}

-- A text that is not empty.
abbrev pub some_unit : Text → Bool
some_unit [] = false
some_unit (c ∷ text) = true

-- The state of the dialog that edits the user.
pub record Editor : Type 0 where
  pub is_pg : Bool
  pub name : Text
  pub host : Option Text
  pub global_orig : List Text
  pub global_cur : List Text
  pub selected_db : Text
  pub db_orig : List Text
  pub db_cur : List Text

unfoldable pub toggle : Text → List Text → List Text
unfolding has delete add
toggle p cur = if has p cur then delete p cur else add p cur

abbrev host_of : Option Text → Text
host_of none = codes "%"
host_of (some host) = host

unfoldable pub user_ref : Editor → Text
unfolding quote_lit
user_ref e = quote_lit e.name ++ b'@' ∷ quote_lit (host_of e.host)

unfoldable pub alter_role : Editor → Text
unfolding quote_ident has
alter_role e =
    let attr = λ (a : Text). if has a e.global_cur then a else codes "NO" ++ a in
    codes "ALTER ROLE "
    ++ quote_ident true e.name
    ++ codes " WITH "
    ++ join (codes " ") (map attr pg_attrs)
    ++ codes ";"

-- The changes of the privileges on a database of Postgres: the privilege, and whether it is granted.
unfoldable pub pg_changes : List Text → List Text → List Text → List (Text × Bool)
unfolding has
pg_changes orig cur [] = []
pg_changes orig cur (p ∷ ps) =
    let rest = pg_changes orig cur ps in
    if has p cur && not (has p orig)
    then (p, true) ∷ rest
    else if not (has p cur) && has p orig
    then (p, false) ∷ rest
    else rest

unfoldable pub render_pg : Editor → Text × Bool → Text
unfolding quote_ident
render_pg e (p, true) =
    codes "GRANT "
    ++ p
    ++ codes " ON DATABASE "
    ++ quote_ident true e.selected_db
    ++ codes " TO "
    ++ quote_ident true e.name
    ++ codes ";"
render_pg e (p, false) =
    codes "REVOKE "
    ++ p
    ++ codes " ON DATABASE "
    ++ quote_ident true e.selected_db
    ++ codes " FROM "
    ++ quote_ident true e.name
    ++ codes ";"

unfoldable pub global_statements : Editor → List Text
unfolding eq_set alter_role user_ref mysql_grant_diff
global_statements e =
    if eq_set e.global_orig e.global_cur
    then []
    else if e.is_pg
    then alter_role e ∷ []
    else mysql_grant_diff (user_ref e) (codes "*.*") e.global_orig e.global_cur

unfoldable pub db_statements : Editor → List Text
unfolding eq_set render_pg pg_changes user_ref mysql_grant_diff quote_ident
db_statements e =
    if some_unit e.selected_db && not (eq_set e.db_orig e.db_cur)
    then if e.is_pg
      then map (render_pg e) (pg_changes e.db_orig e.db_cur pg_db_privs)
      else mysql_grant_diff (user_ref e) (quote_ident false e.selected_db ++ codes ".*") e.db_orig
          e.db_cur
    else []

unfoldable pub build_statements : Editor → List Text
unfolding global_statements db_statements
build_statements e = global_statements e ++ db_statements e

unfoldable pub is_dirty : Editor → Bool
unfolding eq_set
is_dirty e =
    not (eq_set e.global_orig e.global_cur)
    || some_unit e.selected_db && not (eq_set e.db_orig e.db_cur)

-- What was saved becomes the new origin.
unfoldable pub saved : Editor → Editor
saved e =
    if some_unit e.selected_db
    then record e { global_orig = e.global_cur; db_orig = e.db_cur }
    else record e { global_orig = e.global_cur }
