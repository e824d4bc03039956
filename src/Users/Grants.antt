-- ===== src/Users/Grants.antt =====
-- The editor of a user's privileges in components/users-view.tsx: sets of privileges, the statements
-- that bring the server from one set to another, and their saving. A JavaScript `Set` is the list of
-- its members in the order in which they came.
pub mod Sets
pub mod Editor
pub mod Applied
pub mod Shown
use basemaster.Base.{
  ℕ, zero, suc, Bool, true, false, not, ◌&&◌, ◌||◌, Option, none, some, List, [], ◌∷◌, ◌++◌, map,
  length, filter, any, ◌==◌, if◌then◌else◌,
}
use basemaster.Base.Text.{Text, codes, same_text, join, flat_map}

-- `set.has(p)`
unfoldable pub has : Text → List Text → Bool
has p set = any (same_text p) set

-- `set.add(p)`
unfoldable pub add : Text → List Text → List Text
unfolding has
add p set = if has p set then set else set ++ p ∷ []

-- `set.delete(p)`
unfoldable pub delete : Text → List Text → List Text
delete p set = filter (λ q. not (same_text p q)) set

-- `for (const v of a) if (!b.has(v)) return false`
abbrev pub within : List Text → List Text → Bool
within [] b = true
within (v ∷ a) b = has v b && within a b

unfoldable pub eq_set : List Text → List Text → Bool
eq_set a b = length a == length b && within a b

abbrev pub grant_option : Text
grant_option = codes "GRANT OPTION"

abbrev pub mysql_db_privs : List Text
mysql_db_privs =
    codes "SELECT"
    ∷ codes "INSERT"
    ∷ codes "UPDATE"
    ∷ codes "DELETE"
    ∷ codes "CREATE"
    ∷ codes "DROP"
    ∷ codes "INDEX"
    ∷ codes "ALTER"
    ∷ codes "CREATE TEMPORARY TABLES"
    ∷ codes "LOCK TABLES"
    ∷ codes "REFERENCES"
    ∷ codes "CREATE VIEW"
    ∷ codes "SHOW VIEW"
    ∷ codes "CREATE ROUTINE"
    ∷ codes "ALTER ROUTINE"
    ∷ codes "EXECUTE"
    ∷ codes "EVENT"
    ∷ codes "TRIGGER"
    ∷ codes "GRANT OPTION"
    ∷ []

abbrev pub pg_attrs : List Text
pg_attrs =
    codes "SUPERUSER"
    ∷ codes "CREATEDB"
    ∷ codes "CREATEROLE"
    ∷ codes "LOGIN"
    ∷ codes "REPLICATION"
    ∷ codes "BYPASSRLS"
    ∷ []

abbrev pub pg_db_privs : List Text
pg_db_privs = codes "CONNECT" ∷ codes "CREATE" ∷ codes "TEMPORARY" ∷ []

abbrev add_all : List Text → List Text → List Text
add_all [] set = set
add_all (p ∷ ps) set =
    let rest = add_all ps (if same_text p grant_option then set else add p set) in rest

unfoldable pub expand_all : List Text → List Text → List Text
unfolding add delete has
expand_all set all =
    if has (codes "ALL PRIVILEGES") set
    then add_all all (delete (codes "ALL PRIVILEGES") set)
    else if has (codes "ALL") set
    then add_all all (delete (codes "ALL") set)
    else set

-- One statement of `mysqlGrantDiff`: what it grants or revokes.
pub data GrantChange : Type 0 where
  grant : (privileges : List Text) (with_option : Bool) → GrantChange
  revoke : (privileges : List Text) → GrantChange
  revoke_option : GrantChange

abbrev pub is_option : Text → Bool
is_option p = same_text p grant_option

abbrev pub some_of : List Text → Bool
some_of [] = false
some_of (p ∷ ps) = true

abbrev pub when {ℓ} : {A : Type ℓ} → Bool → A → List A
when true x = x ∷ []
when false x = []

-- The members of `a` that `b` lacks, but for the grant option.
unfoldable pub missing_from : List Text → List Text → List Text
unfolding has
missing_from b a = filter (λ p. not (is_option p) && not (has p b)) a

unfoldable pub grant_changes : List Text → List Text → List GrantChange
unfolding has missing_from
grant_changes orig next =
    let to_grant = missing_from orig next in
    let to_revoke = missing_from next orig in
    let orig_go = has grant_option orig in
    let next_go = has grant_option next in
    when (some_of to_grant || next_go && not orig_go) (grant to_grant next_go)
    ++ when (some_of to_revoke) (revoke to_revoke)
    ++ when (orig_go && not next_go) revoke_option

abbrev clause_of : List Text → Text
clause_of [] = codes "USAGE"
clause_of (p ∷ ps) = join (codes ", ") (p ∷ ps)

abbrev option_suffix : Bool → Text
option_suffix true = codes " WITH GRANT OPTION"
option_suffix false = []

unfoldable pub render_change : Text → Text → GrantChange → Text
render_change user_ref target (grant ps go) =
    codes "GRANT "
    ++ clause_of ps
    ++ codes " ON "
    ++ target
    ++ codes " TO "
    ++ user_ref
    ++ option_suffix go
    ++ codes ";"
render_change user_ref target (revoke ps) =
    codes "REVOKE "
    ++ join (codes ", ") ps
    ++ codes " ON "
    ++ target
    ++ codes " FROM "
    ++ user_ref
    ++ codes ";"
render_change user_ref target revoke_option =
    codes "REVOKE GRANT OPTION ON " ++ target ++ codes " FROM " ++ user_ref ++ codes ";"

unfoldable pub mysql_grant_diff : Text → Text → List Text → List Text → List Text
unfolding grant_changes render_change
mysql_grant_diff user_ref target orig next =
    map (render_change user_ref target) (grant_changes orig next)

-- `text.replace(/c/g, cc)`
abbrev doubled : ℕ → Text → Text
doubled q text = flat_map (λ c. if c == q then q ∷ q ∷ [] else c ∷ []) text

unfoldable pub quote_ident : Bool → Text → Text
unfolding flat_map
quote_ident true name = b'"' ∷ doubled b'"' name ++ b'"' ∷ []
quote_ident false name = b'`' ∷ doubled b'`' name ++ b'`' ∷ []

unfoldable pub quote_lit : Text → Text
unfolding flat_map
quote_lit s = b'\'' ∷ doubled b'\'' s ++ b'\'' ∷ []
