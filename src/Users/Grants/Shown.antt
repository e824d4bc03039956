-- ===== src/Users/Grants/Shown.antt =====
-- The lines of SHOW GRANTS that components/users-view.tsx reads, and its statements for users themselves.
-- A line holds no line break.
pub mod Lines
use basemaster.Base.{
  ℕ, zero, suc, Bool, true, false, not, ◌&&◌, ◌||◌, Option, none, some, List, [], ◌∷◌, ◌++◌, map,
  filter, length, drop, ◌==◌, if◌then◌else◌,
}
use basemaster.Base.Text.{
  Text, codes, same_text, is_space, skip_spaces, after_word, trim, upper, flat_map, contains_text,
}
use basemaster.Base.Dict.{get_or}
use basemaster.Users.Grants.{
  add, has, expand_all, mysql_db_privs, grant_option, quote_ident, quote_lit,
}

abbrev pub mysql_global_privs : List Text
mysql_global_privs =
    codes "SELECT"
    ∷ codes "INSERT"
    ∷ codes "UPDATE"
    ∷ codes "DELETE"
    ∷ codes "CREATE"
    ∷ codes "DROP"
    ∷ codes "INDEX"
    ∷ codes "ALTER"
    ∷ codes "CREATE TEMPORARY TABLES"
    ∷ codes "LOCK TABLES"
    ∷ codes "REFERENCES"
    ∷ codes "CREATE VIEW"
    ∷ codes "SHOW VIEW"
    ∷ codes "CREATE ROUTINE"
    ∷ codes "ALTER ROUTINE"
    ∷ codes "EXECUTE"
    ∷ codes "EVENT"
    ∷ codes "TRIGGER"
    ∷ codes "RELOAD"
    ∷ codes "SHUTDOWN"
    ∷ codes "PROCESS"
    ∷ codes "FILE"
    ∷ codes "SHOW DATABASES"
    ∷ codes "SUPER"
    ∷ codes "REPLICATION SLAVE"
    ∷ codes "REPLICATION CLIENT"
    ∷ codes "CREATE USER"
    ∷ codes "CREATE TABLESPACE"
    ∷ codes "GRANT OPTION"
    ∷ []

pub record MysqlGrants : Type 0 where
  pub global : List Text
  pub per_db : List (Text × List Text)

-- `\s+` in front of a text: what is behind the white space, if there is any.
unfoldable pub spaced : Text → Option Text
unfolding is_space skip_spaces
spaced [] = none
spaced (c ∷ t) = if is_space c then some (skip_spaces t) else none

-- `(\S+)`, and what is behind it.
unfoldable pub ink_run : Text → Text × Text
unfolding is_space
ink_run [] = ([], [])
ink_run (c ∷ t) = let rest = ink_run t in if is_space c then ([], c ∷ t) else (c ∷ rest.0, rest.1)

abbrev pub bind {ℓ κ} : {A : Type ℓ} {B : Type κ} → Option A → (A → Option B) → Option B
bind none f = none
bind (some a) f = f a

-- Some characters before ` TO `, or none.
abbrev pub before_to : Text × Text → Option Text
before_to ([], rest) = none
before_to (c ∷ target, rest) =
    bind (spaced rest)
      (λ t. bind (after_word (codes "to") t) (λ u. bind (spaced u) (λ w. some (c ∷ target))))

-- `\s+ON\s+(\S+)\s+TO\s` in front of a text: the target.
unfoldable pub target_here : Text → Option Text
unfolding spaced ink_run after_word
target_here text =
    bind (spaced text)
      (λ t. bind (after_word (codes "on") t) (λ u. bind (spaced u) (λ w. before_to (ink_run w))))

abbrev pub with_char : ℕ → Option (Text × Text) → Option (Text × Text)
with_char c none = none
with_char c (some (privileges, target)) = some (c ∷ privileges, target)

abbrev pub or_longer : ℕ → Option Text → Option (Text × Text) → Option (Text × Text)
or_longer c (some target) longer = some (c ∷ [], target)
or_longer c none longer = with_char c longer

-- `(.+?)` and the target behind it: the shortest text that goes.
unfoldable pub shortest : Text → Option (Text × Text)
unfolding target_here
shortest [] = none
shortest (c ∷ t) = or_longer c (target_here t) (shortest t)

-- `line.match(/^GRANT\s+(.+?)\s+ON\s+(\S+)\s+TO\s/i)`: the privileges and the target.
unfoldable pub match_grant : Text → Option (Text × Text)
unfolding spaced shortest after_word
match_grant line = bind (after_word (codes "grant") line) (λ t. bind (spaced t) shortest)

-- `/WITH\s+GRANT\s+OPTION/i`, in front of a text and anywhere.
abbrev pub is_some {ℓ} : {A : Type ℓ} → Option A → Bool
is_some none = false
is_some (some a) = true

unfoldable pub option_here : Text → Bool
unfolding spaced after_word
option_here text = is_some (
    bind (after_word (codes "with") text) (λ t. bind (spaced t) (λ u.
      bind (after_word (codes "grant") u) (λ w. bind (spaced w) (after_word (codes "option"))))))

unfoldable pub with_grant : Text → Bool
unfolding option_here
with_grant [] = option_here []
with_grant (c ∷ line) = option_here (c ∷ line) || with_grant line

-- What is behind the next closing parenthesis.
unfoldable pub closed : Text → Option Text
closed [] = none
closed (c ∷ t) = if c == b')' then some t else closed t

-- `text.replace(/\([^)]*\)/g, "")`; the flag says that an opened list is being skipped.
unfoldable pub without_lists : Bool → Text → Text
unfolding closed
without_lists skipping [] = []
without_lists true (c ∷ t) = without_lists (not (c == b')')) t
without_lists false (c ∷ t) =
    let skipped = without_lists true t in
    let kept = c ∷ without_lists false t in
    if c == b'(' && is_some (closed t) then skipped else kept

abbrev pub cons_part : ℕ → List Text → List Text
cons_part c [] = (c ∷ []) ∷ []
cons_part c (part ∷ parts) = (c ∷ part) ∷ parts

-- `text.split(",")`
unfoldable pub split_commas : Text → List Text
split_commas [] = [] ∷ []
split_commas (c ∷ t) =
    let rest = split_commas t in if c == b',' then [] ∷ rest else cons_part c rest

-- The letters of privileges are ASCII.
abbrev pub privilege_of : Text → Text
privilege_of raw = map upper (trim raw)

unfoldable pub add_privileges : List Text → List Text → List Text
unfolding add has trim upper same_text
add_privileges [] set = set
add_privileges (raw ∷ parts) set = add_privileges parts (
    if same_text (privilege_of raw) [] || same_text (privilege_of raw) (codes "USAGE")
    then set
    else add (privilege_of raw) set)

unfoldable pub privileges_of : Text → Text → List Text
unfolding add_privileges with_grant split_commas without_lists add has
privileges_of line privileges =
    let set = add_privileges (split_commas (without_lists false privileges)) [] in
    if with_grant line then add grant_option set else set

-- `perDb.set(name, set)`
unfoldable pub set_db : Text → List Text → List (Text × List Text) → List (Text × List Text)
set_db name set [] = (name, set) ∷ []
set_db name set ((n, old) ∷ dbs) =
    let rest = set_db name set dbs in if same_text n name then (n, set) ∷ dbs else (n, old) ∷ rest

unfoldable pub add_each : List Text → List Text → List Text
unfolding add has
add_each [] set = set
add_each (p ∷ privileges) set = add_each privileges (add p set)

-- A name in front of `.*`.
unfoldable pub database_of : Text → Option Text
unfolding same_text
database_of [] = none
database_of (c ∷ target) =
    if same_text (c ∷ target) (codes ".*")
    then some []
    else bind (database_of target) (λ name. some (c ∷ name))

abbrev pub with_db : List Text → MysqlGrants → Option Text → MysqlGrants
with_db set g none = g
with_db set g (some name) = record g {
  per_db = set_db name (expand_all set mysql_db_privs) g.per_db;
}

unfoldable pub add_grant : Text → Text × Text → MysqlGrants → MysqlGrants
unfolding privileges_of expand_all set_db add_each database_of same_text
add_grant line (privileges, quoted) g =
    let set = privileges_of line privileges in
    let target = filter (λ c. not (c == b'`')) quoted in
    if same_text target (codes "*.*")
    then record g { global = add_each (expand_all set mysql_global_privs) g.global }
    else with_db set g (database_of target)

abbrev pub add_match : Text → Option (Text × Text) → MysqlGrants → MysqlGrants
add_match line none g = g
add_match line (some m) g = add_grant line m g

unfoldable pub parse_from : List Text → MysqlGrants → MysqlGrants
unfolding match_grant add_grant
parse_from [] g = g
parse_from (line ∷ lines) g = parse_from lines (add_match line (match_grant line) g)

unfoldable pub parse_mysql_grants : List Text → MysqlGrants
unfolding parse_from
parse_mysql_grants lines = parse_from lines (record { global = []; per_db = [] })

-- `name@host`, for any host if there is none.
abbrev pub mysql_user : Text → Option Text → Text
mysql_user name host = quote_lit name ++ (codes "@" ++ quote_lit (get_or (codes "%") host))

unfoldable pub create_user_sql : Bool → Text → Text → Text → Text
unfolding quote_ident quote_lit
create_user_sql true name host password =
    codes "CREATE ROLE "
    ++ (quote_ident true name ++ (codes " LOGIN PASSWORD " ++ (quote_lit password ++ codes ";")))
create_user_sql false name [] password =
    codes "CREATE USER "
    ++ (mysql_user name none ++ (codes " IDENTIFIED BY " ++ (quote_lit password ++ codes ";")))
create_user_sql false name (c ∷ host) password =
    codes "CREATE USER "
    ++ (mysql_user name (some (c ∷ host))
        ++ (codes " IDENTIFIED BY " ++ (quote_lit password ++ codes ";")))

unfoldable pub drop_user_sql : Bool → Text → Option Text → Text
unfolding quote_ident quote_lit
drop_user_sql true name host = codes "DROP ROLE " ++ (quote_ident true name ++ codes ";")
drop_user_sql false name host = codes "DROP USER " ++ (mysql_user name host ++ codes ";")

unfoldable pub change_password_sql : Bool → Text → Option Text → Text → Text
unfolding quote_ident quote_lit
change_password_sql true name host password =
    codes "ALTER ROLE "
    ++ (quote_ident true name ++ (codes " WITH PASSWORD " ++ (quote_lit password ++ codes ";")))
change_password_sql false name host password =
    codes "ALTER USER "
    ++ (mysql_user name host ++ (codes " IDENTIFIED BY " ++ (quote_lit password ++ codes ";")))
