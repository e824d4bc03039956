-- ===== src/Maintenance.antt =====
-- lib/maintenance-sql.ts: the statements that maintain tables, by driver.
mod Tests
use basemaster.Base.{
  ℕ, Bool, true, false, Option, none, some, List, [], ◌∷◌, ◌++◌, map, ◌==◌, if◌then◌else◌,
}
use basemaster.Base.Text.{Text, codes, same_text, join, flat_map}

pub data MaintenanceAction : Type 0 where
  optimize analyze check repair : MaintenanceAction

-- `ident.replace(/q/g, "qq")`
abbrev pub with_doubled : ℕ → Text → Text
with_doubled q ident = flat_map (λ c. if c == q then q ∷ q ∷ [] else c ∷ []) ident

unfoldable pub quote_mysql : Text → Text
unfolding flat_map
quote_mysql ident = b'`' ∷ with_doubled b'`' ident ++ b'`' ∷ []

unfoldable pub quote_pg : Text → Text
unfolding flat_map
quote_pg ident = b'"' ∷ with_doubled b'"' ident ++ b'"' ∷ []

abbrev pub action_name : MaintenanceAction → Text
action_name optimize = codes "OPTIMIZE"
action_name analyze = codes "ANALYZE"
action_name check = codes "CHECK"
action_name repair = codes "REPAIR"

-- Postgres' closest statement for an action.
abbrev pub pg_keyword : MaintenanceAction → Text
pg_keyword optimize = codes "VACUUM "
pg_keyword analyze = codes "ANALYZE "
pg_keyword repair = codes "REINDEX TABLE "
pg_keyword check = codes "VACUUM (VERBOSE) "

unfoldable pub pg_statement : MaintenanceAction → Text → Text → Text
unfolding quote_pg
pg_statement action schema table =
    pg_keyword action ++ (quote_pg schema ++ (codes "." ++ (quote_pg table ++ codes ";")))

unfoldable pub mysql_name : Text → Text → Text
unfolding quote_mysql
mysql_name schema table = quote_mysql schema ++ (codes "." ++ quote_mysql table)

unfoldable pub mysql_statement : MaintenanceAction → Text → List Text → Text
unfolding mysql_name join
mysql_statement action schema tables =
    action_name action
    ++ (codes " TABLE " ++ (join (codes ", ") (map (mysql_name schema) tables) ++ codes ";"))

unfoldable pub build_maintenance_sql : Text → MaintenanceAction → Text → List Text → Option Text
unfolding same_text pg_statement mysql_statement join
build_maintenance_sql driver action schema [] = none
build_maintenance_sql driver action schema (table ∷ tables) =
    if same_text driver (codes "postgres")
    then some (join (codes "\n") (map (pg_statement action schema) (table ∷ tables)))
    else some (mysql_statement action schema (table ∷ tables))

unfoldable pub available_maintenance_actions : Text → List MaintenanceAction
unfolding same_text
available_maintenance_actions driver =
    if same_text driver (codes "postgres")
    then optimize ∷ analyze ∷ repair ∷ check ∷ []
    else optimize ∷ analyze ∷ check ∷ repair ∷ []

unfoldable pub maintenance_label_key : MaintenanceAction → Text
maintenance_label_key optimize = codes "tree.maintainOptimize"
maintenance_label_key analyze = codes "tree.maintainAnalyze"
maintenance_label_key check = codes "tree.maintainCheck"
maintenance_label_key repair = codes "tree.maintainRepair"
