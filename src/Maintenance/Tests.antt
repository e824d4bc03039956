-- ===== src/Maintenance/Tests.antt =====
-- Runs of the maintenance statements.
use basemaster.Base.{◌≡◌, refl, some, [], ◌∷◌}
use basemaster.Base.Text.{codes}
use basemaster.Maintenance.{optimize, build_maintenance_sql}

two_tables :
    build_maintenance_sql (codes "postgres") optimize (codes "s") (codes "a\"b" ∷ codes "c" ∷ [])
    ≡ some (codes "VACUUM \"s\".\"a\"\"b\";\nVACUUM \"s\".\"c\";")
unfolding build_maintenance_sql
two_tables = refl

-- SQLite has no such statement.
for_sqlite :
    build_maintenance_sql (codes "sqlite") optimize (codes "main") (codes "t" ∷ [])
    ≡ some (codes "OPTIMIZE TABLE `main`.`t`;")
unfolding build_maintenance_sql
for_sqlite = refl
