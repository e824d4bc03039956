-- ===== src/Users/Tests.antt =====
-- Runs of the editor of privileges, and the theorems at concrete inputs.
use basemaster.Base.{◌≡◌, refl, false, none, some, Bool, not, ◌&&◌, ◌||◌, List, [], ◌∷◌}
use basemaster.Base.Text.{Text, is_space, lower, codes, join, same_text}
use basemaster.Users.Grants.{
  has, grant_option, GrantChange, grant, revoke, revoke_option, is_option, grant_changes,
  mysql_grant_diff,
}
use basemaster.Users.Grants.Shown.{parse_mysql_grants, drop_user_sql, match_grant}
use basemaster.Users.Grants.Shown.Lines.{is_calm, no_space, match_grant_line}
use basemaster.Users.Grants.Applied.{Server, apply_all, apply_all-grant_changes}

abbrev reader : List Text
reader = codes "SELECT" ∷ grant_option ∷ []

abbrev writer : List Text
writer = codes "SELECT" ∷ codes "INSERT" ∷ []

abbrev take_effect : GrantChange → (Text → Bool) → Text → Bool
take_effect (grant ps go) held p = (held p || has p ps) || go && is_option p
take_effect (revoke ps) held p = held p && not (has p ps)
take_effect revoke_option held p = held p && not (is_option p)

abbrev server : Server
server = record {
  apply = take_effect;
  apply-grant = λ ps go held p. refl;
  apply-revoke = λ ps held p. refl;
  apply-revoke_option = λ held p. refl;
}

diff_of_reader :
    mysql_grant_diff (codes "'u'@'%'") (codes "*.*") reader writer
    ≡ codes "GRANT INSERT ON *.* TO 'u'@'%';"
      ∷ codes "REVOKE GRANT OPTION ON *.* FROM 'u'@'%';"
      ∷ []
unfolding mysql_grant_diff same_text join
diff_of_reader = refl

apply_all-grant_changes_example :
    apply_all server (grant_changes reader writer) (λ q. has q reader) (codes "INSERT")
    ≡ has (codes "INSERT") writer
apply_all-grant_changes_example = apply_all-grant_changes server reader writer (codes "INSERT")

shown_lines :
    parse_mysql_grants (
      codes "GRANT USAGE ON *.* TO `ann`@`%`"
      ∷ codes "GRANT SELECT, Create view ON `shop`.* TO `ann`@`%` WITH GRANT OPTION"
      ∷ codes "GRANT SELECT (id) ON `shop`.`users` TO `ann`@`%`"
      ∷ [])
    ≡ record {
      global = [];
      per_db =
          (codes "shop", codes "SELECT" ∷ codes "CREATE VIEW" ∷ codes "GRANT OPTION" ∷ []) ∷ [];
    }
unfolding parse_mysql_grants
shown_lines = refl

dropped_user : drop_user_sql false (codes "o'ann") none ≡ codes "DROP USER 'o''ann'@'%';"
unfolding drop_user_sql
dropped_user = refl

match_grant_line_example :
    match_grant (codes "GRANT SELECT, CREATE VIEW ON `shop`.* TO `ann`@`%`")
    ≡ some (codes "SELECT, CREATE VIEW", codes "`shop`.*")
unfolding is_space is_calm no_space lower
match_grant_line_example =
    match_grant_line b'S' (codes "ELECT, CREATE VIEW") b'`' (codes "shop`.*") (codes "`ann`@`%`")
      refl refl refl
