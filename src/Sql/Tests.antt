-- ===== src/Sql/Tests.antt =====
-- Runs of the scanners on short texts, and the theorems at concrete inputs.
use basemaster.Base.{filter, length, min, ◌≡◌, refl, Option, none, some, List, [], ◌∷◌, map}
use basemaster.Base.Text.{is_word, Text, codes, has_ink, trim, upper}
use basemaster.Sql.Segments.{SqlSegment, split_sql_segments}
use basemaster.Sql.Cursor.{statement_at_cursor}
use basemaster.Sql.Dangerous.Statements.{split_statements, strip_comments}
use basemaster.Sql.Segments.Cover.{IsTiled, split_sql_segments-IsTiled}
use basemaster.Sql.Cursor.Laws.{find_last, starts_by, statement_at_cursor-find_last}
use basemaster.Sql.Dangerous.Agree.{split_statements-split_sql_segments}
use basemaster.Sql.Dangerous.Guard.{report_of_joined}
use basemaster.Sql.ReadOnly.Code.{Reads, ends, plain_character, quotation}
use basemaster.Sql.ReadOnly.Sound.{IsReadOnly, assert_read_only_sql-IsReadOnly}
use basemaster.Sql.ReadOnly.Laws.{assert_read_only_sql_backslash}
use basemaster.Sql.Dangerous.Detect.{
  DangerousStatement, delete, reports_from, report, leading, contains_word, extract_table,
  detect_dangerous_statements,
}
use basemaster.Sql.Literals.{strip_sql_literals}
use basemaster.Sql.ReadOnly.{
  assert_read_only_sql, ok, err, write_keyword, multi_statement, check_stripped, is_multi,
  starts_read_only, find_word,
}

abbrev script : Text
script = codes "SELECT ';' ;\n-- a; b\nDELETE FROM t;"

abbrev to_list : Option SqlSegment → List SqlSegment
to_list none = []
to_list (some s) = s ∷ []

split_script :
    map (λ s. s.sql) (split_sql_segments script)
    ≡ codes "SELECT ';' " ∷ codes "\n-- a; b\nDELETE FROM t" ∷ []
unfolding split_sql_segments
split_script = refl

split_statements-script :
    split_statements script ≡ codes "SELECT ';' " ∷ codes "\n-- a; b\nDELETE FROM t" ∷ []
unfolding split_statements has_ink
split_statements-script = refl

-- Behind the final semicolon the cursor is on the statement that it ended.
at_end : map (λ s. s.start) (to_list (statement_at_cursor script 37)) ≡ 12 ∷ []
unfolding statement_at_cursor split_sql_segments has_ink
at_end = refl

detect_script :
    detect_dangerous_statements script
    ≡ (record {
      index = 1;
      kind = delete;
      table = some (codes "t");
      sql = codes "-- a; b\nDELETE FROM t";
    })
      ∷ []
unfolding detect_dangerous_statements split_statements reports_from report leading contains_word
    strip_comments trim extract_table has_ink
detect_script = refl

read_only_runs :
    (assert_read_only_sql (codes "select * from t where s = 'delete;drop';") ≡ ok)
    × (assert_read_only_sql (codes "WITH x AS (DELETE FROM t RETURNING *) SELECT * FROM x")
        ≡ err (write_keyword (codes "DELETE")))
    × (assert_read_only_sql (codes "SELECT $a$;drop$a$, 1") ≡ ok)
    × (assert_read_only_sql (codes "SELECT 1; SELECT 2") ≡ err multi_statement)
unfolding assert_read_only_sql check_stripped strip_sql_literals is_multi starts_read_only find_word
    upper has_ink
read_only_runs = (refl, refl, refl, refl)

split_sql_segments-IsTiled_example : IsTiled script 0 (split_sql_segments script)
split_sql_segments-IsTiled_example = split_sql_segments-IsTiled script

statement_at_cursor-find_last_example :
    statement_at_cursor script 13
    ≡ find_last (starts_by (min 13 (length script))) (split_sql_segments script)
statement_at_cursor-find_last_example = statement_at_cursor-find_last script 13

split_statements-split_sql_segments_example :
    split_statements script ≡ filter has_ink (map (λ seg. seg.sql) (split_sql_segments script))
split_statements-split_sql_segments_example = split_statements-split_sql_segments script

abbrev reported : DangerousStatement
reported = record {
  index = 1;
  kind = delete;
  table = some (codes "t");
  sql = codes "-- a; b\nDELETE FROM t";
}

report_of_joined_example : report 0 (codes "DELETE/* */FROM t") ≡ none
unfolding is_word
report_of_joined_example = report_of_joined 0 (codes " ") b'F' (codes "ROM t") (refl, tt) refl

select_one : assert_read_only_sql (codes "SELECT 'drop';") ≡ ok
unfolding assert_read_only_sql check_stripped strip_sql_literals is_multi starts_read_only find_word
    has_ink
select_one = refl

abbrev select_one_code : Text
select_one_code = codes "SELECT  ;"

select_one-Reads : Reads (codes "SELECT 'drop';") select_one_code
select_one-Reads = plain_character b'S' refl (
    plain_character b'E' refl (
      plain_character b'L' refl (
        plain_character b'E' refl (
          plain_character b'C' refl (
            plain_character b'T' refl (
              plain_character b' ' refl
                (quotation (codes "drop") refl (plain_character b';' refl ends))))))))

assert_read_only_sql-IsReadOnly_example : IsReadOnly select_one_code
assert_read_only_sql-IsReadOnly_example =
    assert_read_only_sql-IsReadOnly (codes "SELECT 'drop';") select_one_code select_one-Reads
      select_one

assert_read_only_sql_backslash_example : assert_read_only_sql (codes "SELECT '\\'' ;x'") ≡ ok
assert_read_only_sql_backslash_example =
    assert_read_only_sql_backslash (codes ";x") (refl, (refl, tt))
