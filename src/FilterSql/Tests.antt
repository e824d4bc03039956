-- ===== src/FilterSql/Tests.antt =====
-- A SELECT as it is built, and the theorems at concrete inputs.
use basemaster.Base.{◌≡◌, refl, true, none, some, [], ◌∷◌, ◌++◌}
use basemaster.Base.Text.{codes, flat_map, join}
use basemaster.Types.{string, desc, Filter, contains, eq, conj, FilterNode, leaf, group, nil, cons}
use basemaster.FilterSql.Quote.{
  mysql, double, mark, ident, quote_string, quote_value, value_text, like_escape,
}
use basemaster.FilterSql.Render.{like_pattern, render_leaf, render_node, build_table_page_sql}
use basemaster.FilterSql.Reading.{
  read_literal, read_literal-ident, read_mysql, read_mysql-quote_string,
}

abbrev named : Filter
named = record {
  column = codes "name";
  op = contains;
  value = some (string (codes "50%"));
  value2 = none;
  case_insensitive = some true;
}

abbrev titled : Filter
titled = record {
  column = codes "title";
  op = eq;
  value = some (string (codes "it's"));
  value2 = none;
  case_insensitive = none;
}

abbrev tree : FilterNode
tree = group conj (cons (leaf named) (cons (group conj nil) (cons (leaf titled) nil)))

built :
    build_table_page_sql (record {
      dialect = mysql;
      schema = some (codes "s");
      table = codes "t`";
      filter_tree = some tree;
      order_by = some (record { column = codes "id"; direction = desc });
      limit = some (codes "10");
      offset = none;
    })
    ≡ codes
        "SELECT * FROM `s`.`t```\nWHERE (LOWER(`name`) LIKE '%50\\%%' AND `title` = 'it''s')\nORDER BY `id` DESC\nLIMIT 10;"
unfolding build_table_page_sql render_node render_leaf like_pattern ident quote_string quote_value
    value_text like_escape flat_map double join
built = refl

read_literal-ident_example :
    (read_literal (mark mysql) (ident mysql (codes "a`") ++ codes " = 1")
      ≡ some (codes "a`", codes " = 1"))
    × (read_literal b'\'' (quote_string (codes "a`") mysql ++ codes " = 1")
        ≡ some (codes "a`", codes " = 1"))
read_literal-ident_example = read_literal-ident mysql (codes "a`") (codes " = 1") refl refl

read_mysql-quote_string_example :
    read_mysql (quote_string (codes "\\' OR 1=1 -- ") mysql ++ [])
    ≡ some (codes "'", b' ' ∷ (double b'\'' (codes "OR 1=1 -- ") ++ (b'\'' ∷ [])))
read_mysql-quote_string_example = read_mysql-quote_string b' ' (codes "OR 1=1 -- ") [] refl
