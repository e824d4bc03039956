-- ===== src/Structure/Render.antt =====
-- The text of the statement that components/table/structure-pane.tsx makes.
use basemaster.Base.{
  Bool, true, false, ◌&&◌, ◌||◌, Option, none, some, List, [], ◌∷◌, ◌++◌, map, any, leb,
  if◌then◌else◌,
}
use basemaster.Base.Text.{Text, codes, same_text, join, trim, after_word}
use basemaster.Tabs.Draft.{DraftColumn, DraftIndex, DraftForeignKey}
use basemaster.Structure.Alter.{
  DraftBundle, Action, drop_fk, drop_column, drop_index, add_column, modify_column, change_column,
  drop_primary_key, add_primary_key, add_index, add_fk, set_option, alter_actions, quoted_text,
}

-- A name in backticks; the name itself is not escaped.
abbrev pub ticked : Text → Text
ticked name = b'`' ∷ name ++ b'`' ∷ []

abbrev pub ticked_list : List Text → Text
ticked_list names = join (codes ", ") (map ticked names)

abbrev is_found : Option Text → Bool
is_found none = false
is_found (some rest) = true

abbrev has_word : Text → Text → Bool
has_word text word = is_found (after_word word text)

abbrev starts_with_digit : Text → Bool
starts_with_digit [] = false
starts_with_digit (c ∷ text) = leb b'0' c && leb c b'9'

-- A default that is written as it is.
unfoldable pub is_func : Text → Bool
unfolding trim after_word
is_func default =
    let text = trim default in
    any (has_word text)
      (codes "current_timestamp" ∷ codes "null" ∷ codes "true" ∷ codes "false" ∷ [])
    || starts_with_digit text

abbrev default_part : Option Text → List Text
default_part none = []
default_part (some default) =
    (codes "DEFAULT " ++ (if is_func default then default else quoted_text default)) ∷ []

abbrev comment_part : Text → List Text
comment_part [] = []
comment_part (c ∷ comment) = (codes "COMMENT " ++ quoted_text (c ∷ comment)) ∷ []

unfoldable pub render_column_def : DraftColumn → Text
unfolding is_func quoted_text join trim
render_column_def d = join (codes " ") (
    ticked d.name
      ∷ trim d.raw_type
      ∷ (if d.nullable then codes "NULL" else codes "NOT NULL")
      ∷ default_part d.default
    ++ (if d.is_auto_increment then codes "AUTO_INCREMENT" ∷ [] else [])
    ++ comment_part d.comment)

abbrev using_part : Text → Text
using_part [] = []
using_part (c ∷ kind) =
    if same_text (c ∷ kind) (codes "BTREE") then [] else codes " USING " ++ c ∷ kind

unfoldable pub render_index_add : DraftIndex → Text
unfolding join
render_index_add d =
    codes "ADD "
    ++ (if d.unique then codes "UNIQUE " else [])
    ++ codes "INDEX "
    ++ ticked d.name
    ++ codes " ("
    ++ ticked_list d.columns
    ++ codes ")"
    ++ using_part d.index_type

-- ` ON DELETE ${action}`, unless the action is the default one.
abbrev on_part : Text → Text → Text
on_part word [] = []
on_part word (c ∷ action) =
    if same_text (c ∷ action) (codes "RESTRICT") || same_text (c ∷ action) (codes "NO ACTION")
    then []
    else word ++ c ∷ action

abbrev ref_name : Text → Text → Text
ref_name [] table = ticked table
ref_name (c ∷ schema) table = ticked (c ∷ schema) ++ codes "." ++ ticked table

unfoldable pub render_fk_add : DraftForeignKey → Text
unfolding join
render_fk_add d =
    codes "ADD CONSTRAINT "
    ++ ticked d.name
    ++ codes " FOREIGN KEY ("
    ++ ticked_list d.columns
    ++ codes ") REFERENCES "
    ++ ref_name d.ref_schema d.ref_table
    ++ codes " ("
    ++ ticked_list d.ref_columns
    ++ codes ")"
    ++ on_part (codes " ON DELETE ") d.on_delete
    ++ on_part (codes " ON UPDATE ") d.on_update

unfoldable pub render_action : Action → Text
unfolding render_column_def render_index_add render_fk_add join
render_action (drop_fk name) = codes "DROP FOREIGN KEY " ++ ticked name
render_action (drop_column name) = codes "DROP COLUMN " ++ ticked name
render_action (drop_index name) = codes "DROP INDEX " ++ ticked name
render_action (add_column d) = codes "ADD COLUMN " ++ render_column_def d
render_action (modify_column d) = codes "MODIFY COLUMN " ++ render_column_def d
render_action (change_column original d) =
    codes "CHANGE COLUMN " ++ ticked original ++ codes " " ++ render_column_def d
render_action drop_primary_key = codes "DROP PRIMARY KEY"
render_action (add_primary_key names) = codes "ADD PRIMARY KEY (" ++ ticked_list names ++ codes ")"
render_action (add_index d) = render_index_add d
render_action (add_fk d) = render_fk_add d
render_action (set_option option) = option

abbrev indented : Action → Text
indented a = codes "  " ++ render_action a

abbrev statement : Text → Text → List Action → Text
statement schema table [] = []
statement schema table (a ∷ actions) =
    codes "ALTER TABLE "
    ++ ticked schema
    ++ codes "."
    ++ ticked table
    ++ codes "\n"
    ++ join (codes ",\n") (map indented (a ∷ actions))
    ++ codes ";"

unfoldable pub generate_alter_ddl : Text → Text → DraftBundle → Text
unfolding alter_actions render_action join
generate_alter_ddl schema table b = statement schema table (alter_actions b)
