-- ===== src/TableClipboard.antt =====
-- lib/table-clipboard.ts: a selection of tables as a text on the clipboard, with a first line that says
-- where they are from. The clipboard itself and `JSON.parse` are parameters.
mod Tests
pub mod Lines
pub mod RoundTrip
unfoldable pub use Lines.{split_lines, cons_head}
use basemaster.Base.{
  ℕ, Bool, true, false, ◌&&◌, Option, none, some, List, [], ◌∷◌, ◌++◌, length, drop, filter, ltb,
  if◌then◌else◌,
}
use basemaster.Base.Text.{Text, codes, join, starts_with}
use basemaster.Base.Json.{json_string}

pub record TablesPayload : Type 0 where
  pub connection_id : Text
  pub schema : Text
  pub tables : List Text
  pub folder_name : Option Text

-- The fields that `JSON.parse` reads and that are strings.
pub record Meta : Type 0 where
  pub connection_id : Option Text
  pub schema : Option Text
  pub folder : Option Text

abbrev pub header_tables : Text
header_tables = codes "#basemaster:tables "

abbrev pub header_table_folder : Text
header_table_folder = codes "#basemaster:table-folder "

-- `JSON.stringify({ connectionId, schema })`
unfoldable pub tables_json : Text → Text → Text
unfolding json_string
tables_json connection_id schema =
    codes "{\"connectionId\":"
    ++ (json_string connection_id ++ (codes ",\"schema\":" ++ (json_string schema ++ codes "}")))

-- `JSON.stringify({ connectionId, schema, folder })`
unfoldable pub folder_json : Text → Text → Text → Text
unfolding json_string
folder_json connection_id schema folder =
    codes "{\"connectionId\":"
    ++ (json_string connection_id
        ++ (codes ",\"schema\":"
            ++ (json_string schema ++ (codes ",\"folder\":" ++ (json_string folder ++ codes "}")))))

-- A folder without a name counts as none.
abbrev pub header_of : Text → Text → Option Text → Text
header_of connection_id schema none = header_tables ++ tables_json connection_id schema
header_of connection_id schema (some []) = header_tables ++ tables_json connection_id schema
header_of connection_id schema (some (c ∷ folder)) =
    header_table_folder ++ folder_json connection_id schema (c ∷ folder)

unfoldable pub serialize_table_clipboard : TablesPayload → Text
unfolding tables_json folder_json join
serialize_table_clipboard p =
    join (codes "\n") (header_of p.connection_id p.schema p.folder_name ∷ p.tables)

abbrev pub of_folder : List Text → Option Text → Option Text → Option Text → Option TablesPayload
of_folder tables (some id) (some schema) (some folder) =
    some
      (record { connection_id = id; schema = schema; tables = tables; folder_name = some folder })
of_folder tables _ _ _ = none

abbrev pub of_tables : List Text → Option Text → Option Text → Option TablesPayload
of_tables tables (some id) (some schema) =
    some (record { connection_id = id; schema = schema; tables = tables; folder_name = none })
of_tables tables _ _ = none

abbrev pub with_folder : List Text → Option Meta → Option TablesPayload
with_folder tables none = none
with_folder tables (some meta) = of_folder tables meta.connection_id meta.schema meta.folder

abbrev pub without_folder : List Text → Option Meta → Option TablesPayload
without_folder tables none = none
without_folder tables (some meta) = of_tables tables meta.connection_id meta.schema

-- `none` where `JSON.parse` throws.
module _ (json_parse : Text → Option Meta) where
  unfoldable pub parse_lines : List Text → Option TablesPayload
  unfolding starts_with
  parse_lines [] = none
  parse_lines (head ∷ tables) =
      if starts_with header_table_folder head
      then with_folder tables (json_parse (drop (length header_table_folder) head))
      else if starts_with header_tables head
      then without_folder tables (json_parse (drop (length header_tables) head))
      else none

  unfoldable pub parse_table_clipboard : Text → Option TablesPayload
  unfolding split_lines parse_lines
  parse_table_clipboard text = parse_lines (filter (λ l. ltb 0 (length l)) (split_lines text))

  -- What the clipboard holds, if it can be read.
  unfoldable pub read_table_clipboard : Option Text → Option TablesPayload
  unfolding parse_table_clipboard
  read_table_clipboard none = none
  read_table_clipboard (some text) = parse_table_clipboard text
