-- ===== src/TableClipboard/Tests.antt =====
-- Runs of the clipboard of tables, and the theorem at a concrete input.
use basemaster.Base.{◌≡◌, refl, Option, none, some, [], ◌∷◌, if◌then◌else◌}
use basemaster.Base.Text.{Text, codes, same_text}
use basemaster.TableClipboard.{
  TablesPayload, Meta, tables_json, serialize_table_clipboard, parse_table_clipboard,
}
use basemaster.TableClipboard.Lines.{split_lines, is_line}
use basemaster.TableClipboard.RoundTrip.{parse_table_clipboard-serialize_table_clipboard}

two_lines : split_lines (codes "a\r\nb\n") ≡ codes "a" ∷ codes "b" ∷ [] ∷ []
unfolding split_lines
two_lines = refl

abbrev two_tables : TablesPayload
two_tables = record {
  connection_id = codes "7";
  schema = codes "shop";
  tables = codes "users" ∷ codes "orders" ∷ [];
  folder_name = some [];
}

text_of_two :
    serialize_table_clipboard two_tables
    ≡ codes "#basemaster:tables {\"connectionId\":\"7\",\"schema\":\"shop\"}\nusers\norders"
unfolding serialize_table_clipboard
text_of_two = refl

-- A parser that knows one text.
abbrev reads_one : Text → Option Meta
reads_one text =
    if same_text text (codes "{\"connectionId\":\"7\",\"schema\":\"shop\"}")
    then some
        (record { connection_id = some (codes "7"); schema = some (codes "shop"); folder = none })
    else none

parse_table_clipboard-serialize_table_clipboard_example :
    parse_table_clipboard reads_one (serialize_table_clipboard two_tables)
    ≡ some (record two_tables { folder_name = none })
unfolding is_line tables_json same_text
parse_table_clipboard-serialize_table_clipboard_example =
    parse_table_clipboard-serialize_table_clipboard reads_one two_tables
      ((refl, refl), ((refl, refl), tt)) refl

not_ours : parse_table_clipboard (λ text. none) (codes "users\norders") ≡ none
unfolding parse_table_clipboard
not_ours = refl
