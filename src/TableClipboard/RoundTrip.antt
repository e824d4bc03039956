-- ===== src/TableClipboard/RoundTrip.antt =====
-- What is copied is what is pasted: lib/table-clipboard.ts.
use basemaster.Base.{
  ◌≡◌, refl, ap, ◌∙◌, true, Option, none, some, List, [], ◌∷◌, ◌++◌, length, filter, ltb, All,
  arith,
}
use basemaster.Base.Text.{Text, starts_with, codes}
use basemaster.Base.Json.{json_string}
use basemaster.TableClipboard.{
  TablesPayload, Meta, header_tables, header_table_folder, tables_json, folder_json, header_of,
  serialize_table_clipboard, parse_lines, parse_table_clipboard,
}
use basemaster.TableClipboard.Lines.{is_line, is_line_both, is_line-json_string, split_lines-join}

starts_with-append : (p t : Text) → starts_with p (p ++ t) ≡ true
unfolding starts_with
starts_with-append [] t = refl
starts_with-append (c ∷ p) t = ground (arith, starts_with-append p t)

-- A name that is a line of its own.
abbrev pub IsName : Text → Type 0
IsName l = (is_line l ≡ true) × (ltb 0 (length l) ≡ true)

IsName-is_line : (ls : List Text) → All IsName ls → All (λ l. is_line l ≡ true) ls
IsName-is_line [] h = tt
IsName-is_line (l ∷ ls) (h, hs) = (h.0, IsName-is_line ls hs)

filter-IsName : (ls : List Text) → All IsName ls → filter (λ l. ltb 0 (length l)) ls ≡ ls
filter-IsName [] h = refl
filter-IsName (l ∷ ls) (h, hs) = rw (h.1, filter-IsName ls hs) refl

is_line-tables_json : (id schema : Text) → is_line (header_tables ++ tables_json id schema) ≡ true
unfolding tables_json is_line
is_line-tables_json id schema =
    let tail = codes ",\"schema\":" ++ (json_string schema ++ codes "}") in
    is_line_both (header_tables ++ codes "{\"connectionId\":") (json_string id ++ tail) refl (
      is_line_both (json_string id) tail (is_line-json_string id) (
        is_line_both (codes ",\"schema\":") (json_string schema ++ codes "}") refl
          (is_line_both (json_string schema) (codes "}") (is_line-json_string schema) refl)))

is_line-folder_json :
    (id schema folder : Text) → is_line (header_table_folder ++ folder_json id schema folder) ≡ true
unfolding folder_json is_line
is_line-folder_json id schema folder =
    let end = codes ",\"folder\":" ++ (json_string folder ++ codes "}") in
    let tail = codes ",\"schema\":" ++ (json_string schema ++ end) in
    is_line_both (header_table_folder ++ codes "{\"connectionId\":") (json_string id ++ tail) refl (
      is_line_both (json_string id) tail (is_line-json_string id) (
        is_line_both (codes ",\"schema\":") (json_string schema ++ end) refl (
          is_line_both (json_string schema) end (is_line-json_string schema) (
            is_line_both (codes ",\"folder\":") (json_string folder ++ codes "}") refl
              (is_line_both (json_string folder) (codes "}") (is_line-json_string folder) refl)))))

IsName-header_of : (id schema : Text) (folder : Option Text) → IsName (header_of id schema folder)
IsName-header_of id schema none = (is_line-tables_json id schema, ground arith)
IsName-header_of id schema (some []) = (is_line-tables_json id schema, ground arith)
IsName-header_of id schema (some (c ∷ folder)) =
    (is_line-folder_json id schema (c ∷ folder), ground arith)

-- A folder without a name is none.
abbrev pub named : Option Text → Option Text
named none = none
named (some []) = none
named (some (c ∷ folder)) = some (c ∷ folder)

-- The JSON text behind the header of a payload, and its fields.
abbrev pub body_of : Text → Text → Option Text → Text
body_of id schema none = tables_json id schema
body_of id schema (some []) = tables_json id schema
body_of id schema (some (c ∷ folder)) = folder_json id schema (c ∷ folder)

parse_lines-header_of :
    (json_parse : Text → Option Meta) (id schema : Text) (folder : Option Text) (tables : List Text)
    → json_parse (body_of id schema folder)
      ≡ some (record { connection_id = some id; schema = some schema; folder = named folder })
    → parse_lines json_parse (header_of id schema folder ∷ tables)
      ≡ some (record {
        connection_id = id;
        schema = schema;
        tables = tables;
        folder_name = named folder;
      })
unfolding parse_lines
parse_lines-header_of json_parse id schema none tables e = rw e refl
parse_lines-header_of json_parse id schema (some []) tables e = rw e refl
parse_lines-header_of json_parse id schema (some (c ∷ folder)) tables e = rw e refl

-- Tables that are copied are pasted as they were, with the connection, the schema and the folder, if no
-- table's name is empty or holds a line break, and if `JSON.parse` reads in the header what
-- `JSON.stringify` wrote there; a folder without a name is left out.
pub parse_table_clipboard-serialize_table_clipboard :
    (json_parse : Text → Option Meta) (p : TablesPayload)
    → All IsName p.tables
    → json_parse (body_of p.connection_id p.schema p.folder_name)
      ≡ some (record {
        connection_id = some p.connection_id;
        schema = some p.schema;
        folder = named p.folder_name;
      })
    → parse_table_clipboard json_parse (serialize_table_clipboard p)
      ≡ some (record p { folder_name = named p.folder_name })
unfolding parse_table_clipboard serialize_table_clipboard
parse_table_clipboard-serialize_table_clipboard json_parse p h e =
    let head = header_of p.connection_id p.schema p.folder_name in
    let is_name : IsName head = IsName-header_of p.connection_id p.schema p.folder_name in
    ap (λ lines. parse_lines json_parse (filter (λ l. ltb 0 (length l)) lines))
      (split_lines-join head p.tables (is_name.0) (IsName-is_line p.tables h))
    ∙ ap (parse_lines json_parse) (filter-IsName (head ∷ p.tables) (is_name, h))
    ∙ parse_lines-header_of json_parse p.connection_id p.schema p.folder_name p.tables e
