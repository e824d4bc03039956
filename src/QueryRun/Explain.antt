-- ===== src/QueryRun/Explain.antt =====
-- EXPLAIN in components/query/query-tab.tsx: what is sent, and the JSON text that is read of the answer.
use basemaster.Base.{
  Bool, true, false, not, ◌&&◌, Option, none, some, List, [], ◌∷◌, ◌++◌, ◌==◌, if◌then◌else◌,
}
use basemaster.Base.Text.{Text, codes, trim, has_ink, join}
use basemaster.Types.{Value, json, string}

-- `text.replace(/;\s*$/, "")`
unfoldable pub drop_semicolon : Text → Text
unfolding has_ink
drop_semicolon [] = []
drop_semicolon (c ∷ t) =
    let rest = drop_semicolon t in if c == b';' && not (has_ink t) then [] else c ∷ rest

abbrev pub explain_prefix : Bool → Text
explain_prefix true = codes "EXPLAIN (ANALYZE, FORMAT JSON, BUFFERS) "
explain_prefix false = codes "EXPLAIN FORMAT=JSON "

-- For Postgres the tree alone, and else the plain form too.
abbrev pub sent_of : Bool → Text → List Text
sent_of is_pg [] = []
sent_of true (c ∷ sql) = (explain_prefix true ++ c ∷ sql) ∷ []
sent_of false (c ∷ sql) = (explain_prefix false ++ c ∷ sql) ∷ (codes "EXPLAIN " ++ c ∷ sql) ∷ []

-- The statements that `handleExplain` runs.
unfoldable pub explain_sql : Bool → Text → List Text
unfolding drop_semicolon trim
explain_sql is_pg sql = sent_of is_pg (drop_semicolon (trim sql))

-- A JSON cell, which ends the search, or the strings so far.
pub data Found : Type 0 where
  whole : Text → Found
  pieces : List Text → Found

abbrev pub with_piece : Text → Found → Found
with_piece text (whole found) = whole found
with_piece text (pieces texts) = pieces (text ∷ texts)

abbrev pub first_cell : Option Value → Found → Found
first_cell (some (json text)) found = whole text
first_cell (some (string text)) found = with_piece text found
first_cell _ found = found

abbrev pub cell_of : List Value → Option Value
cell_of [] = none
cell_of (v ∷ row) = some v

unfoldable pub read_rows : List (List Value) → Found
read_rows [] = pieces []
read_rows (row ∷ rows) = first_cell (cell_of row) (read_rows rows)

abbrev pub found_or : Found → Option Text → Option Text
found_or (whole text) later = some text
found_or (pieces []) later = later
found_or (pieces (text ∷ texts)) later = some (join (codes "\n") (text ∷ texts))

-- The rows of each result, none for one that is not a SELECT.
unfoldable pub extract_explain_json_text : List (Option (List (List Value))) → Option Text
unfolding read_rows join
extract_explain_json_text [] = none
extract_explain_json_text (none ∷ results) = extract_explain_json_text results
extract_explain_json_text (some rows ∷ results) =
    let later = extract_explain_json_text results in found_or (read_rows rows) later
