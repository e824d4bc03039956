-- ===== src/TableView/Apply/Payload.antt =====
-- What table-view.tsx sends to the backend for the edits in memory, and what it makes of the answers.
use basemaster.Base.{
  ℕ, suc, ◌+◌, ◌-◌, Bool, true, false, ◌&&◌, Option, none, some, List, [], ◌∷◌, ◌++◌, map, length,
  get_elem?, filter, find, find_index, ltb, ◌==◌, if◌then◌else◌,
}
use basemaster.Base.Text.{Text, codes, same_text, join, decimal}
use basemaster.Base.Dict.{get_or}
use basemaster.Types.{Value, null, u_int, Column, ColumnType, blob, json as json_type}
use basemaster.TableView.{Page, PendingEdit}
use basemaster.TableView.Values.{kind_of, text_to_value, intent_to_value}
use basemaster.TableView.Pending.{NewRow}
use basemaster.TableView.Apply.Patch.{UpdatedCell}

-- lib/types.ts
pub record PkEntry : Type 0 where
  pub column : Text
  pub value : Value

pub record CellEdit : Type 0 where
  pub row_pk : List PkEntry
  pub column : Text
  pub new_value : Value

pub data EditResult : Type 0 where
  ok : (rows_affected : ℕ) → EditResult
  err : (message : Text) → EditResult

pub data InsertResult : Type 0 where
  ok : (last_insert_id : ℕ) → InsertResult
  err : (message : Text) → InsertResult

-- The columns of the table are `none` until the schema cache has them.
abbrev pub known : Option (List Column) → List Column
known none = []
known (some columns) = columns

unfoldable pub pk_columns : Option (List Column) → List Text
pk_columns columns = map (λ c. c.name) (filter (λ c. c.is_primary_key) (known columns))

unfoldable pub no_pk : Option (List Column) → Bool
unfolding pk_columns
no_pk columns = length (pk_columns columns) == 0

abbrev pub is_matchable : ColumnType → Bool
is_matchable (blob max_len) = false
is_matchable json_type = false
is_matchable _ = true

unfoldable pub matchable_columns : Option (List Column) → Option (List Text)
unfolding no_pk
matchable_columns none = none
matchable_columns (some columns) =
    if no_pk (some columns)
    then some (map (λ c. c.name) (filter (λ c. is_matchable c.column_type) columns))
    else none

-- `data.columns.indexOf(name)`, and `originalRow[idx] ?? { type: "null" }`
abbrev pub value_at : List Value → Option ℕ → Value
value_at row none = null
value_at row (some i) = get_or null (get_elem? row i)

unfoldable pub key_entry : Page → List Value → Text → PkEntry
key_entry page original_row name = record {
  column = name;
  value = value_at original_row (find_index (λ c. same_text c name) page.columns);
}

abbrev pub key_columns : Page → List Text → Option (List Text) → List Text
key_columns page [] none = page.columns
key_columns page [] (some names) = names
key_columns page (name ∷ pk) matchable = name ∷ pk

unfoldable pub build_row_key : Option (List Column) → Page → List Value → List PkEntry
unfolding pk_columns matchable_columns key_entry
build_row_key columns page original_row =
    map (key_entry page original_row)
      (key_columns page (pk_columns columns) (matchable_columns columns))

abbrev pub row_entry {ℓ} : {A : Type ℓ} → (List Value → A) → Option (List Value) → List A → List A
row_entry key none rest = rest
row_entry key (some row) rest = key row ∷ rest

unfoldable pub delete_payload : Option (List Column) → Page → List ℕ → List (List PkEntry)
unfolding build_row_key
delete_payload columns page [] = []
delete_payload columns page (r ∷ rows) =
    row_entry (build_row_key columns page) (get_elem? page.rows r)
      (delete_payload columns page rows)

-- `cachedColumns?.find((c) => c.name === name)`
unfoldable pub column_meta : Option (List Column) → Text → Option Column
column_meta columns name = find (λ c. same_text c.name name) (known columns)

-- `deletedRowSet`: of the answers and the rows at the same places, the rows of those that are no error.
-- The backend answers once for each row that it is given.
unfoldable pub deleted_rows : List EditResult → List ℕ → List ℕ
deleted_rows [] rows = []
deleted_rows (result ∷ results) [] = []
deleted_rows (EditResult.ok n ∷ results) (r ∷ rows) = r ∷ deleted_rows results rows
deleted_rows (EditResult.err message ∷ results) (r ∷ rows) = deleted_rows results rows

abbrev pub edit_error : EditResult → Option Text
edit_error (EditResult.ok n) = none
edit_error (EditResult.err message) = some message

abbrev pub insert_error : InsertResult → Option Text
insert_error (InsertResult.ok n) = none
insert_error (InsertResult.err message) = some message

-- The line of each error, with its number in the list of answers.
unfoldable pub refused : Text → ℕ → List (Option Text) → List Text
unfolding decimal
refused mark i [] = []
refused mark i (none ∷ errors) = refused mark (suc i) errors
refused mark i (some message ∷ errors) =
    (mark ++ decimal i ++ codes ": " ++ message) ∷ refused mark (suc i) errors

abbrev pub shown_errors : List Text → Option Text
shown_errors [] = none
shown_errors (line ∷ errs) = some (join (codes "\n") (line ∷ errs))

abbrev pub counted : ℕ → ℕ → Option ℕ → Option ℕ
counted deleted inserted none = none
counted deleted inserted (some c) = some (c + inserted - deleted)

-- `last_insert_id` as the value of the column that the database fills.
unfoldable pub generated : ℕ → Option Column → Value
unfolding decimal
generated last_insert_id none = null
generated last_insert_id (some c) =
    if c.is_primary_key && c.is_auto_increment && ltb 0 last_insert_id
    then u_int (decimal last_insert_id)
    else null

-- `m.get(name)`
unfoldable pub text_of : Text → NewRow → Option Text
text_of name [] = none
text_of name ((n, t) ∷ m) = if same_text n name then some t else text_of name m

module _ (json_parse json5_parse : Text → Option Text) (columns : Option (List Column)) where
  unfoldable pub insert_entry : Text × Text → PkEntry
  unfolding column_meta text_to_value
  insert_entry (name, text) = record {
    column = name;
    value = text_to_value json_parse json5_parse text (kind_of (column_meta columns name));
  }

  unfoldable pub insert_payload : List NewRow → List (List PkEntry)
  unfolding insert_entry
  insert_payload rows = map (map insert_entry) rows

  abbrev pub typed_or : ℕ → Option Column → Option Text → Value
  typed_or last_insert_id meta none = generated last_insert_id meta
  typed_or last_insert_id meta (some text) =
      text_to_value json_parse json5_parse text (kind_of meta)

  -- The new row as the page shows it.
  unfoldable pub persisted : Page → ℕ → NewRow → List Value
  unfolding column_meta text_of generated text_to_value
  persisted page last_insert_id m =
      map (λ name. typed_or last_insert_id (column_meta columns name) (text_of name m)) page.columns

  unfoldable pub inserted_rows : Page → List InsertResult → List NewRow → List (List Value)
  unfolding persisted
  inserted_rows page [] rows = []
  inserted_rows page (result ∷ results) [] = []
  inserted_rows page (InsertResult.ok id ∷ results) (m ∷ rows) =
      persisted page id m ∷ inserted_rows page results rows
  inserted_rows page (InsertResult.err message ∷ results) (m ∷ rows) =
      inserted_rows page results rows

module _ (no_name : Text) (json_parse json5_parse : Text → Option Text)
    (columns : Option (List Column)) (page : Page) where
  unfoldable pub new_value : PendingEdit → Value
  unfolding column_meta intent_to_value
  new_value e =
      let name = get_or no_name (get_elem? page.columns e.col) in
      intent_to_value json_parse json5_parse e.intent e.new_text
        (kind_of (column_meta columns name))

  unfoldable pub cell_edit : PendingEdit → CellEdit
  unfolding build_row_key new_value
  cell_edit e = record {
    row_pk = build_row_key columns page e.original_row;
    column = get_or no_name (get_elem? page.columns e.col);
    new_value = new_value e;
  }

  unfoldable pub edit_payload : List PendingEdit → List CellEdit
  unfolding cell_edit
  edit_payload dirty = map cell_edit dirty

  unfoldable pub updated_cells : List EditResult → List PendingEdit → List UpdatedCell
  unfolding new_value
  updated_cells [] dirty = []
  updated_cells (result ∷ results) [] = []
  updated_cells (EditResult.ok n ∷ results) (e ∷ dirty) =
      record { row = e.row; col = e.col; value = new_value e } ∷ updated_cells results dirty
  updated_cells (EditResult.err message ∷ results) (e ∷ dirty) = updated_cells results dirty
