-- ===== src/TableView/Apply.antt =====
-- Writing the edits in memory to the database, and the change of the page that stands for reading it
-- again: `buildRowKey` and `handleApply` of components/table/table-view.tsx.
mod Tests
pub mod Patch
pub mod Payload
pub mod Rows
pub mod Reference
pub mod Whole
unfoldable pub use Patch.*
unfoldable pub use Payload.*
use basemaster.Base.{
  ℕ, zero, suc, ◌+◌, ◌-◌, Bool, true, false, ◌||◌, ◌&&◌, not, Option, none, some, List, [], ◌∷◌,
  ◌++◌, map, length, filter, if◌then◌else◌,
}
use basemaster.Base.Text.{Text, codes, decimal, join}
use basemaster.Types.{Value, Column}
use basemaster.TableView.{Page, PendingEdit}
use basemaster.TableView.Pending.{Edits, NewRow, handle_discard}

-- What an awaited call gives: an answer, or what it throws, as a text.
pub data Awaited {ℓ} (A : Type ℓ) : Type ℓ where
  answers : A → Awaited A
  throws : Text → Awaited A

-- The calls of the backend: each is given what to write, and answers for each entry.
pub record Backend : Type 0 where
  pub delete_table_rows : List (List PkEntry) → Awaited (List EditResult)
  pub apply_table_edits : List CellEdit → Awaited (List EditResult)
  pub insert_table_rows : List (List PkEntry) → Awaited (List InsertResult)

-- The parts of the view that `handleApply` changes. A count that would be negative is 0 here.
pub record View : Type 0 where
  pub page : Page
  pub edits : Edits
  pub count : Option ℕ
  pub apply_error : Option Text

-- What the three calls have written, and the lines of what they have refused.
pub record Written : Type 0 where
  pub errs : List Text
  pub deleted : List ℕ
  pub updated : List UpdatedCell
  pub inserted : List (List Value)

abbrev pub has_items {ℓ} : {A : Type ℓ} → List A → Bool
has_items [] = false
has_items (x ∷ xs) = true

abbrev pub then_await {ℓ κ} : {A : Type ℓ} {B : Type κ} → Awaited A → (A → Awaited B) → Awaited B
then_await (answers a) f = f a
then_await (throws e) f = throws e

-- `xs.length > 0 ? await call(xs) : []`
abbrev pub call_with {ℓ κ} :
    {A : Type ℓ} {B : Type κ} → (List A → Awaited (List B)) → List A → Awaited (List B)
call_with call [] = answers []
call_with call (x ∷ xs) = call (x ∷ xs)

module _ (no_name : Text) (json_parse json5_parse : Text → Option Text)
    (columns : Option (List Column)) where
  -- The three calls in turn: deletions, edits of cells, new rows.
  unfoldable pub write : Backend → View → Awaited Written
  unfolding delete_payload edit_payload insert_payload deleted_rows updated_cells inserted_rows
      refused
  write b v =
      let s = v.edits in
      let to_insert = filter has_items s.new_rows in
      then_await (call_with b.delete_table_rows (delete_payload columns v.page s.rows_to_delete))
        (λ del.
          then_await
            (call_with b.apply_table_edits
              (edit_payload no_name json_parse json5_parse columns v.page s.dirty))
            (λ upd.
              then_await
                (call_with b.insert_table_rows
                  (insert_payload json_parse json5_parse columns to_insert))
                (λ ins. answers (record {
                  errs =
                      refused (codes "del #") 1 (map edit_error del)
                      ++ refused (codes "edit #") 1 (map edit_error upd)
                      ++ refused (codes "insert #") 1 (map insert_error ins);
                  deleted = deleted_rows del s.rows_to_delete;
                  updated = updated_cells no_name json_parse json5_parse columns v.page upd s.dirty;
                  inserted = inserted_rows json_parse json5_parse columns v.page ins to_insert;
                }))))

  -- `setData` and `setCount`, the errors, and no more edits.
  unfoldable pub settle_view : View → Awaited Written → View
  unfolding patched_rows
  settle_view v (throws e) = record v { apply_error = some e }
  settle_view v (answers w) = record {
    page = record v.page { rows = patched_rows w.updated w.deleted w.inserted v.page.rows };
    edits = handle_discard v.edits;
    count = counted (length w.deleted) (length w.inserted) v.count;
    apply_error = shown_errors w.errs;
  }

  -- The button: nothing is done without edits, or, for a table without a primary key, if the user does
  -- not agree.
  unfoldable pub handle_apply : Backend → Bool → View → View
  unfolding write settle_view no_pk
  handle_apply b confirmed v =
      let s = v.edits in
      if not (has_items s.dirty || has_items s.rows_to_delete || has_items s.new_rows)
      then v
      else if no_pk columns && (has_items s.dirty || has_items s.rows_to_delete) && not confirmed
      then v
      else settle_view v (write b v)
