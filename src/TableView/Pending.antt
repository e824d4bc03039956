-- ===== src/TableView/Pending.antt =====
-- The edits in memory of components/table/table-view.tsx: edited cells, rows marked for deletion, and new
-- rows, with the handlers that change them while a page is loaded.
pub mod Maps
pub mod Filled
pub mod Sound
pub mod Reach
unfoldable pub use Maps.*
use basemaster.Base.{
  ℕ, zero, suc, ◌-◌, max, Bool, true, false, ◌||◌, not, ◌&&◌, Option, none, some, List, [], ◌∷◌,
  map, length, get_elem?, filter, any, leb, ltb, ◌==◌, if◌then◌else◌,
}
use basemaster.Base.Text.{Text}
use basemaster.Base.Dict.{get_or}
use basemaster.Types.{Value}
use basemaster.TableView.{
  Page, PendingEdit, Intent, edit_intent, null_intent, empty_intent, set_edit,
}

-- A cell of the grid, and a text for it.
pub record CellText : Type 0 where
  pub col : ℕ
  pub row : ℕ
  pub text : Text

-- `const originalRow = data.rows[row]; if (!originalRow) continue;`
abbrev pub on_row :
    Option (List Value)
    → (List Value → List PendingEdit → List PendingEdit)
    → List PendingEdit
    → List PendingEdit
on_row none f dirty = dirty
on_row (some original_row) f dirty = f original_row dirty

-- An edit that changes nothing is forgotten.
unfoldable pub note : Bool → PendingEdit → List PendingEdit → List PendingEdit
unfolding delete_edit set_edit
note true e dirty = delete_edit e.row e.col dirty
note false e dirty = set_edit e dirty

-- The edit `{ row, col, originalRow, newText, intent }`, unless it leaves the original as it is.
unfoldable pub edit_row : Intent → Text → ℕ → ℕ → List Value → List PendingEdit → List PendingEdit
unfolding note keeps
edit_row intent text col row original_row dirty =
    note (keeps intent text (get_elem? original_row col))
      (record {
        row = row;
        col = col;
        original_row = original_row;
        new_text = text;
        intent = intent;
      })
      dirty

unfoldable pub edit_cell : Page → Intent → CellText → List PendingEdit → List PendingEdit
unfolding edit_row
edit_cell page intent c dirty =
    on_row (get_elem? page.rows c.row) (edit_row intent c.text c.col c.row) dirty

-- Those cells of a list that are in rows of the page, in turn.
unfoldable pub edit_cells : Page → Intent → List CellText → List PendingEdit → List PendingEdit
unfolding edit_cell
edit_cells page intent [] dirty = dirty
edit_cells page intent (c ∷ cells) dirty =
    edit_cells page intent cells
      (if leb (length page.rows) c.row then dirty else edit_cell page intent c dirty)

-- A cell without a text.
abbrev pub blank : ℕ × ℕ → CellText
blank (col, row) = record { col = col; row = row; text = [] }

-- `data.columns[col]`, and `no_name` for `undefined`.
module _ (no_name : Text) where
  abbrev pub column_at : Page → ℕ → Text
  column_at page col = get_or no_name (get_elem? page.columns col)

  unfoldable pub handle_cell_edit : Page → CellText → Edits → Edits
  unfolding edit_cell put_text delete_text set_text
  handle_cell_edit page c s =
      if leb (length page.rows) c.row
      then record s {
        new_rows =
            at_row (put_text (column_at page c.col) c.text) (c.row - length page.rows) s.new_rows;
      }
      else record s { dirty = edit_cell page edit_intent c s.dirty }

  -- `newRowEdits`, from the edits that lie behind the page.
  unfoldable pub group_edits : Page → List CellText → List (ℕ × NewRow) → List (ℕ × NewRow)
  unfolding put_group set_text
  group_edits page [] groups = groups
  group_edits page (c ∷ edits) groups = group_edits page edits (
      if leb (length page.rows) c.row
      then put_group (c.row - length page.rows) (column_at page c.col) c.text groups
      else groups)

  -- A paste: rows past the end are made as they are needed.
  unfoldable pub handle_batch_edit : Page → List CellText → Edits → Edits
  unfolding edit_cells group_edits merge_groups grow max_offset put_texts put_text
  handle_batch_edit page edits s =
      let groups = group_edits page edits [] in
      record s {
        dirty = edit_cells page edit_intent edits s.dirty;
        new_rows = merge_groups groups (grow (max_offset groups) s.new_rows);
      }

  -- The texts of new rows are taken out, for NULL.
  unfoldable pub clear_cells : Page → List (ℕ × ℕ) → List NewRow → List NewRow
  unfolding delete_text
  clear_cells page [] new_rows = new_rows
  clear_cells page ((col, row) ∷ cells) new_rows = clear_cells page cells (
      if ltb row (length page.rows)
      then new_rows
      else at_row (delete_text (column_at page col)) (row - length page.rows) new_rows)

  unfoldable pub handle_delete_cells : Page → List (ℕ × ℕ) → Edits → Edits
  unfolding edit_cells clear_cells
  handle_delete_cells page cells s = record s {
    dirty = edit_cells page null_intent (map blank cells) s.dirty;
    new_rows = clear_cells page cells s.new_rows;
  }

unfoldable pub handle_append_row : Edits → Edits
handle_append_row s = record s { new_rows = add_row s.new_rows }

-- Without rows to mark, or new rows to remove, these leave the state as it is.
unfoldable pub handle_delete_rows : Page → List ℕ → Edits → Edits
unfolding mark_rows remove_rows in_rows
handle_delete_rows page row_idxs s =
    let to_mark_delete = filter (λ r. ltb r (length page.rows)) row_idxs in
    let to_remove =
      map (λ r. r - length page.rows) (filter (λ r. leb (length page.rows) r) row_idxs) in
    record {
      dirty = filter (λ e. not (in_rows e.row to_mark_delete)) s.dirty;
      rows_to_delete = mark_rows to_mark_delete s.rows_to_delete;
      new_rows = remove_rows to_remove 0 s.new_rows;
    }

unfoldable pub handle_set_empty_cells : Page → List (ℕ × ℕ) → Edits → Edits
unfolding edit_cells
handle_set_empty_cells page cells s = record s {
  dirty = edit_cells page empty_intent (map blank cells) s.dirty;
}

abbrev pub handle_discard : Edits → Edits
handle_discard s = record { dirty = []; rows_to_delete = []; new_rows = [] }
