-- ===== src/TableView/Pending/Reach.antt =====
-- The edits in memory of table-view.tsx through any sequence of the user's edits of one page.
use basemaster.Base.{ℕ, ◌-◌, inl, inr, List, [], map, length, All, All-filter, leb, Bool-cases}
use basemaster.Base.Text.{Text}
use basemaster.TableView.{Page, edit_intent, null_intent, empty_intent}
use basemaster.TableView.Pending
use basemaster.TableView.Pending.Filled.{
  IsFilled, add_row-All, batch-All, typed-All, remove_rows-All, clear_cells-All,
}
use basemaster.TableView.Pending.Sound.{
  IsPending, AreEdits, AreMarked, same_cell, Apart-filter, edit_cell-AreEdits, edit_cells-AreEdits,
  mark_rows-AreMarked, rows_within,
}

-- One call of a handler.
pub data Step (no_name : Text) (page : Page) (s : Pending.Edits) : Pending.Edits → Type 0 where
  types : (c : Pending.CellText) → Step no_name page s (Pending.handle_cell_edit no_name page c s)
  pastes :
      (edits : List Pending.CellText)
      → Step no_name page s (Pending.handle_batch_edit no_name page edits s)
  nulls :
      (cells : List (ℕ × ℕ))
      → Step no_name page s (Pending.handle_delete_cells no_name page cells s)
  empties :
      (cells : List (ℕ × ℕ)) → Step no_name page s (Pending.handle_set_empty_cells page cells s)
  deletes : (row_idxs : List ℕ) → Step no_name page s (Pending.handle_delete_rows page row_idxs s)
  appends : Step no_name page s (Pending.handle_append_row s)
  discards : Step no_name page s (Pending.handle_discard s)

pub data Reach (no_name : Text) (page : Page) (s : Pending.Edits) : Pending.Edits → Type 0 where
  here : Reach no_name page s s
  next :
      {t u : Pending.Edits}
      → Reach no_name page s t
      → Step no_name page t u
      → Reach no_name page s u

built :
    (page : Page) (s : Pending.Edits)
    → AreEdits page s.dirty
    → AreMarked page s.rows_to_delete
    → All IsFilled s.new_rows
    → IsPending page s
built page s (h, a) (m, o) f = record {
  edits = h;
  cells = a;
  marked = m;
  marked_once = o;
  filled = f;
}

module _ (no_name : Text) (page : Page) where
  handle_cell_edit-IsPending :
      (c : Pending.CellText) (s : Pending.Edits)
      → IsPending page s
      → IsPending page (Pending.handle_cell_edit no_name page c s)
  unfolding Pending.handle_cell_edit
  handle_cell_edit-IsPending c s v = elim (Bool-cases (leb (length page.rows) c.row)) [
    | inl e ↦ rw e (
        built page _ (v.edits, v.cells) (v.marked, v.marked_once)
          (typed-All _ c.text (c.row - length page.rows) s.new_rows v.filled))
    | inr e ↦ rw e (
        built page _ (edit_cell-AreEdits page edit_intent c s.dirty (v.edits, v.cells))
          (v.marked, v.marked_once) v.filled)
  ]

  handle_delete_rows-IsPending :
      (row_idxs : List ℕ) (s : Pending.Edits)
      → IsPending page s
      → IsPending page (Pending.handle_delete_rows page row_idxs s)
  unfolding Pending.handle_delete_rows
  handle_delete_rows-IsPending row_idxs s v =
      built page _ (All-filter _ _ s.dirty v.edits, Apart-filter same_cell _ s.dirty v.cells)
        (mark_rows-AreMarked page _ s.rows_to_delete (rows_within (length page.rows) row_idxs)
          (v.marked, v.marked_once))
        (remove_rows-All _ _ 0 s.new_rows v.filled)

  Step-IsPending :
      {s t : Pending.Edits} → Step no_name page s t → IsPending page s → IsPending page t
  unfolding Pending.handle_batch_edit Pending.handle_delete_cells Pending.handle_set_empty_cells
      Pending.handle_append_row
  Step-IsPending {s} (types c) v = handle_cell_edit-IsPending c s v
  Step-IsPending {s} (pastes edits) v =
      let groups = Pending.group_edits no_name page edits [] in
      built page _ (edit_cells-AreEdits page edit_intent edits s.dirty (v.edits, v.cells))
        (v.marked, v.marked_once) (batch-All groups (Pending.max_offset groups) s.new_rows v.filled)
  Step-IsPending {s} (nulls cells) v =
      built page _
        (edit_cells-AreEdits page null_intent (map Pending.blank cells) s.dirty (v.edits, v.cells))
        (v.marked, v.marked_once) (clear_cells-All no_name page cells s.new_rows v.filled)
  Step-IsPending {s} (empties cells) v =
      built page _
        (edit_cells-AreEdits page empty_intent (map Pending.blank cells) s.dirty (v.edits, v.cells))
        (v.marked, v.marked_once) v.filled
  Step-IsPending {s} (deletes row_idxs) v = handle_delete_rows-IsPending row_idxs s v
  Step-IsPending {s} appends v =
      built page _ (v.edits, v.cells) (v.marked, v.marked_once) (add_row-All s.new_rows v.filled)
  Step-IsPending {s} discards v = built page _ (tt, tt) (tt, tt) tt

  -- Whatever the user edits on a page, starting with edits that belong to it: each edited cell is in a
  -- row of the page that the edit has kept as it was, is changed by its edit, and has only that one; each
  -- row marked for deletion is a row of the page, marked once; and a new row holds no empty text.
  pub edits-Reach-IsPending :
      {s t : Pending.Edits} → IsPending page s → Reach no_name page s t → IsPending page t
  edits-Reach-IsPending v here = v
  edits-Reach-IsPending v (next r step) = Step-IsPending step (edits-Reach-IsPending v r)
