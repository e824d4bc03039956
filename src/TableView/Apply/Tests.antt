-- ===== src/TableView/Apply/Tests.antt =====
-- Runs of the edits in memory of table-view.tsx, and the theorems on them at concrete inputs.
use basemaster.Base.{ℕ, ◌≡◌, refl, true, false, some, none, List, [], ◌∷◌, ◌++◌, filter, ◌||◌}
use basemaster.Base.Text.{Text, codes, same_text}
use basemaster.Types.{int, u_int, string, Column, integer, text}
use basemaster.TableView.{Page}
use basemaster.TableView.Pending
use basemaster.TableView.Pending.Sound.{IsPending}
use basemaster.TableView.Pending.Reach.{
  Reach, here, next, types, pastes, deletes, edits-Reach-IsPending,
}
use basemaster.TableView.Undo.{History, button, keyboard, load}
use basemaster.TableView.Undo.Sessions.{edits, undoes, redoes, session, steps, refs, session-load}
use basemaster.TableView.Apply.{PkEntry, EditResult, InsertResult, View, has_items, handle_apply}
use basemaster.TableView.Apply.Reference.{each}
use basemaster.TableView.Apply.Whole.{rows_after, new_after, handle_apply-rows_after}

abbrev page : Page
page = record {
  columns = codes "id" ∷ codes "name" ∷ [];
  rows =
      (int (codes "1") ∷ string (codes "Ann") ∷ [])
      ∷ (int (codes "2") ∷ string (codes "Bob") ∷ [])
      ∷ (int (codes "3") ∷ string (codes "Cy") ∷ [])
      ∷ [];
}

abbrev no_edits : Pending.Edits
no_edits = record { dirty = []; rows_to_delete = []; new_rows = [] }

abbrev at : ℕ → ℕ → Text → Pending.CellText
at row col t = record { row = row; col = col; text = t }

-- A name is typed over, a row is marked, and a new row is pasted.
abbrev typed : Pending.Edits
typed = Pending.handle_cell_edit [] page (at 2 1 (codes "Di")) no_edits

abbrev marked : Pending.Edits
marked = Pending.handle_delete_rows page (0 ∷ []) typed

abbrev pasted : Pending.Edits
pasted = Pending.handle_batch_edit [] page (at 3 1 (codes "Ed") ∷ []) marked

no_edits-IsPending : IsPending page no_edits
no_edits-IsPending = record { edits = tt; cells = tt; marked = tt; marked_once = tt; filled = tt }

pasted-Reach : Reach [] page no_edits pasted
pasted-Reach =
    next (next (next here (types (at 2 1 (codes "Di")))) (deletes (0 ∷ [])))
      (pastes (at 3 1 (codes "Ed") ∷ []))

edits-Reach-IsPending_example : IsPending page pasted
edits-Reach-IsPending_example = edits-Reach-IsPending [] page no_edits-IsPending pasted-Reach

pasted_rows : pasted.new_rows ≡ ((codes "name", codes "Ed") ∷ []) ∷ []
unfolding Pending.handle_batch_edit Pending.handle_delete_rows Pending.handle_cell_edit same_text
pasted_rows = refl

-- Typing the old text again forgets the edit.
typed_back : (Pending.handle_cell_edit [] page (at 2 1 (codes "Cy")) typed).dirty ≡ []
unfolding Pending.handle_cell_edit same_text
typed_back = refl

abbrev nothing : History ℕ
nothing = record { current = 0; past = []; future = []; last = none; skip_next = false }

session-load_example :
    session 0 (edits 1 ∷ edits 2 ∷ undoes button ∷ undoes keyboard ∷ []) (load 0 nothing)
    ≡ refs 0 (
        steps 0
          (edits 2 ∷ undoes button ∷ undoes keyboard ∷ [])
          (record { before = []; now = 1; after = [] }))
session-load_example = session-load 0 0 1 nothing (edits 2 ∷ undoes button ∷ undoes keyboard ∷ [])

-- What a button undoes can be done again; what a key undoes is lost.
redone_by_button :
    (session 0 (edits 1 ∷ edits 2 ∷ undoes button ∷ redoes button ∷ []) (load 0 nothing)).current
    ≡ 2
unfolding session load
redone_by_button = refl

lost_by_key :
    (session 0 (edits 1 ∷ edits 2 ∷ undoes keyboard ∷ redoes button ∷ []) (load 0 nothing)).current
    ≡ 0
unfolding session load
lost_by_key = refl

abbrev columns : List Column
columns =
    record {
      name = codes "id";
      column_type = integer 32 false;
      nullable = false;
      default = none;
      is_primary_key = true;
      is_auto_increment = true;
      comment = none;
    }
    ∷ record {
      name = codes "name";
      column_type = text none;
      nullable = true;
      default = none;
      is_primary_key = false;
      is_auto_increment = false;
      comment = none;
    }
    ∷ []

abbrev delete_one : List PkEntry → EditResult
delete_one key = EditResult.ok 1

abbrev insert_one : List PkEntry → InsertResult
insert_one row = InsertResult.ok 4

abbrev view : View
view = record { page = page; edits = pasted; count = some 3; apply_error = none }

some_edits :
    (has_items pasted.dirty || has_items pasted.rows_to_delete || has_items pasted.new_rows) ≡ true
unfolding Pending.handle_batch_edit Pending.handle_delete_rows Pending.handle_cell_edit same_text
some_edits = refl

handle_apply-rows_after_example :
    ((handle_apply [] some some
        (some columns)
        (each delete_one (λ e. EditResult.ok 1) insert_one)
        true
        view).page.rows
      ≡ rows_after [] some some
          (some columns)
          delete_one
          (λ e. EditResult.ok 1)
          insert_one
          page
          pasted.rows_to_delete
          pasted.dirty
          0
          page.rows
        ++ new_after [] some some
            (some columns)
            delete_one
            (λ e. EditResult.ok 1)
            insert_one
            page
            (filter has_items pasted.new_rows))
    × ((handle_apply [] some some
          (some columns)
          (each delete_one (λ e. EditResult.ok 1) insert_one)
          true
          view).edits
        ≡ Pending.handle_discard pasted)
handle_apply-rows_after_example =
    handle_apply-rows_after [] some some (some columns) delete_one (λ e. EditResult.ok 1) insert_one
      view edits-Reach-IsPending_example some_edits

-- The page after it: the first row is gone, a name is new, and the new row has its generated id.
applied_rows :
    (handle_apply [] some some
      (some columns)
      (each delete_one (λ e. EditResult.ok 1) insert_one)
      true
      view).page.rows
    ≡ (int (codes "2") ∷ string (codes "Bob") ∷ [])
      ∷ (int (codes "3") ∷ string (codes "Di") ∷ [])
      ∷ (u_int (codes "4") ∷ string (codes "Ed") ∷ [])
      ∷ []
unfolding handle_apply Pending.handle_batch_edit Pending.handle_delete_rows Pending.handle_cell_edit
    same_text
applied_rows = refl
