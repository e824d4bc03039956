-- ===== src/TableView/Apply/Whole.antt =====
-- A whole run of `handleApply` in table-view.tsx, with a backend that answers for each entry.
use basemaster.Base.{
  ℕ, suc, ◌+◌, ◌≡◌, refl, sym, ap, ◌∙◌, Bool, true, false, ◌||◌, ◌&&◌, not, Option, some, List, [],
  ◌∷◌, ◌++◌, map, arith, get_elem?, filter, ◌==◌, if◌then◌else◌,
}
use basemaster.Base.Text.{Text, codes}
use basemaster.Types.{Value, Column}
use basemaster.TableView.{Page, PendingEdit}
use basemaster.TableView.Pending.{NewRow, in_rows, remove_rows, handle_discard}
use basemaster.TableView.Pending.Sound.{IsPending, Apart, Apart-filter, same_cell}
use basemaster.TableView.Apply.{
  PkEntry, CellEdit, EditResult, InsertResult, View, Written, answers, has_items, build_row_key,
  delete_payload, deleted_rows, patch_rows, patched_rows, edit_payload, insert_entry,
  insert_payload, inserted_rows, persisted, refused, edit_error, insert_error, write, handle_apply,
  no_pk,
}
use basemaster.TableView.Apply.Rows.{splice_rows-sort_desc}
use basemaster.TableView.Apply.Reference.{
  is_done, in_rows-filter, call_with-map, each, done_at, deleted_rows-answers, results_of,
  updated_of, row_after, patch_row-row_after,
}

no_refusal : (a b : Bool) → (a && b && not true) ≡ false
no_refusal a b = ground arith

module _ (no_name : Text) (json_parse json5_parse : Text → Option Text)
    (columns : Option (List Column)) (del : List PkEntry → EditResult) (upd : CellEdit → EditResult)
    (ins : List PkEntry → InsertResult) where
  -- The rows of a page from the row `r` on: those that are marked and that the backend deletes are gone,
  -- and the others hold what the backend has stored.
  pub rows_after : Page → List ℕ → List PendingEdit → ℕ → List (List Value) → List (List Value)
  rows_after page marked dirty r [] = []
  rows_after page marked dirty r (row ∷ rows) =
      let rest = rows_after page marked dirty (suc r) rows in
      if in_rows r marked && is_done (del (build_row_key columns page row))
      then rest
      else row_after no_name json_parse json5_parse columns page upd dirty r 0 row ∷ rest

  abbrev added : Page → NewRow → InsertResult → List (List Value) → List (List Value)
  added page m (InsertResult.ok id) rest = persisted json_parse json5_parse columns page id m ∷ rest
  added page m (InsertResult.err message) rest = rest

  -- The new rows that the backend has inserted.
  pub new_after : Page → List NewRow → List (List Value)
  new_after page [] = []
  new_after page (m ∷ ms) =
      added page m (ins (map (insert_entry json_parse json5_parse columns) m)) (new_after page ms)

  inserted_rows-cons :
      (page : Page) (a : InsertResult) (results : List InsertResult) (m : NewRow) (ms : List NewRow)
      → inserted_rows json_parse json5_parse columns page (a ∷ results) (m ∷ ms)
        ≡ added page m a (inserted_rows json_parse json5_parse columns page results ms)
  unfolding inserted_rows
  inserted_rows-cons page (InsertResult.ok id) results m ms = refl
  inserted_rows-cons page (InsertResult.err message) results m ms = refl

  inserted_rows-new_after :
      (page : Page) (ms : List NewRow)
      → inserted_rows json_parse json5_parse columns page
          (map ins (insert_payload json_parse json5_parse columns ms))
          ms
        ≡ new_after page ms
  unfolding insert_payload new_after
  inserted_rows-new_after page [] = unfold inserted_rows in refl
  inserted_rows-new_after page (m ∷ ms) =
      let a = ins (map (insert_entry json_parse json5_parse columns) m) in
      inserted_rows-cons page a _ m ms ∙ ap (added page m a) (inserted_rows-new_after page ms)

  remove_rows-rows_after :
      (page : Page) (marked : List ℕ) (dirty : List PendingEdit) (r : ℕ) (rows : List (List Value))
      → Apart same_cell dirty
      → ((j : ℕ) → get_elem? rows j ≡ get_elem? page.rows (r + j))
      → remove_rows
          (filter (λ k. done_at columns page del (get_elem? page.rows k)) marked)
          r
          (patch_rows (updated_of no_name json_parse json5_parse columns page upd dirty) r rows)
        ≡ rows_after page marked dirty r rows
  unfolding remove_rows patch_rows rows_after
  remove_rows-rows_after page marked dirty r [] a h = refl
  remove_rows-rows_after page marked dirty r (row ∷ rows) a h =
      let here : some row ≡ get_elem? page.rows r = h 0 ∙ ap (get_elem? page.rows) (omega arith) in
      rw
        (
          in_rows-filter r (λ k. done_at columns page del (get_elem? page.rows k)) marked,
          sym here,
          patch_row-row_after no_name json_parse json5_parse columns page upd dirty r 0 row a,
          remove_rows-rows_after page marked dirty (suc r) rows a
              (λ j. h (suc j) ∙ ap (get_elem? page.rows) (omega arith)),
        )
        refl

  -- The three calls, answered entry by entry.
  abbrev written_by : View → Written
  written_by v =
      let to_insert = filter has_items v.edits.new_rows in
      let del_results = map del (delete_payload columns v.page v.edits.rows_to_delete) in
      let upd_results =
        results_of no_name json_parse json5_parse columns v.page upd v.edits.dirty in
      let ins_results = map ins (insert_payload json_parse json5_parse columns to_insert) in
      record {
        errs =
            refused (codes "del #") 1 (map edit_error del_results)
            ++ refused (codes "edit #") 1 (map edit_error upd_results)
            ++ refused (codes "insert #") 1 (map insert_error ins_results);
        deleted = deleted_rows del_results v.edits.rows_to_delete;
        updated = updated_of no_name json_parse json5_parse columns v.page upd v.edits.dirty;
        inserted = inserted_rows json_parse json5_parse columns v.page ins_results to_insert;
      }

  write-each :
      (v : View)
      → write no_name json_parse json5_parse columns (each del upd ins) v ≡ answers (written_by v)
  unfolding write
  write-each v =
      rw
        (
          call_with-map del (delete_payload columns v.page v.edits.rows_to_delete),
          call_with-map upd
              (edit_payload no_name json_parse json5_parse columns v.page v.edits.dirty),
          call_with-map ins
              (insert_payload json_parse json5_parse columns (filter has_items v.edits.new_rows)),
        )
        refl

  patched_rows-written_by :
      (v : View)
      → IsPending v.page v.edits
      → patched_rows
          ((written_by v).updated)
          ((written_by v).deleted)
          ((written_by v).inserted)
          v.page.rows
        ≡ rows_after v.page v.edits.rows_to_delete v.edits.dirty 0 v.page.rows
          ++ new_after v.page (filter has_items v.edits.new_rows)
  unfolding patched_rows
  patched_rows-written_by v p =
      let marked = v.edits.rows_to_delete in
      let keep : ℕ → Bool = λ k. done_at columns v.page del (get_elem? v.page.rows k) in
      let patched = patch_rows ((written_by v).updated) 0 v.page.rows in
      rw
        (
          deleted_rows-answers columns v.page del marked p.marked,
          splice_rows-sort_desc (filter keep marked) patched
              (Apart-filter ◌==◌ keep marked p.marked_once),
          remove_rows-rows_after v.page marked v.edits.dirty 0 v.page.rows p.cells
              (λ j. ap (get_elem? v.page.rows) (omega arith)),
          inserted_rows-new_after v.page (filter has_items v.edits.new_rows),
        )
        refl

  -- Applying edits that belong to the page, with a backend that answers each entry on its own and throws
  -- nothing, if there is something to apply and the user agrees: the page then shows exactly the rows that
  -- were not both marked and reported as deleted, in order, with the value of each edit that was reported
  -- as written in its cell and the old value in each other cell, and then the new rows that were reported
  -- as inserted; and no edits are left.
  pub handle_apply-rows_after :
      (v : View)
      → IsPending v.page v.edits
      → (has_items v.edits.dirty || has_items v.edits.rows_to_delete || has_items v.edits.new_rows)
        ≡ true
      → ((handle_apply no_name json_parse json5_parse columns (each del upd ins) true v).page.rows
          ≡ rows_after v.page v.edits.rows_to_delete v.edits.dirty 0 v.page.rows
            ++ new_after v.page (filter has_items v.edits.new_rows))
        × ((handle_apply no_name json_parse json5_parse columns (each del upd ins) true v).edits
            ≡ handle_discard v.edits)
  unfolding handle_apply
  handle_apply-rows_after v p h =
      rw
        (
          h,
          no_refusal (no_pk columns) (has_items v.edits.dirty || has_items v.edits.rows_to_delete),
        )
        (rw (write-each v) (patched_rows-written_by v p, refl))
