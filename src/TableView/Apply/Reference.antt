-- ===== src/TableView/Apply/Reference.antt =====
-- What `handleApply` of table-view.tsx leaves on the page, beside what the backend says it has written.
use basemaster.Base.{
  ℕ, zero, suc, ◌<◌, ◌≡◌, refl, ap, ◌∙◌, inl, inr, Bool, true, false, ◌&&◌, Option, none, some,
  List, [], ◌∷◌, map, arith, length, get_elem?, filter, All, All-map, ◌==◌, ==_iff, if◌then◌else◌,
  Bool-cases, Option-cases,
}
use basemaster.Base.Text.{Text}
use basemaster.Base.Dict.{get_or}
use basemaster.Types.{Value, Column}
use basemaster.TableView.{Page, PendingEdit}
use basemaster.TableView.Pending.{in_rows}
use basemaster.TableView.Pending.Sound.{Apart, same_cell}
use basemaster.TableView.Apply.{
  PkEntry, CellEdit, EditResult, InsertResult, UpdatedCell, Backend, answers, call_with,
  build_row_key, delete_payload, deleted_rows, later_or, patched_value, updated_cells, edit_payload,
  cell_edit, new_value, patch_row,
}

abbrev pub is_done : EditResult → Bool
is_done (EditResult.ok rows_affected) = true
is_done (EditResult.err message) = false

get_elem?-in {ℓ} : {A : Type ℓ} (xs : List A) (i : ℕ) → i < length xs → get_elem? xs i ≡ none → ⊥
get_elem?-in [] i h e = omega (arith, h)
get_elem?-in (x ∷ xs) zero h e = cc e
get_elem?-in (x ∷ xs) (suc i) h e = get_elem?-in xs i (omega (arith, h)) e

pub in_rows-filter :
    (i : ℕ) (keep : ℕ → Bool) (ks : List ℕ) → in_rows i (filter keep ks) ≡ (in_rows i ks && keep i)
unfolding in_rows
in_rows-filter i keep [] = refl
in_rows-filter i keep (k ∷ ks) = elim (Bool-cases (k == i)) [
  | inl e ↦ ground (arith, in_rows-filter i keep ks, ap keep ((==_iff k i).0 e))
  | inr e ↦ ground (arith, in_rows-filter i keep ks)
]

deleted_rows-cons :
    (a : EditResult) (results : List EditResult) (r : ℕ) (rows : List ℕ)
    → deleted_rows (a ∷ results) (r ∷ rows)
      ≡ (if is_done a then r ∷ deleted_rows results rows else deleted_rows results rows)
unfolding deleted_rows
deleted_rows-cons (EditResult.ok n) results r rows = refl
deleted_rows-cons (EditResult.err message) results r rows = refl

pub call_with-map {ℓ κ} :
    {A : Type ℓ} {B : Type κ} (f : A → B) (xs : List A)
    → call_with (λ ys. answers (map f ys)) xs ≡ answers (map f xs)
call_with-map f [] = refl
call_with-map f (x ∷ xs) = refl

later_or-none : (o : Option Value) → later_or o none ≡ o
later_or-none none = refl
later_or-none (some v) = refl

not_here :
    (e f : PendingEdit) (r c : ℕ)
    → (e.row == r && e.col == c) ≡ true
    → same_cell e f ≡ false
    → (f.row == r && f.col == c) ≡ false
not_here e f r c h k = ground arith

-- A backend that writes each entry on its own.
module _ (del : List PkEntry → EditResult) (upd : CellEdit → EditResult)
    (ins : List PkEntry → InsertResult) where
  abbrev pub each : Backend
  each = record {
    delete_table_rows = λ rows. answers (map del rows);
    apply_table_edits = λ edits. answers (map upd edits);
    insert_table_rows = λ rows. answers (map ins rows);
  }

module _ (columns : Option (List Column)) (page : Page) (del : List PkEntry → EditResult) where
  abbrev pub done_at : Option (List Value) → Bool
  done_at none = false
  done_at (some row) = is_done (del (build_row_key columns page row))

  pub deleted_rows-answers :
      (ks : List ℕ)
      → All (λ r. r < length page.rows) ks
      → deleted_rows (map del (delete_payload columns page ks)) ks
        ≡ filter (λ r. done_at (get_elem? page.rows r)) ks
  unfolding delete_payload
  deleted_rows-answers [] h = unfold deleted_rows in refl
  deleted_rows-answers (r ∷ ks) (h, hs) = elim (Option-cases (get_elem? page.rows r)) [
    | inl e ↦ absurd (get_elem?-in page.rows r h e)
    | inr (row, e) ↦ rw e (
        deleted_rows-cons (del (build_row_key columns page row)) _ r ks
        ∙ ap (λ rest. if is_done (del (build_row_key columns page row)) then r ∷ rest else rest)
            (deleted_rows-answers ks hs))
  ]

module _ (no_name : Text) (json_parse json5_parse : Text → Option Text)
    (columns : Option (List Column)) (page : Page) (upd : CellEdit → EditResult) where
  -- The value of a cell behind the edits, the first edit of the cell being the one that counts.
  pub stored : List PendingEdit → ℕ → ℕ → Value → Value
  stored [] r c v = v
  stored (e ∷ dirty) r c v =
      let rest = stored dirty r c v in
      let value = new_value no_name json_parse json5_parse columns page e in
      let done = is_done (upd (cell_edit no_name json_parse json5_parse columns page e)) in
      if e.row == r && e.col == c then if done then value else v else rest

  pub row_after : List PendingEdit → ℕ → ℕ → List Value → List Value
  unfolding stored
  row_after dirty r c [] = []
  row_after dirty r c (v ∷ row) = stored dirty r c v ∷ row_after dirty r (suc c) row

  abbrev pub results_of : List PendingEdit → List EditResult
  results_of dirty = map upd (edit_payload no_name json_parse json5_parse columns page dirty)

  abbrev pub updated_of : List PendingEdit → List UpdatedCell
  updated_of dirty =
      updated_cells no_name json_parse json5_parse columns page (results_of dirty) dirty

  -- What is written of a cell, for an edit of it.
  abbrev written_as : Bool → Value → Option Value
  written_as true value = some value
  written_as false value = none

  updated_cells-miss :
      (a : EditResult) (results : List EditResult) (e : PendingEdit) (dirty : List PendingEdit)
      (r c : ℕ)
      → (e.row == r && e.col == c) ≡ false
      → patched_value r c
          (updated_cells no_name json_parse json5_parse columns page (a ∷ results) (e ∷ dirty))
        ≡ patched_value r c
            (updated_cells no_name json_parse json5_parse columns page results dirty)
  unfolding updated_cells patched_value
  updated_cells-miss (EditResult.ok n) results e dirty r c h = rw h (later_or-none _)
  updated_cells-miss (EditResult.err message) results e dirty r c h = refl

  updated_cells-hit :
      (a : EditResult) (results : List EditResult) (e : PendingEdit) (dirty : List PendingEdit)
      (r c : ℕ)
      → (e.row == r && e.col == c) ≡ true
      → patched_value r c (updated_cells no_name json_parse json5_parse columns page results dirty)
        ≡ none
      → patched_value r c
          (updated_cells no_name json_parse json5_parse columns page (a ∷ results) (e ∷ dirty))
        ≡ written_as (is_done a) (new_value no_name json_parse json5_parse columns page e)
  unfolding updated_cells patched_value
  updated_cells-hit (EditResult.ok n) results e dirty r c h k = rw (h, k) refl
  updated_cells-hit (EditResult.err message) results e dirty r c h k = k

  patched_value-none :
      (r c : ℕ) (dirty : List PendingEdit)
      → All (λ e. (e.row == r && e.col == c) ≡ false) dirty
      → patched_value r c (updated_of dirty) ≡ none
  unfolding edit_payload
  patched_value-none r c [] h = unfold updated_cells patched_value in refl
  patched_value-none r c (e ∷ dirty) (h, hs) =
      updated_cells-miss _ _ e dirty r c h ∙ patched_value-none r c dirty hs

  get_or-written :
      (b : Bool) (v value : Value) → get_or v (written_as b value) ≡ (if b then value else v)
  get_or-written true v value = refl
  get_or-written false v value = refl

  patched_value-stored :
      (dirty : List PendingEdit) (r c : ℕ) (v : Value)
      → Apart same_cell dirty
      → get_or v (patched_value r c (updated_of dirty)) ≡ stored dirty r c v
  unfolding edit_payload stored
  patched_value-stored [] r c v a = unfold updated_cells patched_value in refl
  patched_value-stored (e ∷ dirty) r c v (a, as_) = elim (Bool-cases (e.row == r && e.col == c)) [
    | inl h ↦
        let edit = cell_edit no_name json_parse json5_parse columns page e in
        let value = new_value no_name json_parse json5_parse columns page e in
        let rest_none =
          patched_value-none r c dirty (All-map _ _ (λ f k. not_here e f r c h k) dirty a) in
        rw (updated_cells-hit (upd edit) (results_of dirty) e dirty r c h rest_none, h)
          (get_or-written (is_done (upd edit)) v value)
    | inr h ↦
        let edit = cell_edit no_name json_parse json5_parse columns page e in
        rw (updated_cells-miss (upd edit) (results_of dirty) e dirty r c h, h)
          (patched_value-stored dirty r c v as_)
  ]

  pub patch_row-row_after :
      (dirty : List PendingEdit) (r c : ℕ) (row : List Value)
      → Apart same_cell dirty
      → patch_row (updated_of dirty) r c row ≡ row_after dirty r c row
  unfolding patch_row row_after
  patch_row-row_after dirty r c [] a = refl
  patch_row-row_after dirty r c (v ∷ row) a =
      rw (patched_value-stored dirty r c v a, patch_row-row_after dirty r (suc c) row a) refl
