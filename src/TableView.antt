-- ===== src/TableView.antt =====
-- The page of a table that components/table/table-view.tsx shows and edits: the order of its columns and
-- the pending edits of its cells (here), and the values that a typed text stands for.
mod Tests
pub mod Permutation
pub mod Among
pub mod Moving
pub mod Saved
pub mod Values
pub mod Pending
pub mod Undo
pub mod Apply
use basemaster.Base.{
  ℕ, zero, suc, Bool, true, false, not, ◌&&◌, Option, none, some, List, [], ◌∷◌, ◌++◌, map, length,
  get_elem?, find_index, ◌==◌, if◌then◌else◌,
}
use basemaster.Base.Text.{Text, same_text}
use basemaster.Base.Dict.{get_or}
use basemaster.Types.{Value}

pub data Intent : Type 0 where
  edit_intent null_intent empty_intent : Intent

pub record PendingEdit : Type 0 where
  pub row : ℕ
  pub col : ℕ
  pub original_row : List Value
  pub new_text : Text
  pub intent : Intent

-- The columns and rows of a `QueryResult`.
pub record Page : Type 0 where
  pub columns : List Text
  pub rows : List (List Value)

-- `Array.from({ length: len }, (_, i) => i)`, from `i` on.
unfoldable pub indices : ℕ → ℕ → List ℕ
indices i zero = []
indices i (suc n) = i ∷ indices (suc i) n

-- `idx.splice(from, 1)`: what it takes out, and what it leaves.
unfoldable pub splice_out : ℕ → List ℕ → Option ℕ × List ℕ
splice_out from [] = (none, [])
splice_out zero (x ∷ xs) = (some x, xs)
splice_out (suc from) (x ∷ xs) = let rest = splice_out from xs in (rest.0, x ∷ rest.1)

-- `idx.splice(to, 0, moved)`
unfoldable pub splice_in : ℕ → ℕ → List ℕ → List ℕ
splice_in zero x ys = x ∷ ys
splice_in (suc to) x [] = x ∷ []
splice_in (suc to) x (y ∷ ys) = y ∷ splice_in to x ys

-- Without an item at `from` there is nothing to insert; the source would insert `undefined`.
abbrev pub splice_back : ℕ → Option ℕ × List ℕ → List ℕ
splice_back to (none, rest) = rest
splice_back to (some moved, rest) = splice_in to moved rest

unfoldable pub reorder_permutation : ℕ → ℕ → ℕ → List ℕ
unfolding indices splice_out splice_in
reorder_permutation len from to = splice_back to (splice_out from (indices 0 len))

-- `oldToNew[i]` after the loop from `new_idx` on: a later entry replaces an earlier one.
abbrev pub or_here {ℓ} : {A : Type ℓ} → Bool → A → Option A → Option A
or_here hit x (some later) = some later
or_here true x none = some x
or_here false x none = none

unfoldable pub old_to_new : ℕ → List ℕ → ℕ → Option ℕ
old_to_new new_idx [] i = none
old_to_new new_idx (p ∷ permutation) i =
    or_here (p == i) new_idx (old_to_new (suc new_idx) permutation i)

-- `map.set("row:col", edit)`
unfoldable pub set_edit : PendingEdit → List PendingEdit → List PendingEdit
set_edit e [] = e ∷ []
set_edit e (d ∷ dirty) =
    let rest = set_edit e dirty in if d.row == e.row && d.col == e.col then e ∷ dirty else d ∷ rest

abbrev pub both_some : Option ℕ → Option (List ℕ) → Option (List ℕ)
both_some none o = none
both_some (some i) none = none
both_some (some i) (some is) = some (i ∷ is)

-- `permutation.map((i) => xs[i])`
abbrev pub permute {ℓ} : {A : Type ℓ} → A → List ℕ → List A → List A
permute undefined [] xs = []
permute undefined (i ∷ permutation) xs =
    get_or undefined (get_elem? xs i) ∷ permute undefined permutation xs

-- The indices of the saved names, or none if a name is not a column.
unfoldable pub saved_indices : List Text → List Text → Option (List ℕ)
saved_indices columns [] = some []
saved_indices columns (name ∷ saved) =
    both_some (find_index (λ c. same_text c name) columns) (saved_indices columns saved)

-- The values of `undefined` where an index is out of range.
module _ (no_name : Text) (no_value : Value) (no_col : ℕ) where
  unfoldable pub move_page : List ℕ → Page → Page
  move_page permutation page = record {
    columns = permute no_name permutation page.columns;
    rows = map (λ row. permute no_value permutation row) page.rows;
  }

  unfoldable pub move_edit : List ℕ → PendingEdit → PendingEdit
  unfolding old_to_new
  move_edit permutation e = record e {
    col = get_or no_col (old_to_new 0 permutation e.col);
    original_row = permute no_value permutation e.original_row;
  }

  unfoldable pub move_dirty : List ℕ → List PendingEdit → List PendingEdit → List PendingEdit
  unfolding move_edit set_edit
  move_dirty permutation [] next = next
  move_dirty permutation (e ∷ dirty) next =
      move_dirty permutation dirty (set_edit (move_edit permutation e) next)

  unfoldable pub handle_column_moved : ℕ → ℕ → Page × List PendingEdit → Page × List PendingEdit
  unfolding reorder_permutation move_page move_dirty
  handle_column_moved from to (page, dirty) =
      let permutation = reorder_permutation (length page.columns) from to in
      if from == to
      then (page, dirty)
      else (move_page permutation page, move_dirty permutation dirty [])

  abbrev pub permuted : Page → Option (List ℕ) → Page
  permuted r none = r
  permuted r (some permutation) = move_page permutation r

  unfoldable pub apply_saved_column_order : Page → Option (List Text) → Page
  unfolding saved_indices move_page
  apply_saved_column_order r none = r
  apply_saved_column_order r (some []) = r
  apply_saved_column_order r (some (name ∷ saved)) =
      if not (length (name ∷ saved) == length r.columns)
      then r
      else permuted r (saved_indices r.columns (name ∷ saved))
