-- ===== src/TableView/Apply/Patch.antt =====
-- The change of the page's rows behind a run of `handleApply` in table-view.tsx.
use basemaster.Base.{
  ℕ, zero, suc, ◌&&◌, Option, none, some, List, [], ◌∷◌, ◌++◌, ltb, ◌==◌, if◌then◌else◌,
}
use basemaster.Base.Dict.{get_or}
use basemaster.Types.{Value}

-- An entry of `updatedCells`.
pub record UpdatedCell : Type 0 where
  pub row : ℕ
  pub col : ℕ
  pub value : Value

abbrev pub later_or : Option Value → Option Value → Option Value
later_or (some later) o = some later
later_or none o = o

-- The last value set for the cell, as a `Map` has it.
unfoldable pub patched_value : ℕ → ℕ → List UpdatedCell → Option Value
patched_value row col [] = none
patched_value row col (u ∷ updated) =
    later_or (patched_value row col updated)
      (if u.row == row && u.col == col then some u.value else none)

unfoldable pub patch_row : List UpdatedCell → ℕ → ℕ → List Value → List Value
unfolding patched_value
patch_row updated r c [] = []
patch_row updated r c (v ∷ row) =
    get_or v (patched_value r c updated) ∷ patch_row updated r (suc c) row

unfoldable pub patch_rows : List UpdatedCell → ℕ → List (List Value) → List (List Value)
unfolding patch_row
patch_rows updated r [] = []
patch_rows updated r (row ∷ rows) = patch_row updated r 0 row ∷ patch_rows updated (suc r) rows

-- `Array.from(rows).sort((a, b) => b - a)`
unfoldable pub insert_desc : ℕ → List ℕ → List ℕ
insert_desc r [] = r ∷ []
insert_desc r (k ∷ rows) =
    let rest = insert_desc r rows in if ltb r k then k ∷ rest else r ∷ k ∷ rows

unfoldable pub sort_desc : List ℕ → List ℕ
unfolding insert_desc
sort_desc [] = []
sort_desc (r ∷ rows) = insert_desc r (sort_desc rows)

-- `rows.splice(r, 1)`
unfoldable pub splice_row {ℓ} : {A : Type ℓ} → ℕ → List A → List A
splice_row r [] = []
splice_row zero (x ∷ xs) = xs
splice_row (suc r) (x ∷ xs) = x ∷ splice_row r xs

unfoldable pub splice_rows {ℓ} : {A : Type ℓ} → List ℕ → List A → List A
unfolding splice_row
splice_rows [] xs = xs
splice_rows (r ∷ rows) xs = splice_rows rows (splice_row r xs)

-- The updates in place, then the deletions from the last row on, then the new rows at the end.
unfoldable pub patched_rows :
    List UpdatedCell → List ℕ → List (List Value) → List (List Value) → List (List Value)
unfolding patch_rows sort_desc splice_rows
patched_rows updated deleted inserted rows =
    splice_rows (sort_desc deleted) (patch_rows updated 0 rows) ++ inserted
