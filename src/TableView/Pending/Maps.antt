-- ===== src/TableView/Pending/Maps.antt =====
-- The parts of the edits in memory: the `Map`s and the `Set` that table-view.tsx keeps them in, as lists
-- in the order of insertion.
use basemaster.Base.{
  ℕ, zero, suc, max, Bool, true, false, ◌&&◌, not, Option, none, some, List, [], ◌∷◌, ◌++◌, filter,
  any, ◌==◌, if◌then◌else◌,
}
use basemaster.Base.Text.{Text, same_text}
use basemaster.Types.{Value, null, string}
use basemaster.TableView.{PendingEdit, Intent, edit_intent, null_intent, empty_intent}
use basemaster.TableView.Values.{format_value_for_edit}

-- `Map<string, string>`: the texts of a row to insert, by column.
abbrev pub NewRow : Type 0
NewRow = List (Text × Text)

pub record Edits : Type 0 where
  pub dirty : List PendingEdit
  pub rows_to_delete : List ℕ
  pub new_rows : List NewRow

-- `m.set(name, text)`
unfoldable pub set_text : Text → Text → NewRow → NewRow
set_text name text [] = (name, text) ∷ []
set_text name text ((n, t) ∷ m) =
    let rest = set_text name text m in if same_text n name then (n, text) ∷ m else (n, t) ∷ rest

-- `m.delete(name)`
unfoldable pub delete_text : Text → NewRow → NewRow
delete_text name m = filter (λ p. not (same_text (p.0) name)) m

-- `if (text === "") m.delete(name); else m.set(name, text);`
unfoldable pub put_text : Text → Text → NewRow → NewRow
unfolding set_text delete_text
put_text name [] m = delete_text name m
put_text name (c ∷ text) m = set_text name (c ∷ text) m

unfoldable pub put_texts : NewRow → NewRow → NewRow
unfolding put_text
put_texts [] m = m
put_texts ((name, text) ∷ texts) m = put_texts texts (put_text name text m)

-- The row at an index, changed; out of range nothing is.
abbrev pub at_row : (NewRow → NewRow) → ℕ → List NewRow → List NewRow
at_row f i [] = []
at_row f zero (m ∷ rows) = f m ∷ rows
at_row f (suc i) (m ∷ rows) = m ∷ at_row f i rows

abbrev pub add_row : List NewRow → List NewRow
add_row rows = rows ++ [] ∷ []

-- `while (next.length < count) next.push(new Map())`
unfoldable pub grow : ℕ → List NewRow → List NewRow
grow zero rows = rows
grow (suc count) [] = [] ∷ grow count []
grow (suc count) (m ∷ rows) = m ∷ grow count rows

-- `groups.get(offset).set(name, text)`, with a new `Map` for a new offset.
unfoldable pub put_group : ℕ → Text → Text → List (ℕ × NewRow) → List (ℕ × NewRow)
unfolding set_text
put_group offset name text [] = (offset, (name, text) ∷ []) ∷ []
put_group offset name text ((o, m) ∷ groups) =
    let rest = put_group offset name text groups in
    if o == offset then (o, set_text name text m) ∷ groups else (o, m) ∷ rest

-- The number of rows that the offsets need: `maxOffset + 1`, and 0 without any.
unfoldable pub max_offset : List (ℕ × NewRow) → ℕ
max_offset [] = 0
max_offset ((o, m) ∷ groups) = max (suc o) (max_offset groups)

unfoldable pub merge_groups : List (ℕ × NewRow) → List NewRow → List NewRow
unfolding put_texts
merge_groups [] rows = rows
merge_groups ((o, m) ∷ groups) rows = merge_groups groups (at_row (put_texts m) o rows)

-- `dirty.delete("row:col")`
unfoldable pub delete_edit : ℕ → ℕ → List PendingEdit → List PendingEdit
delete_edit row col dirty = filter (λ e. not (e.row == row && e.col == col)) dirty

-- The text of a cell in the editor; a cell that the row does not have is empty.
unfoldable pub original_text : Option Value → Text
unfolding format_value_for_edit
original_text none = []
original_text (some v) = format_value_for_edit v

abbrev is_null : Value → Bool
is_null null = true
is_null _ = false

abbrev is_empty : Value → Bool
is_empty (string []) = true
is_empty _ = false

-- An edit that would leave the original as it is.
unfoldable pub keeps : Intent → Text → Option Value → Bool
unfolding original_text
keeps edit_intent text original = same_text text (original_text original)
keeps null_intent text none = true
keeps null_intent text (some v) = is_null v
keeps empty_intent text none = false
keeps empty_intent text (some v) = is_empty v

unfoldable pub in_rows : ℕ → List ℕ → Bool
in_rows r rows = any (λ k. k == r) rows

-- `set.add(r)`, for each row.
unfoldable pub mark_rows : List ℕ → List ℕ → List ℕ
unfolding in_rows
mark_rows [] marked = marked
mark_rows (r ∷ rows) marked = mark_rows rows (if in_rows r marked then marked else marked ++ r ∷ [])

-- `rows.filter((_, i) => !toRemove.has(i))`, from the index `i` on.
unfoldable pub remove_rows {ℓ} : {A : Type ℓ} → List ℕ → ℕ → List A → List A
unfolding in_rows
remove_rows to_remove i [] = []
remove_rows to_remove i (m ∷ rows) =
    let rest = remove_rows to_remove (suc i) rows in if in_rows i to_remove then rest else m ∷ rest
