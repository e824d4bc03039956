-- ===== src/TableView/Pending/Sound.antt =====
-- The edits in memory of table-view.tsx belong to the page that they were made on.
use basemaster.Base.{
  ℕ, ◌<◌, ◌≡◌, refl, inl, inr, Bool, true, false, ◌&&◌, some, List, [], ◌∷◌, ◌++◌, arith, length,
  get_elem?, filter, All, All-map, All-filter, All-append, leb, ltb, ◌==◌, Bool-cases, Option-cases,
}
use basemaster.TableView.{Page, PendingEdit, Intent, set_edit}
use basemaster.TableView.Pending
use basemaster.TableView.Pending.Filled.{IsFilled}

-- No two of the items are the same.
abbrev pub Apart {ℓ} : {A : Type ℓ} → (A → A → Bool) → List A → Type 0
Apart same [] = Unit
Apart same (x ∷ xs) = All (λ y. same x y ≡ false) xs × Apart same xs

abbrev pub same_cell : PendingEdit → PendingEdit → Bool
same_cell e f = e.row == f.row && e.col == f.col

-- An edit of a row of the page, which keeps the row as it was, and which changes its cell.
pub record IsEdit (page : Page) (e : PendingEdit) : Type 0 where
  pub row_in : get_elem? page.rows e.row ≡ some e.original_row
  pub changes : Pending.keeps e.intent e.new_text (get_elem? e.original_row e.col) ≡ false

pub record IsPending (page : Page) (s : Pending.Edits) : Type 0 where
  pub edits : All (IsEdit page) s.dirty
  pub cells : Apart same_cell s.dirty
  pub marked : All (λ r. r < length page.rows) s.rows_to_delete
  pub marked_once : Apart ◌==◌ s.rows_to_delete
  pub filled : All IsFilled s.new_rows

pub Apart-filter {ℓ} :
    {A : Type ℓ} (same : A → A → Bool) (keep : A → Bool) (xs : List A)
    → Apart same xs
    → Apart same (filter keep xs)
Apart-filter same keep [] h = tt
Apart-filter same keep (x ∷ xs) (h, hs) = elim (Bool-cases (keep x)) [
  | inl e ↦ rw e (All-filter _ keep xs h, Apart-filter same keep xs hs)
  | inr e ↦ rw e (Apart-filter same keep xs hs)
]

Apart-append {ℓ} :
    {A : Type ℓ} (same : A → A → Bool) (xs : List A) (y : A)
    → All (λ x. same x y ≡ false) xs
    → Apart same xs
    → Apart same (xs ++ y ∷ [])
Apart-append same [] y h k = (tt, tt)
Apart-append same (x ∷ xs) y (h, hs) (k, ks) =
    (All-append _ xs (y ∷ []) k (h, tt), Apart-append same xs y hs ks)

same_cell-other :
    (e d f : PendingEdit) → same_cell d e ≡ true → same_cell d f ≡ false → same_cell e f ≡ false
same_cell-other e d f h k = ground arith

same_cell_swap : (e d : PendingEdit) → same_cell d e ≡ false → same_cell e d ≡ false
same_cell_swap e d h = ground arith

set_edit-All :
    (Q : PendingEdit → Type 0) (e : PendingEdit) (dirty : List PendingEdit)
    → Q e
    → All Q dirty
    → All Q (set_edit e dirty)
unfolding set_edit
set_edit-All Q e [] q h = (q, tt)
set_edit-All Q e (d ∷ dirty) q (h, hs) = elim (Bool-cases (same_cell d e)) [
  | inl same ↦ rw same (q, hs)
  | inr other ↦ rw other (h, set_edit-All Q e dirty q hs)
]

set_edit-Apart :
    (e : PendingEdit) (dirty : List PendingEdit)
    → Apart same_cell dirty
    → Apart same_cell (set_edit e dirty)
unfolding set_edit
set_edit-Apart e [] h = (tt, tt)
set_edit-Apart e (d ∷ dirty) (h, hs) = elim (Bool-cases (same_cell d e)) [
  | inl same ↦ rw same (All-map _ _ (λ f k. same_cell-other e d f same k) dirty h, hs)
  | inr other ↦ rw other (set_edit-All _ e dirty other h, set_edit-Apart e dirty hs)
]

-- Edits of cells of the page, each of another cell.
abbrev pub AreEdits : Page → List PendingEdit → Type 0
AreEdits page dirty = All (IsEdit page) dirty × Apart same_cell dirty

note-AreEdits :
    (page : Page) (b : Bool) (e : PendingEdit) (dirty : List PendingEdit)
    → (b ≡ false → IsEdit page e)
    → AreEdits page dirty
    → AreEdits page (Pending.note b e dirty)
unfolding Pending.note Pending.delete_edit
note-AreEdits page true e dirty k (h, a) =
    (All-filter _ _ dirty h, Apart-filter same_cell _ dirty a)
note-AreEdits page false e dirty k (h, a) =
    (set_edit-All (IsEdit page) e dirty (k refl) h, set_edit-Apart e dirty a)

pub edit_cell-AreEdits :
    (page : Page) (intent : Intent) (c : Pending.CellText) (dirty : List PendingEdit)
    → AreEdits page dirty
    → AreEdits page (Pending.edit_cell page intent c dirty)
unfolding Pending.edit_cell Pending.edit_row
edit_cell-AreEdits page intent c dirty h = elim (Option-cases (get_elem? page.rows c.row)) [
  | inl e ↦ rw e h
  | inr (r, e) ↦ rw e (note-AreEdits page _ _ dirty (λ k. record { row_in = e; changes = k }) h)
]

pub edit_cells-AreEdits :
    (page : Page) (intent : Intent) (cells : List Pending.CellText) (dirty : List PendingEdit)
    → AreEdits page dirty
    → AreEdits page (Pending.edit_cells page intent cells dirty)
unfolding Pending.edit_cells
edit_cells-AreEdits page intent [] dirty h = h
edit_cells-AreEdits page intent (c ∷ cells) dirty h =
    elim (Bool-cases (leb (length page.rows) c.row)) [
      | inl e ↦ rw e (edit_cells-AreEdits page intent cells dirty h)
      | inr e ↦
          rw e (edit_cells-AreEdits page intent cells _ (edit_cell-AreEdits page intent c dirty h))
    ]

not_in : (r : ℕ) (rows : List ℕ) → Pending.in_rows r rows ≡ false → All (λ x. (x == r) ≡ false) rows
unfolding Pending.in_rows
not_in r [] h = tt
not_in r (k ∷ rows) h = (ground arith, not_in r rows (ground arith))

-- Rows of the page, each once.
abbrev pub AreMarked : Page → List ℕ → Type 0
AreMarked page rows = All (λ r. r < length page.rows) rows × Apart ◌==◌ rows

pub mark_rows-AreMarked :
    (page : Page) (rows marked : List ℕ)
    → All (λ r. r < length page.rows) rows
    → AreMarked page marked
    → AreMarked page (Pending.mark_rows rows marked)
unfolding Pending.mark_rows
mark_rows-AreMarked page [] marked h m = m
mark_rows-AreMarked page (r ∷ rows) marked (h, hs) (m, a) =
    elim (Bool-cases (Pending.in_rows r marked)) [
      | inl e ↦ rw e (mark_rows-AreMarked page rows marked hs (m, a))
      | inr e ↦ rw e (
          mark_rows-AreMarked page rows _ hs (
            All-append _ marked (r ∷ []) m (h, tt),
            Apart-append ◌==◌ marked r (not_in r marked e) a,
          ))
    ]

pub rows_within : (n : ℕ) (rows : List ℕ) → All (λ r. r < n) (filter (λ r. ltb r n) rows)
rows_within n [] = tt
rows_within n (r ∷ rows) = elim (Bool-cases (ltb r n)) [
  | inl e ↦ rw e (ground arith, rows_within n rows)
  | inr e ↦ rw e (rows_within n rows)
]
