-- ===== src/TableView/Moving.antt =====
-- Moving a column in components/table/table-view.tsx: every pending edit stays with its column.
use basemaster.Base.{
  ℕ, zero, suc, ◌<◌, ◌≡◌, refl, sym, ap, ◌∙◌, inl, inr, Bool, true, false, some, List, [], ◌∷◌,
  arith, length, get_elem?, All, All-map, All-map2, ◌==◌, if◌then◌else◌, Bool-cases,
}
use basemaster.Base.Text.{Text}
use basemaster.Base.Dict.{get_or}
use basemaster.Types.{Value}
use basemaster.TableView.Pending.Sound.{Apart, same_cell}
use basemaster.TableView.Among.{
  AnyOf, set_edit-All, set_edit_there, set_edit_stays, AnyOf-map, Apart-All,
}
use basemaster.TableView.Permutation.{any-reorder_permutation, old_to_new-found, get_elem?-permute}
use basemaster.TableView.{
  PendingEdit, Page, reorder_permutation, old_to_new, permute, move_page, move_edit, move_dirty,
  handle_column_moved,
}

-- An edit of a cell of the page, with the whole row as it was.
pub record IsInPage (page : Page) (e : PendingEdit) : Type 0 where
  pub col_in : e.col < length page.columns
  pub row_full : length e.original_row ≡ length page.columns

-- An edit `f` of the page `after` says of the column of its cell what `e` says in the page `before`.
pub record Follows (before after : Page) (e f : PendingEdit) : Type 0 where
  pub same_row : f.row ≡ e.row
  pub same_text : f.new_text ≡ e.new_text
  pub same_intent : f.intent ≡ e.intent
  pub same_column : get_elem? after.columns f.col ≡ get_elem? before.columns e.col
  pub same_original : get_elem? f.original_row f.col ≡ get_elem? e.original_row e.col

get_or-in {ℓ} :
    {A : Type ℓ} (undefined : A) (xs : List A) (i : ℕ)
    → i < length xs
    → some (get_or undefined (get_elem? xs i)) ≡ get_elem? xs i
get_or-in undefined [] i h = absurd (omega (arith, h))
get_or-in undefined (x ∷ xs) zero h = refl
get_or-in undefined (x ∷ xs) (suc i) h = get_or-in undefined xs i (omega (arith, h))

Follows-refl : (page : Page) (e : PendingEdit) → Follows page page e e
Follows-refl page e = record {
  same_row = refl;
  same_text = refl;
  same_intent = refl;
  same_column = refl;
  same_original = refl;
}

if-both {ℓ} :
    (P : Page × List PendingEdit → Type ℓ) (b : Bool) (x y : Page × List PendingEdit)
    → P x
    → P y
    → P (if b then x else y)
if-both P true x y h k = h
if-both P false x y h k = k

module _ (no_name : Text) (no_value : Value) (no_col : ℕ) where
  move_dirty-All :
      (Q : PendingEdit → Type 0) (perm : List ℕ) (dirty next : List PendingEdit)
      → All (λ e. Q (move_edit no_name no_value no_col perm e)) dirty
      → All Q next
      → All Q (move_dirty no_name no_value no_col perm dirty next)
  unfolding move_dirty
  move_dirty-All Q perm [] next h k = k
  move_dirty-All Q perm (e ∷ dirty) next (h, hs) k =
      move_dirty-All Q perm dirty _ hs (set_edit-All Q _ next h k)

  move_edit-Follows :
      (page : Page) (from to : ℕ) (e : PendingEdit)
      → IsInPage page e
      → Follows page
          (move_page no_name no_value no_col
            (reorder_permutation (length page.columns) from to)
            page)
          e
          (move_edit no_name no_value no_col (reorder_permutation (length page.columns) from to) e)
  unfolding move_page move_edit
  move_edit-Follows page from to e h =
      let perm = reorder_permutation (length page.columns) from to in
      let (j, new, back) =
        old_to_new-found 0 e.col perm
          (any-reorder_permutation (length page.columns) from to e.col h.col_in) in
      let col : get_or no_col (old_to_new 0 perm e.col) ≡ j =
        ap (get_or no_col) new ∙ omega arith in
      record {
        same_row = refl;
        same_text = refl;
        same_intent = refl;
        same_column =
            ap (get_elem? (permute no_name perm page.columns)) col
            ∙ get_elem?-permute no_name perm page.columns j e.col back
            ∙ get_or-in no_name page.columns e.col h.col_in;
        same_original =
            ap (get_elem? (permute no_value perm e.original_row)) col
            ∙ get_elem?-permute no_value perm e.original_row j e.col back
            ∙ get_or-in no_value e.original_row e.col (omega (arith, h.col_in, h.row_full));
      }

  moved_from :
      (F : PendingEdit → PendingEdit → Type 0) (move : PendingEdit → PendingEdit)
      (dirty : List PendingEdit)
      → All (λ e. F e (move e)) dirty
      → All (λ e. AnyOf (λ d. F d (move e)) dirty) dirty
  moved_from F move [] h = tt
  moved_from F move (e ∷ dirty) (h, hs) = (
    inl h,
    All-map _ (λ f. AnyOf (λ d. F d (move f)) (e ∷ dirty)) (λ f k. inr k) dirty
        (moved_from F move dirty hs),
  )

  -- The edit `m` stays where others of other cells are set, and is there once it is set.
  move_dirty_stays :
      (perm : List ℕ) (m : PendingEdit) (dirty next : List PendingEdit)
      → All (λ e. same_cell m (move_edit no_name no_value no_col perm e) ≡ false) dirty
      → AnyOf (λ f. f ≡ m) next
      → AnyOf (λ f. f ≡ m) (move_dirty no_name no_value no_col perm dirty next)
  unfolding move_dirty
  move_dirty_stays perm m [] next h k = k
  move_dirty_stays perm m (e ∷ dirty) next (h, hs) k =
      move_dirty_stays perm m dirty _ hs (set_edit_stays m _ next h k)

  move_dirty_there :
      (perm : List ℕ) (dirty next : List PendingEdit)
      → Apart
          (λ d e.
            same_cell
              (move_edit no_name no_value no_col perm d)
              (move_edit no_name no_value no_col perm e))
          dirty
      → All
          (λ e.
            AnyOf
              (λ f. f ≡ move_edit no_name no_value no_col perm e)
              (move_dirty no_name no_value no_col perm dirty next))
          dirty
  unfolding move_dirty
  move_dirty_there perm [] next h = tt
  move_dirty_there perm (e ∷ dirty) next (h, hs) = (
    move_dirty_stays perm (move_edit no_name no_value no_col perm e) dirty _ h
        (set_edit_there _ next),
    move_dirty_there perm dirty _ hs,
  )

  get_elem?-move_edit :
      (page : Page) (from to : ℕ) (e : PendingEdit)
      → IsInPage page e
      → get_elem? (reorder_permutation (length page.columns) from to) (
          let e' =
            move_edit no_name no_value no_col
              (reorder_permutation (length page.columns) from to)
              e in
          e'.col)
        ≡ some e.col
  unfolding move_edit
  get_elem?-move_edit page from to e h =
      let perm = reorder_permutation (length page.columns) from to in
      let (j, new, back) =
        old_to_new-found 0 e.col perm
          (any-reorder_permutation (length page.columns) from to e.col h.col_in) in
      let col : get_or no_col (old_to_new 0 perm e.col) ≡ j =
        ap (get_or no_col) new ∙ omega arith in
      ap (get_elem? perm) col ∙ back

  -- Edits of different cells stay on different cells.
  same_cell-move_edit :
      (page : Page) (from to : ℕ) (d e : PendingEdit)
      → IsInPage page d
      → IsInPage page e
      → same_cell d e ≡ false
      → same_cell
          (move_edit no_name no_value no_col (reorder_permutation (length page.columns) from to) d)
          (move_edit no_name no_value no_col (reorder_permutation (length page.columns) from to) e)
        ≡ false
  same_cell-move_edit page from to d e h k apart =
      let perm = reorder_permutation (length page.columns) from to in
      let d' = move_edit no_name no_value no_col perm d in
      let e' = move_edit no_name no_value no_col perm e in
      let rows : (d'.row == e'.row) ≡ (d.row == e.row) = unfold move_edit in refl in
      elim (Bool-cases (d'.col == e'.col)) [
        | inr c ↦ ground (arith, c)
        | inl c ↦
            let cols : some d.col ≡ some e.col =
              sym (get_elem?-move_edit page from to d h)
              ∙ ap (get_elem? perm) (let same : d'.col ≡ e'.col = ground (arith, c) in same)
              ∙ get_elem?-move_edit page from to e k in
            let same_col : d.col ≡ e.col = cc cols in ground (arith, rows, same_col, apart)
      ]

  -- Moving a column keeps every pending edit with its column: if the edits lie in the page, with full
  -- rows, each in a cell of its own, then each edit behind the move follows one before it, and each edit
  -- before it is followed by one behind: by one with the same row, text and intent, whose cell is in the
  -- column of the same name, with the same original value.
  pub handle_column_moved-Follows :
      (from to : ℕ) (page : Page) (dirty : List PendingEdit)
      → All (IsInPage page) dirty
      → Apart same_cell dirty
      → let after = handle_column_moved no_name no_value no_col from to (page, dirty) in
        All (λ f. AnyOf (λ e. Follows page (after.0) e f) dirty) (after.1)
        × All (λ e. AnyOf (λ f. Follows page (after.0) e f) (after.1)) dirty
  unfolding handle_column_moved
  handle_column_moved-Follows from to page dirty h a =
      let perm = reorder_permutation (length page.columns) from to in
      let moved = move_page no_name no_value no_col perm page in
      let follow : All (λ e. Follows page moved e (move_edit no_name no_value no_col perm e))
          dirty =
        All-map _ _ (λ e k. move_edit-Follows page from to e k) dirty h in
      let same = All-map _ _ (λ e k. Follows-refl page e) dirty h in
      if-both
        (λ r.
          All (λ f. AnyOf (λ e. Follows page (r.0) e f) dirty) (r.1)
          × All (λ e. AnyOf (λ f. Follows page (r.0) e f) (r.1)) dirty)
        (from == to) _ _
        (
          moved_from (Follows page page) (λ e. e) dirty same,
          moved_from (λ d e. Follows page page e d) (λ e. e) dirty same,
        )
        (
          move_dirty-All (λ f. AnyOf (λ e. Follows page moved e f) dirty) perm dirty []
              (moved_from (Follows page moved) (move_edit no_name no_value no_col perm) dirty
                follow)
              tt,
          All-map2 _ _ _ (λ e k there. AnyOf-map _ _ _ (λ f same_edit. rw same_edit k) there) dirty
              follow
              (move_dirty_there perm dirty [] (
                Apart-All (IsInPage page) same_cell _ dirty (same_cell-move_edit page from to) h
                  a)),
        )
