-- ===== src/TableView/Tests.antt =====
-- Runs of the page of a table, and the theorems at concrete inputs.
use basemaster.Base.{◌≡◌, refl, some, [], ◌∷◌, All, arith}
use basemaster.Base.Text.{codes, same_text}
use basemaster.Types.{null, int, string}
use basemaster.TableView.{
  edit_intent, PendingEdit, Page, reorder_permutation, handle_column_moved,
  apply_saved_column_order,
}
use basemaster.TableView.Among.{AnyOf}
use basemaster.TableView.Moving.{IsInPage, Follows, handle_column_moved-Follows}

move_first_to_last : reorder_permutation 3 0 2 ≡ 1 ∷ 2 ∷ 0 ∷ []
unfolding reorder_permutation
move_first_to_last = refl

abbrev page : Page
page = record {
  columns = codes "id" ∷ codes "name" ∷ [];
  rows = (int (codes "1") ∷ string (codes "Ann") ∷ []) ∷ [];
}

abbrev renamed : PendingEdit
renamed = record {
  row = 0;
  col = 1;
  original_row = int (codes "1") ∷ string (codes "Ann") ∷ [];
  new_text = codes "Bea";
  intent = edit_intent;
}

renamed-IsInPage : IsInPage page renamed
renamed-IsInPage = record { col_in = omega arith; row_full = refl }

handle_column_moved-Follows_example :
    let after = handle_column_moved [] null 0 1 0 (page, renamed ∷ []) in
    All (λ f. AnyOf (λ e. Follows page (after.0) e f) (renamed ∷ [])) (after.1)
    × All (λ e. AnyOf (λ f. Follows page (after.0) e f) (after.1)) (renamed ∷ [])
handle_column_moved-Follows_example =
    handle_column_moved-Follows [] null 0 1 0 page (renamed ∷ []) (renamed-IsInPage, tt) (tt, tt)

saved_order :
    (apply_saved_column_order [] null 0 page (some (codes "name" ∷ codes "id" ∷ []))).columns
    ≡ codes "name" ∷ codes "id" ∷ []
unfolding apply_saved_column_order same_text
saved_order = refl
