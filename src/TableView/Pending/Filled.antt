-- ===== src/TableView/Pending/Filled.antt =====
-- New rows of table-view.tsx hold no empty text.
use basemaster.Base.{
  ℕ, zero, suc, ◌-◌, ◌≢◌, inl, inr, List, [], ◌∷◌, All, All-filter, All-append, ltb, Bool-cases,
  length,
}
use basemaster.Base.Text.{Text, same_text}
use basemaster.TableView.{Page}
use basemaster.TableView.Pending

abbrev pub IsFilled : Pending.NewRow → Type 0
IsFilled m = All (λ p. (p.1) ≢ []) m

set_text-IsFilled :
    (name text : Text) (m : Pending.NewRow)
    → text ≢ []
    → IsFilled m
    → IsFilled (Pending.set_text name text m)
unfolding Pending.set_text
set_text-IsFilled name text [] t h = (t, tt)
set_text-IsFilled name text ((n, old) ∷ m) t (h, hs) = elim (Bool-cases (same_text n name)) [
  | inl e ↦ rw e (t, hs)
  | inr e ↦ rw e (h, set_text-IsFilled name text m t hs)
]

put_text-IsFilled :
    (name text : Text) (m : Pending.NewRow) → IsFilled m → IsFilled (Pending.put_text name text m)
unfolding Pending.put_text Pending.delete_text
put_text-IsFilled name [] m h = All-filter _ _ m h
put_text-IsFilled name (c ∷ text) m h = set_text-IsFilled name (c ∷ text) m (λ e. cc e) h

put_texts-IsFilled : (texts m : Pending.NewRow) → IsFilled m → IsFilled (Pending.put_texts texts m)
unfolding Pending.put_texts
put_texts-IsFilled [] m h = h
put_texts-IsFilled ((name, text) ∷ texts) m h =
    put_texts-IsFilled texts _ (put_text-IsFilled name text m h)

at_row-All :
    (f : Pending.NewRow → Pending.NewRow)
    → ((m : Pending.NewRow) → IsFilled m → IsFilled (f m))
    → (i : ℕ) (rows : List Pending.NewRow) → All IsFilled rows
    → All IsFilled (Pending.at_row f i rows)
at_row-All f k i [] h = tt
at_row-All f k zero (m ∷ rows) (h, hs) = (k m h, hs)
at_row-All f k (suc i) (m ∷ rows) (h, hs) = (h, at_row-All f k i rows hs)

grow-All :
    (n : ℕ) (rows : List Pending.NewRow) → All IsFilled rows → All IsFilled (Pending.grow n rows)
unfolding Pending.grow
grow-All zero rows h = h
grow-All (suc n) [] h = (tt, grow-All n [] tt)
grow-All (suc n) (m ∷ rows) (h, hs) = (h, grow-All n rows hs)

pub add_row-All :
    (rows : List Pending.NewRow) → All IsFilled rows → All IsFilled (Pending.add_row rows)
add_row-All rows h = All-append IsFilled rows ([] ∷ []) h (tt, tt)

merge_groups-All :
    (groups : List (ℕ × Pending.NewRow)) (rows : List Pending.NewRow)
    → All IsFilled rows
    → All IsFilled (Pending.merge_groups groups rows)
unfolding Pending.merge_groups
merge_groups-All [] rows h = h
merge_groups-All ((o, m) ∷ groups) rows h =
    merge_groups-All groups _ (at_row-All _ (put_texts-IsFilled m) o rows h)

pub batch-All :
    (groups : List (ℕ × Pending.NewRow)) (n : ℕ) (rows : List Pending.NewRow)
    → All IsFilled rows
    → All IsFilled (Pending.merge_groups groups (Pending.grow n rows))
batch-All groups n rows h = merge_groups-All groups _ (grow-All n rows h)

pub typed-All :
    (name text : Text) (i : ℕ) (rows : List Pending.NewRow)
    → All IsFilled rows
    → All IsFilled (Pending.at_row (Pending.put_text name text) i rows)
typed-All name text i rows h = at_row-All _ (put_text-IsFilled name text) i rows h

pub remove_rows-All {ℓ} :
    {A : Type ℓ} (P : A → Type 0) (ks : List ℕ) (i : ℕ) (rows : List A)
    → All P rows
    → All P (Pending.remove_rows ks i rows)
unfolding Pending.remove_rows
remove_rows-All P ks i [] h = tt
remove_rows-All P ks i (m ∷ rows) (h, hs) = elim (Bool-cases (Pending.in_rows i ks)) [
  | inl e ↦ rw e (remove_rows-All P ks (suc i) rows hs)
  | inr e ↦ rw e (h, remove_rows-All P ks (suc i) rows hs)
]

pub clear_cells-All :
    (no_name : Text) (page : Page) (cells : List (ℕ × ℕ)) (rows : List Pending.NewRow)
    → All IsFilled rows
    → All IsFilled (Pending.clear_cells no_name page cells rows)
unfolding Pending.clear_cells Pending.delete_text
clear_cells-All no_name page [] rows h = h
clear_cells-All no_name page ((col, row) ∷ cells) rows h =
    elim (Bool-cases (ltb row (length page.rows))) [
      | inl e ↦ rw e (clear_cells-All no_name page cells rows h)
      | inr e ↦ rw e (
          clear_cells-All no_name page cells _
            (at_row-All _ (λ m k. All-filter _ _ m k) (row - length page.rows) rows h))
    ]
