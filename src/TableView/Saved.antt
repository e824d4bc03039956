-- ===== src/TableView/Saved.antt =====
-- The saved order of the columns in components/table/table-view.tsx.
use basemaster.Base.{
  ℕ, ◌≡◌, refl, ap, ◌⊎◌, inl, inr, Bool, true, false, Option, none, some, List, [], ◌∷◌, get_elem?,
  find_index, next_index, if◌then◌else◌, Bool-cases,
}
use basemaster.Base.Text.{Text, same_text, same_text_sound}
use basemaster.Base.Dict.{get_or}
use basemaster.Types.{Value}
use basemaster.TableView.{
  Page, permute, both_some, saved_indices, permuted, move_page, apply_saved_column_order,
}

-- An index that was found for a name.
Named : Text → List Text → Option ℕ → Type 0
Named name columns none = Unit
Named name columns (some i) = get_elem? columns i ≡ some name

next-Named :
    (name c : Text) (columns : List Text) (o : Option ℕ)
    → Named name columns o
    → Named name (c ∷ columns) (next_index o)
unfolding Named
next-Named name c columns none h = tt
next-Named name c columns (some i) h = h

find_index-Named :
    (name : Text) (columns : List Text)
    → Named name columns (find_index (λ c. same_text c name) columns)
unfolding Named
find_index-Named name [] = tt
find_index-Named name (c ∷ columns) = elim (Bool-cases (same_text c name)) [
  | inl y ↦ rw y (ap some (same_text_sound c name y))
  | inr n ↦ rw n (next-Named name c columns _ (find_index-Named name columns))
]

-- Indices that bring the columns into the saved order.
Ordered : Text → List Text → List Text → Option (List ℕ) → Type 0
Ordered no_name columns saved none = Unit
Ordered no_name columns saved (some perm) = permute no_name perm columns ≡ saved

both_some-Ordered :
    (no_name : Text) (columns : List Text) (name : Text) (saved : List Text) (o : Option ℕ)
    (p : Option (List ℕ))
    → Named name columns o
    → Ordered no_name columns saved p
    → Ordered no_name columns (name ∷ saved) (both_some o p)
unfolding Named Ordered
both_some-Ordered no_name columns name saved none p h k = tt
both_some-Ordered no_name columns name saved (some i) none h k = tt
both_some-Ordered no_name columns name saved (some i) (some perm) h k =
    rw (ap (get_or no_name) h, k) refl

saved_indices-Ordered :
    (no_name : Text) (columns saved : List Text)
    → Ordered no_name columns saved (saved_indices columns saved)
unfolding saved_indices Ordered
saved_indices-Ordered no_name columns [] = refl
saved_indices-Ordered no_name columns (name ∷ saved) =
    both_some-Ordered no_name columns name saved _ (saved_indices columns saved)
      (find_index-Named name columns) (saved_indices-Ordered no_name columns saved)

if_permuted :
    (no_name : Text) (no_value : Value) (no_col : ℕ) (r : Page) (saved : List Text) (b : Bool)
    (o : Option (List ℕ))
    → Ordered no_name r.columns saved o
    → ((if b then r else permuted no_name no_value no_col r o) ≡ r)
      ⊎ ((if b then r else permuted no_name no_value no_col r o).columns ≡ saved)
unfolding Ordered move_page
if_permuted no_name no_value no_col r saved true o h = inl refl
if_permuted no_name no_value no_col r saved false none h = inl refl
if_permuted no_name no_value no_col r saved false (some perm) h = inr h

-- A page gets the saved order or stays as it is: its columns are then just the saved names.
pub apply_saved_column_order-columns :
    (no_name : Text) (no_value : Value) (no_col : ℕ) (r : Page) (saved : List Text)
    → (apply_saved_column_order no_name no_value no_col r (some saved) ≡ r)
      ⊎ ((apply_saved_column_order no_name no_value no_col r (some saved)).columns ≡ saved)
unfolding apply_saved_column_order saved_indices
apply_saved_column_order-columns no_name no_value no_col r [] = inl refl
apply_saved_column_order-columns no_name no_value no_col r (name ∷ saved) =
    if_permuted no_name no_value no_col r (name ∷ saved) _ _
      (saved_indices-Ordered no_name r.columns (name ∷ saved))
