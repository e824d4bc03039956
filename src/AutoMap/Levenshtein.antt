-- ===== src/AutoMap/Levenshtein.antt =====
-- The distance that `levenshtein` of lib/auto-map.ts is meant to compute.
use mathlib.Core.List.{reverse, reverse_aux}
use basemaster.Base.{
  ℕ, suc, ◌+◌, ◌≡◌, refl, ap, ◌∙◌, true, List, [], ◌∷◌, length, arith, Bool-cases, inl, inr,
}
use basemaster.Base.Text.{Text}
use basemaster.AutoMap.{
  cost, min3, next_cells, rows_from, first_row, last_cell, text_eq, table_distance, levenshtein,
}

-- The least number of characters to insert, to delete and to replace, by cases on the first character
-- of either text.
unfoldable pub edit_distance : Text → Text → ℕ
edit_distance [] b = length b
edit_distance (c ∷ a) [] = length (c ∷ a)
edit_distance (c ∷ a) (d ∷ b) =
    min3 (edit_distance (c ∷ a) b + 1) (edit_distance a (d ∷ b) + 1) (edit_distance a b + cost c d)

-- The row of the table for the characters `ra` of `a`, the last one first: the distances to each of the
-- beginnings of `b`, from the one that is `rb` backwards on.
abbrev pub row : Text → Text → Text → List ℕ
row ra rb [] = edit_distance ra rb ∷ []
row ra rb (d ∷ b) = edit_distance ra rb ∷ row ra (d ∷ rb) b

next_cells-row :
    (c : ℕ) (ra rb : Text) (b : Text)
    → edit_distance (c ∷ ra) rb ∷ next_cells c (edit_distance (c ∷ ra) rb) b (row ra rb b)
      ≡ row (c ∷ ra) rb b
unfolding next_cells edit_distance
next_cells-row c ra rb [] = refl
next_cells-row c ra rb (d ∷ []) =
    ap (◌∷◌ (edit_distance (c ∷ ra) rb)) (next_cells-row c ra (d ∷ rb) [])
next_cells-row c ra rb (d ∷ e ∷ b) =
    ap (◌∷◌ (edit_distance (c ∷ ra) rb)) (next_cells-row c ra (d ∷ rb) (e ∷ b))

next_row :
    (c : ℕ) (ra b : Text)
    → suc (length ra) ∷ next_cells c (suc (length ra)) b (row ra [] b) ≡ row (c ∷ ra) [] b
next_row c ra b = unfold edit_distance in next_cells-row c ra [] b

rows_from-row :
    (ra a b : Text) → rows_from (suc (length ra)) a b (row ra [] b) ≡ row (reverse_aux a ra) [] b
unfolding rows_from
rows_from-row ra [] b = refl
rows_from-row ra (c ∷ a) b =
    ap (λ r. rows_from (suc (suc (length ra))) a b r) (next_row c ra b) ∙ rows_from-row (c ∷ ra) a b

first_row-row : (rb b : Text) → first_row (length rb) b ≡ row [] rb b
unfolding first_row edit_distance
first_row-row rb [] = refl
first_row-row rb (d ∷ b) = ap (◌∷◌ (length rb)) (first_row-row (d ∷ rb) b)

last_cell-row : (ra rb b : Text) → last_cell (row ra rb b) ≡ edit_distance ra (reverse_aux b rb)
unfolding last_cell
last_cell-row ra rb [] = refl
last_cell-row ra rb (d ∷ []) = refl
last_cell-row ra rb (d ∷ e ∷ b) = last_cell-row ra (d ∷ rb) (e ∷ b)

edit_distance_self : (a : Text) → edit_distance a a ≡ 0
unfolding edit_distance
edit_distance_self [] = refl
edit_distance_self (c ∷ a) = ground (arith, edit_distance_self a)

text_eq_to : (a b : Text) → text_eq a b ≡ true → a ≡ b
text_eq_to [] [] h = refl
text_eq_to [] (d ∷ b) h = absurd (cc h)
text_eq_to (c ∷ a) [] h = absurd (cc h)
text_eq_to (c ∷ a) (d ∷ b) h = ground (arith, text_eq_to a b)

length-reverse_aux : (a ra : Text) → length (reverse_aux a ra) ≡ length a + length ra
length-reverse_aux [] ra = omega arith
length-reverse_aux (c ∷ a) ra = omega (arith, length-reverse_aux a (c ∷ ra))

edit_distance-nil : (ra : Text) → edit_distance ra [] ≡ length ra
unfolding edit_distance
edit_distance-nil [] = refl
edit_distance-nil (c ∷ ra) = refl

table_distance_lem : (a b : Text) → table_distance a b ≡ edit_distance (reverse a) (reverse b)
table_distance_lem [] b = unfold edit_distance in omega (arith, length-reverse_aux b [])
table_distance_lem (c ∷ a) [] =
    omega (arith, edit_distance-nil (reverse (c ∷ a)), length-reverse_aux (c ∷ a) [])
table_distance_lem (c ∷ a) (d ∷ b) =
    ap (λ r. last_cell (rows_from 1 (c ∷ a) (d ∷ b) r)) (first_row-row [] (d ∷ b))
    ∙ ap last_cell (rows_from-row [] (c ∷ a) (d ∷ b))
    ∙ last_cell-row (reverse (c ∷ a)) [] (d ∷ b)

-- The table of `levenshtein` computes the edit distance of the two texts, by the recursion from their
-- last characters on that tries to insert, to delete and to replace at each; the early answers for equal
-- and for empty texts agree with it.
pub levenshtein-edit_distance :
    (a b : Text) → levenshtein a b ≡ edit_distance (reverse a) (reverse b)
unfolding levenshtein
levenshtein-edit_distance a b = elim (Bool-cases (text_eq a b)) [
  | inl e ↦ rw (e, text_eq_to a b e, edit_distance_self (reverse b)) refl
  | inr e ↦ rw (e, table_distance_lem a b) refl
]
