-- ===== src/AutoMap.antt =====
-- `levenshtein` of lib/auto-map.ts: the edit distance by which columns are matched to each other.
pub mod Levenshtein
pub mod Scores
pub mod Greedy
pub mod OneToOne
mod Tests
use mathlib.Core.List.{reverse, reverse_aux}
use basemaster.Base.{
  ℕ, zero, suc, ◌+◌, ◌≡◌, refl, ap, sym, ◌∙◌, min, Bool, true, false, List, [], ◌∷◌, ◌++◌, length,
  ◌==◌, ◌&&◌, arith, if◌then◌else◌, Bool-cases, inl, inr,
}
use basemaster.Base.Text.{Text}

-- `a.charCodeAt(i - 1) === b.charCodeAt(j - 1) ? 0 : 1`
abbrev pub cost : ℕ → ℕ → ℕ
cost c d = if c == d then 0 else 1

abbrev pub min3 : ℕ → ℕ → ℕ → ℕ
min3 x y z = min x (min y z)

-- The inner loop at the character `c` of `a`: `left` is `curr[j - 1]`, and the lists are the characters
-- of `b` from `j - 1` on and `prev` from `j - 1` on. It gives `curr` from `j` on.
unfoldable pub next_cells : ℕ → ℕ → Text → List ℕ → List ℕ
next_cells c left [] prev = []
next_cells c left (d ∷ b) [] = []
next_cells c left (d ∷ b) (p ∷ []) = []
next_cells c left (d ∷ b) (p ∷ q ∷ prev) =
    let cell = min3 (left + 1) (q + 1) (p + cost c d) in cell ∷ next_cells c cell b (q ∷ prev)

-- The outer loop from row `i` on, where `a` is left: `curr[0] = i`, and `curr` becomes `prev`.
unfoldable pub rows_from : ℕ → Text → Text → List ℕ → List ℕ
rows_from i [] b prev = prev
rows_from i (c ∷ a) b prev = rows_from (suc i) a b (i ∷ next_cells c i b prev)

-- `prev[j] = j` from `j` on
unfoldable pub first_row : ℕ → Text → List ℕ
first_row j [] = j ∷ []
first_row j (d ∷ b) = j ∷ first_row (suc j) b

-- `prev[b.length]`
unfoldable pub last_cell : List ℕ → ℕ
last_cell [] = 0
last_cell (x ∷ []) = x
last_cell (x ∷ y ∷ row) = last_cell (y ∷ row)

abbrev pub text_eq : Text → Text → Bool
text_eq [] [] = true
text_eq (c ∷ a) (d ∷ b) = c == d && text_eq a b
text_eq _ _ = false

abbrev pub table_distance : Text → Text → ℕ
table_distance [] b = length b
table_distance (c ∷ a) [] = length (c ∷ a)
table_distance (c ∷ a) (d ∷ b) = last_cell (rows_from 1 (c ∷ a) (d ∷ b) (first_row 0 (d ∷ b)))

unfoldable pub levenshtein : Text → Text → ℕ
levenshtein a b = if text_eq a b then 0 else table_distance a b
