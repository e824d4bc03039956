-- ===== src/TableView/Among.antt =====
-- What is among the pending edits of components/table/table-view.tsx when one more is set.
use basemaster.Base.{
  ◌≡◌, refl, ◌⊎◌, inl, inr, Bool, false, ◌&&◌, List, [], ◌∷◌, All, All-map2, ◌==◌, Bool-cases,
}
use basemaster.TableView.{PendingEdit, set_edit}
use basemaster.TableView.Pending.Sound.{Apart, same_cell}

-- One of the items.
abbrev pub AnyOf : (PendingEdit → Type 0) → List PendingEdit → Type 0
AnyOf P [] = ⊥
AnyOf P (e ∷ dirty) = P e ⊎ AnyOf P dirty

pub set_edit-All :
    (Q : PendingEdit → Type 0) (e : PendingEdit) (dirty : List PendingEdit)
    → Q e
    → All Q dirty
    → All Q (set_edit e dirty)
unfolding set_edit
set_edit-All Q e [] q h = (q, tt)
set_edit-All Q e (d ∷ dirty) q (h, hs) = elim (Bool-cases (d.row == e.row && d.col == e.col)) [
  | inl same ↦ rw same (q, hs)
  | inr other ↦ rw other (h, set_edit-All Q e dirty q hs)
]

pub set_edit_there :
    (e : PendingEdit) (dirty : List PendingEdit) → AnyOf (λ f. f ≡ e) (set_edit e dirty)
unfolding set_edit
set_edit_there e [] = inl refl
set_edit_there e (d ∷ dirty) = elim (Bool-cases (same_cell d e)) [
  | inl same ↦ rw same (inl refl)
  | inr other ↦ rw other (inr (set_edit_there e dirty))
]

pub set_edit_stays :
    (m e : PendingEdit) (dirty : List PendingEdit)
    → same_cell m e ≡ false
    → AnyOf (λ f. f ≡ m) dirty
    → AnyOf (λ f. f ≡ m) (set_edit e dirty)
unfolding set_edit
set_edit_stays m e [] h k = absurd k
set_edit_stays m e (d ∷ dirty) h (inl k) =
    let apart : same_cell d e ≡ false = rw k h in rw apart (inl k)
set_edit_stays m e (d ∷ dirty) h (inr k) = elim (Bool-cases (same_cell d e)) [
  | inl same ↦ rw same (inr k)
  | inr other ↦ rw other (inr (set_edit_stays m e dirty h k))
]

pub AnyOf-map :
    (P Q : PendingEdit → Type 0) (dirty : List PendingEdit)
    → ((e : PendingEdit) → P e → Q e)
    → AnyOf P dirty
    → AnyOf Q dirty
AnyOf-map P Q [] h k = k
AnyOf-map P Q (e ∷ dirty) h (inl k) = inl (h e k)
AnyOf-map P Q (e ∷ dirty) h (inr k) = inr (AnyOf-map P Q dirty h k)

pub Apart-All :
    (P : PendingEdit → Type 0) (same same' : PendingEdit → PendingEdit → Bool)
    (dirty : List PendingEdit)
    → ((d e : PendingEdit) → P d → P e → same d e ≡ false → same' d e ≡ false)
    → All P dirty
    → Apart same dirty
    → Apart same' dirty
Apart-All P same same' [] k h a = tt
Apart-All P same same' (d ∷ dirty) k (h, hs) (a, as') =
    (All-map2 _ _ _ (λ e p q. k d e h p q) dirty hs a, Apart-All P same same' dirty k hs as')
