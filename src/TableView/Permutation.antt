-- ===== src/TableView/Permutation.antt =====
-- The permutation of columns in components/table/table-view.tsx, and where it takes an index.
use basemaster.Base.{
  ℕ, zero, suc, ◌+◌, ◌<◌, ◌≤◌, ◌≡◌, refl, sym, ap, ◌∙◌, inl, inr, Bool, true, false, ◌||◌, Option,
  none, some, List, [], ◌∷◌, arith, get_elem?, any, ◌==◌, Bool-cases,
}
use basemaster.Base.Dict.{get_or}
use basemaster.TableView.{
  indices, splice_out, splice_in, splice_back, reorder_permutation, or_here, old_to_new, permute,
}

pub is_index : ℕ → ℕ → Bool
is_index i p = p == i

any-indices :
    (i start n : ℕ) → start ≤ i → i < start + n → any (is_index i) (indices start n) ≡ true
unfolding indices is_index
any-indices i start zero h k = absurd (omega (arith, h, k))
any-indices i start (suc n) h k = elim (Bool-cases (start == i)) [
  | inl e ↦ rw e refl
  | inr d ↦ rw d (any-indices i (suc start) n (ground arith) (omega (arith, k)))
]

any_taken : (ℕ → Bool) → Option ℕ → Bool
any_taken t none = false
any_taken t (some x) = t x

any-splice_out :
    (t : ℕ → Bool) (from : ℕ) (xs : List ℕ)
    → any t xs ≡ (any_taken t ((splice_out from xs).0) || any t ((splice_out from xs).1))
unfolding splice_out any_taken
any-splice_out t from [] = refl
any-splice_out t zero (x ∷ xs) = refl
any-splice_out t (suc from) (x ∷ xs) = ground (arith, any-splice_out t from xs)

any-splice_in :
    (t : ℕ → Bool) (to x : ℕ) (ys : List ℕ) → any t (splice_in to x ys) ≡ (t x || any t ys)
unfolding splice_in
any-splice_in t zero x ys = refl
any-splice_in t (suc to) x [] = refl
any-splice_in t (suc to) x (y ∷ ys) = ground (arith, any-splice_in t to x ys)

any-splice_back :
    (t : ℕ → Bool) (to : ℕ) (taken : Option ℕ × List ℕ)
    → any t (splice_back to taken) ≡ (any_taken t (taken.0) || any t (taken.1))
unfolding any_taken
any-splice_back t to (none, rest) = refl
any-splice_back t to (some x, rest) = any-splice_in t to x rest

-- Every index is in the permutation.
pub any-reorder_permutation :
    (len from to i : ℕ) → i < len → any (is_index i) (reorder_permutation len from to) ≡ true
unfolding reorder_permutation
any-reorder_permutation len from to i h =
    any-splice_back (is_index i) to (splice_out from (indices 0 len))
    ∙ sym (any-splice_out (is_index i) from (indices 0 len))
    ∙ any-indices i 0 len (omega arith) (omega (arith, h))

old_to_new-none :
    (n i : ℕ) (perm : List ℕ) → any (is_index i) perm ≡ false → old_to_new n perm i ≡ none
unfolding old_to_new is_index
old_to_new-none n i [] h = refl
old_to_new-none n i (p ∷ perm) h =
    rw (old_to_new-none (suc n) i perm (ground arith))
      (rw (let e : (p == i) ≡ false = ground arith in e) refl)

or_here_later :
    (hit : Bool) (x y z : ℕ) (o : Option ℕ) → o ≡ some y → y ≡ z → or_here hit x o ≡ some z
or_here_later hit x y z none e k = absurd (cc e)
or_here_later hit x y z (some w) e k = e ∙ ap some k

equal : (p i : ℕ) → (p == i) ≡ true → p ≡ i
equal p i h = ground arith

hit_first :
    (p i : ℕ) (perm : List ℕ)
    → any (is_index i) (p ∷ perm) ≡ true
    → any (is_index i) perm ≡ false
    → (p == i) ≡ true
unfolding is_index
hit_first p i perm h k = ground arith

some_inj : (p i : ℕ) → Path (Option ℕ) (some p) (some i) → p ≡ i
some_inj p i h = cc h

-- Where an index went, the permutation has it.
pub old_to_new-found :
    (n i : ℕ) (perm : List ℕ)
    → any (is_index i) perm ≡ true
    → (j : ℕ) × (old_to_new n perm i ≡ some (n + j)) × (get_elem? perm j ≡ some i)
unfolding old_to_new is_index
old_to_new-found n i [] h = absurd (cc h)
old_to_new-found n i (p ∷ perm) h = elim (Bool-cases (any (is_index i) perm)) [
  | inl later ↦
      let (j, e, g) = old_to_new-found (suc n) i perm later in
      (suc j, or_here_later (p == i) n (suc n + j) (n + suc j) _ e (omega arith), g)
  | inr none_later ↦ (
    0,
    rw
        (
          old_to_new-none (suc n) i perm none_later,
          let e : (p == i) ≡ true = hit_first p i perm h none_later in e,
        )
        (ap some (omega arith)),
    ap some (equal p i (hit_first p i perm h none_later)),
  )
]

pub get_elem?-permute {ℓ} :
    {A : Type ℓ} (undefined : A) (perm : List ℕ) (xs : List A) (j i : ℕ)
    → get_elem? perm j ≡ some i
    → get_elem? (permute undefined perm xs) j ≡ some (get_or undefined (get_elem? xs i))
get_elem?-permute undefined [] xs j i h = absurd (cc h)
get_elem?-permute undefined (p ∷ perm) xs zero i h =
    ap (λ k. some (get_or undefined (get_elem? xs k))) (some_inj p i h)
get_elem?-permute undefined (p ∷ perm) xs (suc j) i h = get_elem?-permute undefined perm xs j i h
