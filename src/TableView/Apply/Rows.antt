-- ===== src/TableView/Apply/Rows.antt =====
-- Taking rows out of a page, from the last one on, in table-view.tsx.
use basemaster.Base.{
  ℕ, zero, suc, ◌+◌, ◌<◌, ◌≡◌, refl, sym, ap, ◌∙◌, inl, inr, true, false, ◌||◌, List, [], ◌∷◌,
  arith, All, All-map, ltb, ◌==◌, Bool-cases,
}
use basemaster.TableView.Pending.{in_rows, remove_rows}
use basemaster.TableView.Pending.Sound.{Apart}
use basemaster.TableView.Apply.{insert_desc, sort_desc, splice_row, splice_rows}

-- Each after a greater one.
abbrev IsDesc : List ℕ → Type 0
IsDesc [] = Unit
IsDesc (k ∷ ks) = All (λ x. x < k) ks × IsDesc ks

insert_desc-All : (P : ℕ → Type 0) (r : ℕ) (ks : List ℕ) → P r → All P ks → All P (insert_desc r ks)
unfolding insert_desc
insert_desc-All P r [] p h = (p, tt)
insert_desc-All P r (k ∷ ks) p (h, hs) = elim (Bool-cases (ltb r k)) [
  | inl e ↦ rw e (h, insert_desc-All P r ks p hs)
  | inr e ↦ rw e (p, (h, hs))
]

sort_desc-All : (P : ℕ → Type 0) (ks : List ℕ) → All P ks → All P (sort_desc ks)
unfolding sort_desc
sort_desc-All P [] h = tt
sort_desc-All P (k ∷ ks) (h, hs) = insert_desc-All P k (sort_desc ks) h (sort_desc-All P ks hs)

insert_desc-IsDesc :
    (r : ℕ) (ks : List ℕ) → All (λ k. (r == k) ≡ false) ks → IsDesc ks → IsDesc (insert_desc r ks)
unfolding insert_desc
insert_desc-IsDesc r [] n d = (tt, tt)
insert_desc-IsDesc r (k ∷ ks) (n, ns) (d, ds) = elim (Bool-cases (ltb r k)) [
  | inl e ↦ rw e (insert_desc-All (λ x. x < k) r ks (ground arith) d, insert_desc-IsDesc r ks ns ds)
  | inr e ↦
      let less : k < r = ground arith in
      rw e ((less, All-map _ _ (λ x h. omega (arith, h, less)) ks d), (d, ds))
]

sort_desc-IsDesc : (ks : List ℕ) → Apart ◌==◌ ks → IsDesc (sort_desc ks)
unfolding sort_desc
sort_desc-IsDesc [] a = tt
sort_desc-IsDesc (k ∷ ks) (a, as_) =
    insert_desc-IsDesc k (sort_desc ks) (sort_desc-All _ ks a) (sort_desc-IsDesc ks as_)

in_rows-insert_desc : (i r : ℕ) (ks : List ℕ) → in_rows i (insert_desc r ks) ≡ in_rows i (r ∷ ks)
unfolding insert_desc in_rows
in_rows-insert_desc i r [] = refl
in_rows-insert_desc i r (k ∷ ks) = ground (arith, in_rows-insert_desc i r ks)

in_rows-sort_desc : (i : ℕ) (ks : List ℕ) → in_rows i (sort_desc ks) ≡ in_rows i ks
unfolding sort_desc in_rows
in_rows-sort_desc i [] = refl
in_rows-sort_desc i (k ∷ ks) =
    in_rows-insert_desc i k (sort_desc ks) ∙ ap (◌||◌ (k == i)) (in_rows-sort_desc i ks)

below : (i : ℕ) (ks : List ℕ) → All (λ x. x < i) ks → in_rows i ks ≡ false
unfolding in_rows
below i [] h = refl
below i (k ∷ ks) (h, hs) = ground (arith, below i ks hs)

in_rows_step : (i j k : ℕ) (ks : List ℕ) → k ≡ i + suc j → in_rows i (k ∷ ks) ≡ in_rows i ks
unfolding in_rows
in_rows_step i j k ks e = ground arith

in_rows_here : (i k : ℕ) (ks : List ℕ) → k ≡ i + 0 → in_rows i (k ∷ ks) ≡ true
unfolding in_rows
in_rows_here i k ks e = ground arith

module _ {ℓ} {A : Type ℓ} where
  keep_all : (ks : List ℕ) (i : ℕ) (xs : List A) → All (λ x. x < i) ks → remove_rows ks i xs ≡ xs
  unfolding remove_rows
  keep_all ks i [] h = refl
  keep_all ks i (x ∷ xs) h =
      rw (below i ks h)
        (ap (◌∷◌ x) (keep_all ks (suc i) xs (All-map _ _ (λ k l. omega (arith, l)) ks h)))

  remove_rows-splice_row :
      (ks : List ℕ) (i j k : ℕ) (xs : List A)
      → k ≡ i + j
      → All (λ x. x < k) ks
      → remove_rows ks i (splice_row j xs) ≡ remove_rows (k ∷ ks) i xs
  unfolding remove_rows splice_row
  remove_rows-splice_row ks i j k [] e h = refl
  remove_rows-splice_row ks i zero k (x ∷ xs) e h = rw (in_rows_here i k ks e) (
      keep_all ks i xs (All-map _ _ (λ x l. omega (arith, l, e)) ks h)
      ∙ sym (
          keep_all (k ∷ ks) (suc i) xs
            (omega (arith, e), All-map _ _ (λ x l. omega (arith, l, e)) ks h)))
  remove_rows-splice_row ks i (suc j) k (x ∷ xs) e h = elim (Bool-cases (in_rows i ks)) [
    | inl y ↦
        rw (in_rows_step i j k ks e, y)
          (remove_rows-splice_row ks (suc i) j k xs (omega (arith, e)) h)
    | inr n ↦
        rw (in_rows_step i j k ks e, n)
          (ap (◌∷◌ x) (remove_rows-splice_row ks (suc i) j k xs (omega (arith, e)) h))
  ]

  splice_rows-remove_rows :
      (ks : List ℕ) (xs : List A) → IsDesc ks → splice_rows ks xs ≡ remove_rows ks 0 xs
  unfolding splice_rows
  splice_rows-remove_rows [] xs d = sym (keep_all [] 0 xs tt)
  splice_rows-remove_rows (k ∷ ks) xs (d, ds) =
      splice_rows-remove_rows ks (splice_row k xs) ds
      ∙ remove_rows-splice_row ks 0 k k xs (omega arith) d

  remove_rows-same :
      (ks ls : List ℕ) (i : ℕ) (xs : List A)
      → ((j : ℕ) → in_rows j ks ≡ in_rows j ls)
      → remove_rows ks i xs ≡ remove_rows ls i xs
  unfolding remove_rows
  remove_rows-same ks ls i [] h = refl
  remove_rows-same ks ls i (x ∷ xs) h = rw (h i, remove_rows-same ks ls (suc i) xs h) refl

  -- Taking out distinct rows one at a time, the last one first, leaves the rows that are not among them.
  pub splice_rows-sort_desc :
      (ks : List ℕ) (xs : List A)
      → Apart ◌==◌ ks
      → splice_rows (sort_desc ks) xs ≡ remove_rows ks 0 xs
  splice_rows-sort_desc ks xs a =
      splice_rows-remove_rows (sort_desc ks) xs (sort_desc-IsDesc ks a)
      ∙ remove_rows-same (sort_desc ks) ks 0 xs (λ j. in_rows-sort_desc j ks)
