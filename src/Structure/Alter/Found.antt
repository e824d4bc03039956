-- ===== src/Structure/Alter/Found.antt =====
-- Looking up, by its name, what a list was made of or what was made of it.
use basemaster.Base.{
  ℕ, suc, ◌≡◌, refl, ap, inl, inr, Bool, true, false, not, ◌&&◌, Option, none, some, List, [], ◌∷◌,
  arith, map, find, any, All, All-filter, All-map, All-map2, Bool-cases,
}
use basemaster.Base.Text.{Text, same_text}
use basemaster.Structure.{map_from}
use basemaster.Structure.Alter.{find_last, or_this, concat_map, map_keys}

-- The name differs from each of the names.
unfoldable pub apart_from : Text → List Text → Bool
apart_from n [] = true
apart_from n (m ∷ ms) = not (same_text n m) && not (same_text m n) && apart_from n ms

abbrev pub some_text : Text → Bool
some_text [] = false
some_text (c ∷ text) = true

-- Names that are not empty and differ from each other.
unfoldable pub apart : List Text → Bool
unfolding apart_from
apart [] = true
apart (n ∷ ns) = some_text n && apart_from n ns && apart ns

pub concat_map-nil {ℓ κ} :
    {A : Type ℓ} {B : Type κ} (f : A → List B) (xs : List A)
    → All (λ x. f x ≡ []) xs
    → concat_map f xs ≡ []
concat_map-nil f [] h = refl
concat_map-nil f (x ∷ xs) (h, hs) = rw h (concat_map-nil f xs hs)

-- Items with names, what is made of them, and a test whether something was made of an item of a name.
module _ {ℓ κ} {A : Type ℓ} {D : Type κ} (key : A → Text) (test : Text → D → Bool)
    (make : ℕ → A → D)
    (hit : (n : ℕ) (x : A) → some_text (key x) ≡ true → test (key x) (make n x) ≡ true)
    (miss : (n : ℕ) (x : A) (k : Text)
      → same_text k (key x) ≡ false
      → test k (make n x) ≡ false) where
  none_made :
      (k : Text) (n : ℕ) (xs : List A)
      → apart_from k (map key xs) ≡ true
      → find_last (test k) (map_from make n xs) ≡ none
  unfolding apart_from
  none_made k n [] h = refl
  none_made k n (x ∷ xs) h =
      rw (none_made k (suc n) xs (ground arith), miss n x k (ground arith)) refl

  or_this-some : (b : Bool) (d e : D) (o : Option D) → o ≡ some e → or_this b d o ≡ some e
  or_this-some b d e none h = absurd (cc h)
  or_this-some b d e (some f) h = h

  pub found_last :
      (n : ℕ) (xs : List A)
      → apart (map key xs) ≡ true
      → All (λ x. (m : ℕ) × (find_last (test (key x)) (map_from make n xs) ≡ some (make m x))) xs
  unfolding apart
  found_last n [] h = tt
  found_last n (x ∷ xs) h = (
    (n, rw (none_made (key x) (suc n) xs (ground arith), hit n x (ground arith)) refl),
    All-map _ _ (λ y (m, e). (m, or_this-some (test (key y) (make n x)) (make n x) (make m y) _ e))
        xs (found_last (suc n) xs (ground arith)),
  )

  All-apart :
      (k : Text) (xs : List A)
      → apart_from k (map key xs) ≡ true
      → All (λ y. same_text (key y) k ≡ false) xs
  unfolding apart_from
  All-apart k [] h = tt
  All-apart k (x ∷ xs) h = (ground arith, All-apart k xs (ground arith))

  pub found_first :
      (n : ℕ) (xs : List A)
      → apart (map key xs) ≡ true
      → All (λ x. (m : ℕ) × (find (test (key x)) (map_from make n xs) ≡ some (make m x))) xs
  unfolding apart
  found_first n [] h = tt
  found_first n (x ∷ xs) h = (
    (n, rw (hit n x (ground arith)) refl),
    All-map2 _ _ _ (λ y (m, e) f. (m, rw (miss n x (key y) f) e)) xs
        (found_first (suc n) xs (ground arith)) (All-apart (key x) xs (ground arith)),
  )

later {ℓ} :
    {D : Type ℓ} (b : Bool) (e : D) (o : Option D) {d : D}
    → b ≡ false
    → or_this b e o ≡ some d
    → o ≡ some d
later b e (some f) n h = h
later true e none n h = absurd (cc n)
later false e none n h = h

-- What is found is there.
pub any-find_last {ℓ} :
    {D : Type ℓ} (t : D → Bool) (d : D) (ds : List D) → find_last t ds ≡ some d → any t ds ≡ true
any-find_last t d [] h = absurd (cc h)
any-find_last t d (e ∷ ds) h = elim (Bool-cases (t e)) [
  | inl y ↦ rw y refl
  | inr n ↦ rw n (any-find_last t d ds (later (t e) e (find_last t ds) n h))
]

pub map_from-id {ℓ} : {A : Type ℓ} (n : ℕ) (xs : List A) → map_from (λ m x. x) n xs ≡ xs
map_from-id n [] = refl
map_from-id n (x ∷ xs) = ap (◌∷◌ x) (map_from-id (suc n) xs)

pub All-map_from {ℓ κ μ} :
    {A : Type ℓ} {D : Type κ} (P : D → Type μ) (make : ℕ → A → D) (n : ℕ) (xs : List A)
    → All (λ x. (m : ℕ) → P (make m x)) xs
    → All P (map_from make n xs)
All-map_from P make n [] h = tt
All-map_from P make n (x ∷ xs) (h, hs) = (h n, All-map_from P make (suc n) xs hs)

pub All-map_keys {κ} : (P : Text → Type κ) (ns : List Text) → All P ns → All P (map_keys ns)
unfolding map_keys
All-map_keys P [] h = tt
All-map_keys P (n ∷ ns) (h, hs) =
    (h, All-filter P (λ m. not (same_text n m)) (map_keys ns) (All-map_keys P ns hs))

pub All-mapped {ℓ κ} :
    {A : Type ℓ} (P : Text → Type κ) (key : A → Text) (xs : List A)
    → All (λ x. P (key x)) xs
    → All P (map key xs)
All-mapped P key [] h = tt
All-mapped P key (x ∷ xs) (h, hs) = (h, All-mapped P key xs hs)

pub All-named {ℓ} :
    {A : Type ℓ} (key : A → Text) (xs : List A)
    → apart (map key xs) ≡ true
    → All (λ x. some_text (key x) ≡ true) xs
unfolding apart
All-named key [] h = tt
All-named key (x ∷ xs) h = (ground arith, All-named key xs (ground arith))
