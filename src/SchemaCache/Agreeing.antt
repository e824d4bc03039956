-- ===== src/SchemaCache/Agreeing.antt =====
-- Dictionaries whose entries are the values of a function, and their changes.
use basemaster.Base.{
  ◌≡◌, ◌≢◌, String, Bool-cases, inl, inr, sym, ap, ◌∙◌, Option-cases, none, some, str_eq, eq_iff,
}
use mathlib.Core.Option.{some-injective}
use basemaster.Base.Dict.{Dict, empty, put, remove, get_or}
use basemaster.SchemaCache.{merge}

pub none-ne-some {ℓ} : {V : Type ℓ} {v : V} → none ≢ some v
none-ne-some = cc

pub put-agrees {ℓ} :
    {V : Type ℓ} (f : String → V) (k : String) (d : Dict V)
    → ((j : String) (v : V) → d j ≡ some v → v ≡ f j)
    → (j : String) (v : V) → put k (f k) d j ≡ some v
    → v ≡ f j
unfolding put
put-agrees f k d h j v e = elim (Bool-cases (str_eq k j)) [
  | inl same ↦ sym (some-injective _ _ (rw same at e)) ∙ ap f ((eq_iff k j).0 same)
  | inr other ↦ h j v (rw other at e)
]

pub remove-agrees {ℓ} :
    {V : Type ℓ} (f : String → V) (k : String) (d : Dict V)
    → ((j : String) (v : V) → d j ≡ some v → v ≡ f j)
    → (j : String) (v : V) → remove k d j ≡ some v
    → v ≡ f j
unfolding remove
remove-agrees f k d h j v e = elim (Bool-cases (str_eq k j)) [
  | inl same ↦ absurd (none-ne-some (rw same at e))
  | inr other ↦ h j v (rw other at e)
]

pub merge-agrees {ℓ} :
    {V : Type ℓ} (f : String → V) (d e : Dict V)
    → ((j : String) (v : V) → d j ≡ some v → v ≡ f j)
    → ((j : String) (v : V) → e j ≡ some v → v ≡ f j)
    → (j : String) (v : V) → merge d e j ≡ some v
    → v ≡ f j
merge-agrees f d e hd he j v k = elim (Option-cases (e j)) [
  | inl absent ↦ hd j v (rw (absent, merge) at k)
  | inr (w, found) ↦ sym (some-injective _ _ (rw (found, merge) at k)) ∙ he j w found
]

-- The same for maps of maps, read as `d[k] ?? {}`.
module _ {ℓ} {V : Type ℓ} (f : String → String → V) (k : String) (d : Dict (Dict V))
    (h : (i j : String) (v : V) → get_or empty (d i) j ≡ some v → v ≡ f i j) where
  pub put-agrees_nested :
      (new : Dict V)
      → ((j : String) (v : V) → new j ≡ some v → v ≡ f k j)
      → (i j : String) (v : V) → get_or empty (put k new d i) j ≡ some v
      → v ≡ f i j
  unfolding put
  put-agrees_nested new n i j v e = elim (Bool-cases (str_eq k i)) [
    | inl same ↦ n j v (rw same at e) ∙ ap (λ x. f x j) ((eq_iff k i).0 same)
    | inr other ↦ h i j v (rw other at e)
  ]

  pub remove-agrees_nested :
      (i j : String) (v : V) → get_or empty (remove k d i) j ≡ some v → v ≡ f i j
  unfolding remove
  remove-agrees_nested i j v e = elim (Bool-cases (str_eq k i)) [
    | inl same ↦ absurd (none-ne-some (rw same at e))
    | inr other ↦ h i j v (rw other at e)
  ]
