-- ===== src/Base/Dict.antt =====
-- JavaScript records used as maps from keys to values: a key that is absent reads as `none`
-- (`undefined`). Only what a key holds is modelled, not the order of the keys.
use Prim.Native.String.{String}
use mathlib.Core.Path.{◌≡◌}
use mathlib.Core.Logic.{◌≢◌}
use mathlib.Core.Bool.{Bool, true, false}
use mathlib.Core.Option.{Option, none, some}
use mathlib.Core.List.{List, [], ◌∷◌}
use native.Mathlib.Omega.{arith}
use text.Mathlib.TextEquality.{eq_iff}
use text.Mathlib.TextPositions.{eq_refl}
use basemaster.Base.Tests.{str_eq, if◌then◌else◌}

abbrev pub Dict {ℓ} : Type ℓ → Type ℓ
Dict V = String → Option V

module _ {ℓ} {V : Type ℓ} where
  abbrev pub empty : Dict V
  empty _ = none

  -- `{ ...d, [k]: v }`
  unfoldable pub put : String → V → Dict V → Dict V
  put k v d j = if str_eq k j then some v else d j

  -- `delete d[k]`
  unfoldable pub remove : String → Dict V → Dict V
  remove k d j = if str_eq k j then none else d j

  -- `d[k] ?? v`
  abbrev pub get_or : V → Option V → V
  get_or v none = v
  get_or v (some w) = w

  pub put_self : (k : String) (v : V) (d : Dict V) → put k v d k ≡ some v
  unfolding put
  put_self k v d = ground (arith, eq_refl k)

  pub put_ne : {k j : String} (v : V) (d : Dict V) → k ≢ j → put k v d j ≡ d j
  unfolding put
  put_ne {k} {j} v d h = ground (arith, eq_iff k j)

  pub remove_self : (k : String) (d : Dict V) → remove k d k ≡ none
  unfolding remove
  remove_self k d = ground (arith, eq_refl k)

  pub remove_ne : {k j : String} (d : Dict V) → k ≢ j → remove k d j ≡ d j
  unfolding remove
  remove_ne {k} {j} d h = ground (arith, eq_iff k j)

-- Membership in a list of texts, as `includes` and `Set.has` test it.
unfoldable pub includes : String → List String → Bool
includes a [] = false
includes a (x ∷ xs) = if str_eq x a then true else includes a xs
