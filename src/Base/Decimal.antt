-- ===== src/Base/Decimal.antt =====
-- A printed number has no white space around it.
use Prim.Native.Nat.{ℕ, zero, suc, ◌+◌, ◌/◌, ◌%◌, ◌<◌, compare, Ordering}
use mathlib.Core.Path.{◌≡◌, refl, ap, ◌∙◌}
use mathlib.Core.Bool.{Bool, true, false, not, ◌&&◌}
use mathlib.Core.List.{[], ◌∷◌, ◌++◌}
use native.Mathlib.Omega.{arith}
use basemaster.Base.Text.{
  Text, is_space, trim, trim_end, skip_spaces, keep_inked, decimal, digits_from,
}

-- No white space anywhere.
is_inked : Text → Bool
is_inked [] = true
is_inked (c ∷ t) = not (is_space c) && is_inked t

and-true : (a b : Bool) → (not a && b) ≡ true → (a ≡ false) × (b ≡ true)
and-true true b h = absurd (cc h)
and-true false b h = (refl, h)

is_inked-cons :
    (c : ℕ) (t : Text) → is_inked (c ∷ t) ≡ true → (is_space c ≡ false) × (is_inked t ≡ true)
unfolding is_inked
is_inked-cons c t h = and-true (is_space c) (is_inked t) h

skip_spaces-is_inked : (t : Text) → is_inked t ≡ true → skip_spaces t ≡ t
unfolding skip_spaces
skip_spaces-is_inked [] h = refl
skip_spaces-is_inked (c ∷ t) h = rw ((is_inked-cons c t h).0) refl

keep_inked-is_inked : (c : ℕ) (t : Text) → is_space c ≡ false → keep_inked c t ≡ c ∷ t
unfolding keep_inked
keep_inked-is_inked c [] h = rw h refl
keep_inked-is_inked c (d ∷ t) h = refl

trim_end-is_inked : (t : Text) → is_inked t ≡ true → trim_end t ≡ t
unfolding trim_end
trim_end-is_inked [] h = refl
trim_end-is_inked (c ∷ t) h =
    let (hc, ht) = is_inked-cons c t h in
    ap (keep_inked c) (trim_end-is_inked t ht) ∙ keep_inked-is_inked c t hc

trim-is_inked : (t : Text) → is_inked t ≡ true → trim t ≡ t
unfolding trim
trim-is_inked t h = ap trim_end (skip_spaces-is_inked t h) ∙ trim_end-is_inked t h

is_inked-append : (s t : Text) → is_inked (s ++ t) ≡ (is_inked s && is_inked t)
unfolding is_inked
is_inked-append [] t = refl
is_inked-append (c ∷ s) t = ground (arith, is_inked-append s t)

is_space_digit : (n : ℕ) → n < 10 → is_space (b'0' + n) ≡ false
unfolding is_space
is_space_digit n h = ground arith

is_inked_digit : (n : ℕ) → n < 10 → is_inked ((b'0' + n) ∷ []) ≡ true
unfolding is_inked
is_inked_digit n h = rw (is_space_digit n h) refl

below_ten : (n : ℕ) → compare n 10 ≡ Ordering.lt → n < 10
below_ten n h = ground arith

is_inked-choice :
    (o : Ordering) (x y : Text)
    → (o ≡ Ordering.lt → is_inked x ≡ true)
    → is_inked y ≡ true
    → is_inked (elim o [ Ordering.lt ↦ x | _ ↦ y ]) ≡ true
is_inked-choice Ordering.lt x y h k = h refl
is_inked-choice Ordering.eq x y h k = k
is_inked-choice Ordering.gt x y h k = k

is_inked-digits_from : (fuel n : ℕ) → is_inked (digits_from fuel n) ≡ true
unfolding is_inked
is_inked-digits_from zero n = refl
is_inked-digits_from (suc fuel) n =
    is_inked-choice (compare n 10) ((b'0' + n) ∷ [])
      (digits_from fuel (n / 10) ++ (b'0' + n % 10) ∷ []) (λ e. is_inked_digit n (below_ten n e))
      (is_inked-append (digits_from fuel (n / 10)) ((b'0' + n % 10) ∷ [])
        ∙ rw (is_inked-digits_from fuel (n / 10), is_inked_digit (n % 10) (omega arith)) refl)

pub trim-decimal : (n : ℕ) → trim (decimal n) ≡ decimal n
unfolding decimal
trim-decimal n = trim-is_inked (digits_from (suc n) n) (is_inked-digits_from (suc n) n)
