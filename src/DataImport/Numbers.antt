-- ===== src/DataImport/Numbers.antt =====
-- Whole numbers in the cells that lib/data-import.ts reads.
use Prim.Native.Nat.{compare, Ordering}
use basemaster.Base.{
  ℕ, zero, suc, ◌+◌, ◌-◌, ◌*◌, ◌/◌, ◌%◌, ◌≤◌, ◌<◌, ◌≡◌, ◌≢◌, refl, ap, ◌∙◌, true, false, [], ◌∷◌,
  ◌++◌, arith, leb, ltb, ◌==◌, if◌then◌else◌, length,
}
use basemaster.Base.Text.{Text, codes, decimal, digits_from, flat_map, lower_js, lower, same_text}
use basemaster.Base.Decimal.{trim-decimal}
use basemaster.Types.{Value, int}
use basemaster.DataImport.{
  string, all_digits, digits, digits_value, unsigned, signed, max_safe_integer, word_to_value,
  fraction, after_point, trimmed_to_value, to_value, unless_empty, lowered,
}

digits_value-append :
    (acc : ℕ) (s : Text) (d : ℕ)
    → digits_value acc (s ++ (b'0' + d) ∷ []) ≡ digits_value acc s * 10 + d
unfolding digits_value
digits_value-append acc [] d = omega arith
digits_value-append acc (c ∷ s) d = digits_value-append (acc * 10 + (c - b'0')) s d

all_digits-append :
    (s : Text) (d : ℕ) → d < 10 → all_digits s ≡ true → all_digits (s ++ (b'0' + d) ∷ []) ≡ true
unfolding all_digits
all_digits-append [] d h k = ground arith
all_digits-append (c ∷ s) d h k = ground (arith, all_digits-append s d h)

-- What a printed number is: digits, one at least, that stand for the number.
record IsPrinted (n : ℕ) (t : Text) : Type 0 where
  value : digits_value 0 t ≡ n
  some_digit : ltb 0 (length t) ≡ true
  only_digits : all_digits t ≡ true

IsPrinted-one : (n : ℕ) → n < 10 → IsPrinted n ((b'0' + n) ∷ [])
unfolding digits_value all_digits
IsPrinted-one n h = record { value = omega arith; some_digit = refl; only_digits = ground arith }

not_empty : (s : Text) (d : ℕ) → ltb 0 (length (s ++ d ∷ [])) ≡ true
not_empty [] d = refl
not_empty (c ∷ s) d = ground arith

IsPrinted-more : (n : ℕ) (s : Text) → IsPrinted (n / 10) s → IsPrinted n (s ++ (b'0' + n % 10) ∷ [])
IsPrinted-more n s p = record {
  value = digits_value-append 0 s (n % 10) ∙ omega (arith, p.value);
  some_digit = not_empty s (b'0' + n % 10);
  only_digits = all_digits-append s (n % 10) (omega arith) p.only_digits;
}

IsPrinted-choice :
    (n : ℕ) (o : Ordering) (x y : Text)
    → (o ≡ Ordering.lt → IsPrinted n x)
    → (o ≢ Ordering.lt → IsPrinted n y)
    → IsPrinted n (elim o [ Ordering.lt ↦ x | _ ↦ y ])
IsPrinted-choice n Ordering.lt x y h k = h refl
IsPrinted-choice n Ordering.eq x y h k = k (λ e. cc e)
IsPrinted-choice n Ordering.gt x y h k = k (λ e. cc e)

below_ten : (n : ℕ) → compare n 10 ≡ Ordering.lt → n < 10
below_ten n h = ground arith

from_ten : (n : ℕ) → compare n 10 ≢ Ordering.lt → 10 ≤ n
from_ten n h = ground arith

IsPrinted-digits_from : (fuel n : ℕ) → n < fuel → IsPrinted n (digits_from fuel n)
IsPrinted-digits_from zero n h = absurd (omega (arith, h))
IsPrinted-digits_from (suc fuel) n h =
    IsPrinted-choice n (compare n 10) ((b'0' + n) ∷ [])
      (digits_from fuel (n / 10) ++ (b'0' + n % 10) ∷ []) (λ e. IsPrinted-one n (below_ten n e))
      (λ e.
        let big = from_ten n e in
        IsPrinted-more n (digits_from fuel (n / 10))
          (IsPrinted-digits_from fuel (n / 10) (omega (arith, h, big))))

IsPrinted-decimal : (n : ℕ) → IsPrinted n (decimal n)
unfolding decimal
IsPrinted-decimal n = IsPrinted-digits_from (suc n) n (omega arith)

-- Digits have no sign and no point.
unsigned-digits : (t : Text) → all_digits t ≡ true → unsigned t ≡ (false, t)
unfolding all_digits
unsigned-digits [] h = refl
unsigned-digits (c ∷ t) h = ground arith

digits-all_digits : (t : Text) → ltb 0 (length t) ≡ true → all_digits t ≡ true → digits t ≡ true
unfolding digits all_digits
digits-all_digits [] h k = absurd (cc h)
digits-all_digits (c ∷ t) h k = k

not_point : (c : ℕ) (t : Text) → all_digits (c ∷ t) ≡ true → (c == b'.') ≡ false
unfolding all_digits
not_point c t h = ground arith

digits_tail : (c : ℕ) (t : Text) → all_digits (c ∷ t) ≡ true → all_digits t ≡ true
unfolding all_digits
digits_tail c t h = ground arith

after_point-digits : (t : Text) → all_digits t ≡ true → after_point t ≡ false
unfolding after_point all_digits
after_point-digits [] h = refl
after_point-digits (c ∷ t) h =
    rw (not_point c t h) (ground (arith, after_point-digits t (digits_tail c t h)))

fraction-digits : (t : Text) → all_digits t ≡ true → fraction t ≡ false
unfolding fraction
fraction-digits [] h = refl
fraction-digits (c ∷ t) h = ground (arith, after_point-digits t (digits_tail c t h))

lower_js-digit : (c : ℕ) (t : Text) → all_digits (c ∷ t) ≡ true → lower_js c ≡ c ∷ []
unfolding all_digits lower_js lower
lower_js-digit c t h = ground arith

not_word :
    (c d : ℕ) (t l w : Text)
    → all_digits (c ∷ t) ≡ true
    → leb b'a' d ≡ true
    → same_text (c ∷ l) (d ∷ w) ≡ false
unfolding all_digits same_text
not_word c d t l w h k = ground arith

module _ (number_text : Text → Text) where
  word_to_value-digits :
      (v t : Text)
      → ltb 0 (length t) ≡ true
      → all_digits t ≡ true
      → word_to_value number_text v (lowered t) ≡ Value.string v
  unfolding word_to_value flat_map
  word_to_value-digits v [] h k = absurd (cc h)
  word_to_value-digits v (c ∷ t) h k =
      rw
        (
          lower_js-digit c t k,
          not_word c b't' t (lowered t) (codes "rue") k refl,
          not_word c b'f' t (lowered t) (codes "alse") k refl,
          not_word c b'n' t (lowered t) (codes "ull") k refl,
        )
        refl

  trimmed_to_value-digits :
      (v t : Text) (n : ℕ)
      → IsPrinted n t
      → trimmed_to_value number_text v t
        ≡ (if leb n max_safe_integer then int (signed false n) else Value.string v)
  unfolding trimmed_to_value
  trimmed_to_value-digits v t n p =
      rw
        (
          unsigned-digits t p.only_digits,
          digits-all_digits t p.some_digit p.only_digits,
          p.value,
          fraction-digits t p.only_digits,
          word_to_value-digits v t p.some_digit p.only_digits,
        )
        refl

signed-decimal : (n : ℕ) → signed false n ≡ decimal n
unfolding signed
signed-decimal zero = unfold decimal in refl
signed-decimal (suc n) = refl

unless_empty-digits :
    (number_text : Text → Text) (v t : Text)
    → ltb 0 (length t) ≡ true
    → unless_empty number_text v t ≡ trimmed_to_value number_text v t
unless_empty-digits number_text v [] h = absurd (cc h)
unless_empty-digits number_text v (c ∷ t) h = refl

-- The decimal text of a number becomes the whole number itself up to the greatest safe integer, and
-- stays the text as it is beyond.
pub to_value-decimal :
    (number_text : Text → Text) (n : ℕ)
    → to_value number_text (string (decimal n))
      ≡ (if leb n max_safe_integer then int (decimal n) else Value.string (decimal n))
unfolding to_value
to_value-decimal number_text n =
    let p = IsPrinted-decimal n in
    ap (unless_empty number_text (decimal n)) (trim-decimal n)
    ∙ unless_empty-digits number_text (decimal n) (decimal n) p.some_digit
    ∙ trimmed_to_value-digits number_text (decimal n) (decimal n) n p
    ∙ ap (λ t. if leb n max_safe_integer then int t else Value.string (decimal n))
        (signed-decimal n)
