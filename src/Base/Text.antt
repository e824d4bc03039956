-- ===== src/Base/Text.antt =====
-- Texts that the program walks: lists of UTF-16 code units, with the JavaScript operations and the
-- classes of characters of its regular expressions.
use Prim.Native.Char.{code}
use Prim.Native.Nat.{ℕ, zero, suc, ◌+◌, ◌-◌, ◌/◌, ◌%◌, compare, Ordering}
use Prim.Native.String.{String}
use mathlib.Core.Path.{◌≡◌, refl}
use mathlib.Core.Bool.{Bool, true, false, not, ◌&&◌, ◌||◌}
use mathlib.Core.Option.{Option, none, some}
use mathlib.Core.List.{List, [], ◌∷◌, ◌++◌}
use native.Mathlib.Omega.{arith}
use basemaster.Base.Tests.{leb, ◌==◌, if◌then◌else◌}

abbrev pub Text : Type 0
Text = List ℕ

-- The code units of a literal: its code points, if it lies in the basic plane.
abbrev pub codes : String → Text
codes String.[] = []
codes (String.◌∷◌ c s) = code c ∷ codes s

-- `\s`, which is also what `trim` removes: white space and line terminators.
unfoldable pub is_space : ℕ → Bool
is_space c =
    leb 9 c && leb c 13
    || c == 32
    || c == 160
    || c == 0x1680
    || leb 0x2000 c && leb c 0x200a
    || c == 0x2028
    || c == 0x2029
    || c == 0x202f
    || c == 0x205f
    || c == 0x3000
    || c == 0xfeff

-- `\w`
unfoldable pub is_word : ℕ → Bool
is_word c =
    leb b'a' c && leb c b'z' || leb b'A' c && leb c b'Z' || leb b'0' c && leb c b'9' || c == b'_'

-- The case folding of the flag `i`, at a letter of a pattern: these letters are all ASCII, and no
-- character outside ASCII folds to one of them.
unfoldable pub lower : ℕ → ℕ
lower c = if leb b'A' c && leb c b'Z' then c + 32 else c

unfoldable pub upper : ℕ → ℕ
upper c = if leb b'a' c && leb c b'z' then c - 32 else c

-- `text.startsWith(word)` for a word in lower case, up to case: what is left behind the word.
unfoldable pub after_word : Text → Text → Option Text
unfolding lower
after_word [] text = some text
after_word (w ∷ ws) [] = none
after_word (w ∷ ws) (c ∷ text) = if lower c == w then after_word ws text else none

-- `\b` in front of `text`, if the last character before it was a word character or not.
abbrev pub boundary : Bool → Text → Bool
boundary inside [] = inside
boundary inside (c ∷ _) = if is_word c then not inside else inside

unfoldable pub skip_spaces : Text → Text
unfolding is_space
skip_spaces [] = []
skip_spaces (c ∷ text) = let rest = skip_spaces text in if is_space c then rest else c ∷ text

-- A character in front of what is left of the text behind it.
unfoldable pub keep_inked : ℕ → Text → Text
keep_inked c [] = if is_space c then [] else c ∷ []
keep_inked c (d ∷ rest) = c ∷ d ∷ rest

unfoldable pub trim_end : Text → Text
unfolding is_space keep_inked
trim_end [] = []
trim_end (c ∷ text) = keep_inked c (trim_end text)

unfoldable pub trim : Text → Text
unfolding skip_spaces trim_end
trim text = trim_end (skip_spaces text)

-- `text.trim().length > 0`: some character is no white space.
unfoldable pub has_ink : Text → Bool
unfolding is_space
has_ink [] = false
has_ink (c ∷ text) = not (is_space c) || has_ink text

-- `/[chars]/g` replaced by nothing, or each by a text of its own: a map over the characters.
unfoldable pub flat_map : (ℕ → Text) → Text → Text
flat_map f [] = []
flat_map f (c ∷ text) = f c ++ flat_map f text

-- `parts.join(sep)`
unfoldable pub join : Text → List Text → Text
join sep [] = []
join sep (part ∷ []) = part
join sep (part ∷ next ∷ parts) = part ++ (sep ++ join sep (next ∷ parts))

-- `a === b`
unfoldable pub same_text : Text → Text → Bool
same_text [] [] = true
same_text [] (d ∷ b) = false
same_text (c ∷ a) [] = false
same_text (c ∷ a) (d ∷ b) = c == d && same_text a b

pub same_text_refl : (a : Text) → same_text a a ≡ true
unfolding same_text
same_text_refl [] = refl
same_text_refl (c ∷ a) = ground (arith, same_text_refl a)

pub same_text_sound : (a b : Text) → same_text a b ≡ true → a ≡ b
unfolding same_text
same_text_sound [] [] h = refl
same_text_sound [] (d ∷ b) h = ground arith
same_text_sound (c ∷ a) [] h = ground arith
same_text_sound (c ∷ a) (d ∷ b) h = ground (arith, same_text_sound a b)

-- `text.startsWith(prefix)`
unfoldable pub starts_with : Text → Text → Bool
starts_with [] text = true
starts_with (p ∷ prefix) [] = false
starts_with (p ∷ prefix) (c ∷ text) = p == c && starts_with prefix text

-- `text.includes(part)`
unfoldable pub contains_text : Text → Text → Bool
unfolding starts_with
contains_text part [] = starts_with part []
contains_text part (c ∷ text) = starts_with part (c ∷ text) || contains_text part text

-- `String(n)`, whose digits are at most as many as the fuel.
abbrev pub digits_from : ℕ → ℕ → Text
digits_from zero n = []
digits_from (suc fuel) n = elim (compare n 10) [
  | Ordering.lt ↦ (b'0' + n) ∷ []
  | _ ↦ digits_from fuel (n / 10) ++ (b'0' + n % 10) ∷ []
]

unfoldable pub decimal : ℕ → Text
decimal n = digits_from (suc n) n

-- `toLowerCase`, as far as ASCII is concerned: of the other letters two have ASCII in lower case.
unfoldable pub lower_js : ℕ → Text
lower_js c =
    if c == 0x212a then b'k' ∷ [] else if c == 0x130 then b'i' ∷ 0x307 ∷ [] else lower c ∷ []

pub same_text_sym : (p q : Text) → same_text p q ≡ same_text q p
unfolding same_text
same_text_sym [] [] = refl
same_text_sym [] (d ∷ q) = refl
same_text_sym (c ∷ p) [] = refl
same_text_sym (c ∷ p) (d ∷ q) = ground (arith, same_text_sym p q)
