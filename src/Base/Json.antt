-- ===== src/Base/Json.antt =====
-- The text that `JSON.stringify` writes for a string.
use Prim.Native.Nat.{ℕ, ◌+◌, ◌-◌, ◌/◌, ◌%◌}
use mathlib.Core.Bool.{Bool, true, false, ◌&&◌, ◌||◌}
use mathlib.Core.List.{[], ◌∷◌, ◌++◌}
use basemaster.Base.Tests.{ltb, leb, ◌==◌, if◌then◌else◌}
use basemaster.Base.Text.{Text, codes}

-- Surrogates of UTF-16: a pair of them is one character.
abbrev pub is_lead : ℕ → Bool
is_lead c = leb 0xd800 c && leb c 0xdbff

abbrev pub is_trail : ℕ → Bool
is_trail c = leb 0xdc00 c && leb c 0xdfff

abbrev pub hex_digit : ℕ → ℕ
hex_digit n = if ltb n 10 then b'0' + n else b'a' + (n - 10)

abbrev pub escaped_unit : ℕ → Text
escaped_unit c =
    b'\\'
    ∷ b'u'
    ∷ hex_digit (c / 4096)
    ∷ hex_digit (c / 256 % 16)
    ∷ hex_digit (c / 16 % 16)
    ∷ hex_digit (c % 16)
    ∷ []

abbrev pub escaped : ℕ → Text
escaped c =
    if c == b'"' || c == b'\\'
    then b'\\' ∷ c ∷ []
    else if c == 8
    then codes "\\b"
    else if c == 12
    then codes "\\f"
    else if c == 10
    then codes "\\n"
    else if c == 13
    then codes "\\r"
    else if c == 9
    then codes "\\t"
    else if ltb c 32 || leb 0xd800 c && leb c 0xdfff
    then escaped_unit c
    else c ∷ []

abbrev pub trail_next : Text → Bool
trail_next [] = false
trail_next (c ∷ text) = is_trail c

-- The inside of a JSON string; the flag says that the last unit was the lead of a pair.
unfoldable pub json_units : Bool → Text → Text
json_units paired [] = []
json_units true (c ∷ text) = c ∷ json_units false text
json_units false (c ∷ text) =
    let pair = c ∷ json_units true text in
    let single = escaped c ++ json_units false text in
    if is_lead c && trail_next text then pair else single

unfoldable pub json_string : Text → Text
unfolding json_units
json_string text = b'"' ∷ json_units false text ++ b'"' ∷ []
