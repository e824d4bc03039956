-- ===== src/Sql/ReadOnly/Code.antt =====
-- What is code in an SQL text and what is not, piece by piece, as `stripSqlLiterals` of
-- lib/sql-readonly.ts is to tell it.
use basemaster.Base.{
  ℕ, ◌==◌, ◌&&◌, ◌||◌, ◌≡◌, Bool, true, false, not, [], ◌∷◌, ◌++◌, leb, All, if◌then◌else◌,
}
use basemaster.Base.Text.{Text, is_word}

-- The text does not have the character.
abbrev pub Lacks : ℕ → Text → Type 0
Lacks q [] = Unit
Lacks q (c ∷ rest) = ((c == q) ≡ false) × Lacks q rest

-- The text has no `*/`.
abbrev pub LacksClose : Text → Type 0
LacksClose [] = Unit
LacksClose (c ∷ []) = Unit
LacksClose (c ∷ (d ∷ rest)) = ((c == b'*' && d == b'/') ≡ false) × LacksClose (d ∷ rest)

-- A text as it stands between two of the marks `q`: each `q` of its own is doubled.
abbrev pub doubled : ℕ → Text → Text
doubled q [] = []
doubled q (c ∷ text) = if c == q then q ∷ q ∷ doubled q text else c ∷ doubled q text

abbrev pub begins_with : ℕ → Text → Bool
begins_with q [] = false
begins_with q (c ∷ text) = c == q

-- What may begin the name of a dollar quotation, or ends it.
abbrev pub is_name_start : ℕ → Bool
is_name_start c = leb b'a' c && leb c b'z' || leb b'A' c && leb c b'Z' || c == b'_' || c == b'$'

-- The character begins no comment and no literal, with the text behind it.
abbrev pub is_plain : ℕ → Text → Bool
is_plain c [] = not (c == b'\'' || c == b'"' || c == b'`')
is_plain c (d ∷ text) = not (
    c == b'\''
    || c == b'"'
    || c == b'`'
    || c == b'-' && d == b'-'
    || c == b'/' && d == b'*'
    || c == b'$' && is_name_start d)

-- The name between the dollars: nothing, or a word that begins with no digit.
abbrev pub IsTagName : Text → Type 0
IsTagName [] = Unit
IsTagName (c ∷ name) = ((leb b'0' c && leb c b'9') ≡ false) × All (λ d. is_word d ≡ true) (c ∷ name)

-- `Reads sql code`: the text is made of pieces, and `code` is what stays of it. A comment or a literal
-- leaves a space, and a comment to the end of the line the end of the line.
pub data Reads : Text → Text → Type 0 where
  ends : Reads [] []
  plain_character :
      (c : ℕ) {rest code : Text}
      → is_plain c rest ≡ true
      → Reads rest code
      → Reads (c ∷ rest) (c ∷ code)
  line_comment :
      (w : Text) {rest code : Text}
      → Lacks b'\n' w
      → Reads rest code
      → Reads (b'-' ∷ b'-' ∷ (w ++ b'\n' ∷ rest)) (b'\n' ∷ code)
  last_line_comment : (w : Text) → Lacks b'\n' w → Reads (b'-' ∷ b'-' ∷ w) []
  block_comment :
      (w : Text) {rest code : Text}
      → LacksClose (w ++ b'*' ∷ [])
      → Reads rest code
      → Reads (b'/' ∷ b'*' ∷ (w ++ b'*' ∷ b'/' ∷ rest)) (b' ' ∷ code)
  open_block_comment : (w : Text) → LacksClose w → Reads (b'/' ∷ b'*' ∷ w) (b' ' ∷ [])
  quotation :
      (w : Text) {rest code : Text}
      → begins_with b'\'' rest ≡ false
      → Reads rest code
      → Reads (b'\'' ∷ (doubled b'\'' w ++ b'\'' ∷ rest)) (b' ' ∷ code)
  quoted_name :
      (w : Text) {rest code : Text}
      → begins_with b'"' rest ≡ false
      → Reads rest code
      → Reads (b'"' ∷ (doubled b'"' w ++ b'"' ∷ rest)) (b' ' ∷ code)
  backtick_name :
      (w : Text) {rest code : Text}
      → Lacks b'`' w
      → Reads rest code
      → Reads (b'`' ∷ (w ++ b'`' ∷ rest)) (b' ' ∷ code)
  dollar_quotation :
      (name w : Text) {rest code : Text}
      → IsTagName name
      → Lacks b'$' w
      → Reads rest code
      → Reads (b'$' ∷ (name ++ b'$' ∷ (w ++ b'$' ∷ (name ++ b'$' ∷ rest)))) (b' ' ∷ code)
