-- ===== src/Sql/Literals.antt =====
-- `stripSqlLiterals` of lib/sql-readonly.ts.
use basemaster.Base.{
  ℕ, zero, suc, ◌+◌, ◌-◌, ◌&&◌, ◌||◌, not, Bool, true, false, Option, none, some, [], ◌∷◌, ◌++◌,
  length, head?, drop, leb, ◌==◌, if◌then◌else◌,
}
use basemaster.Base.Text.{Text, is_word}
use basemaster.Sql.Mode.{next_is}

-- The loops of `stripSqlLiterals`.
pub data Mode : Type 0 where
  plain line block backtick : Mode
  -- in a quotation by this mark, which two of them in a row do not close
  quoted : ℕ → Mode
  -- at the second of two such marks
  escaped : ℕ → Mode
  -- at the `*` of an opening `/*`
  block_open : Mode
  -- within a dollar-quoted text, or at the `/` of a closing `*/`: so many more characters are left in
  -- it behind this one
  skip : ℕ → Mode

-- [a-zA-Z_]
abbrev pub is_tag_start : ℕ → Bool
is_tag_start c = is_word c && not (leb b'0' c && leb c b'9')

unfoldable pub span_word : Text → Text × Text
span_word [] = ([], [])
span_word (c ∷ text) =
    let (word, rest) = span_word text in if is_word c then (c ∷ word, rest) else ([], c ∷ text)

-- The `$` behind a tag
unfoldable pub closing_dollar : Text × Text → Option Text
closing_dollar (tag, rest) =
    if next_is (head? rest) b'$' then some (b'$' ∷ (tag ++ b'$' ∷ [])) else none

-- `/^\$([a-zA-Z_]\w*)?\$/`, on what stands behind the first `$`: the whole match.
unfoldable pub dollar_tag : Text → Option Text
dollar_tag [] = none
dollar_tag (c ∷ text) =
    if is_tag_start c
    then closing_dollar (span_word (c ∷ text))
    else if c == b'$'
    then some (b'$' ∷ b'$' ∷ [])
    else none

unfoldable pub starts_with : Text → Text → Bool
starts_with [] text = true
starts_with (w ∷ ws) [] = false
starts_with (w ∷ ws) (c ∷ text) = w == c && starts_with ws text

-- `text.indexOf(tag)`
unfoldable pub index_of : Text → Text → Option ℕ
index_of tag [] = if starts_with tag [] then some 0 else none
index_of tag (c ∷ text) =
    let later = index_of tag text in
    if starts_with tag (c ∷ text)
    then some 0
    else elim later [ none ↦ none | some k ↦ some (suc k) ]

-- How many characters of `rest`, which stands behind the first `$`, the dollar-quoted text takes.
unfoldable pub dollar_length : Text → Text → ℕ
dollar_length tag rest = elim (index_of tag (drop (length tag - 1) rest)) [
  | none ↦ length rest
  | some k ↦ length tag - 1 + (k + length tag)
]

abbrev pub dollar_mode : Option Text → Text → Mode
dollar_mode none rest = plain
dollar_mode (some tag) rest = skip (dollar_length tag rest - 1)

abbrev pub is_some {ℓ} : {A : Type ℓ} → Option A → Bool
is_some none = false
is_some (some _) = true

-- One round at the character `c` with `rest` behind it: the loop that the scanner is in after it.
unfoldable pub next_mode : Mode → ℕ → Text → Mode
unfolding dollar_tag closing_dollar span_word dollar_length index_of starts_with
next_mode plain c rest =
    if c == b'-' && next_is (head? rest) b'-'
    then line
    else if c == b'/' && next_is (head? rest) b'*'
    then block_open
    else if c == b'\'' || c == b'"'
    then quoted c
    else if c == b'`'
    then backtick
    else if c == b'$'
    then dollar_mode (dollar_tag rest) rest
    else plain
next_mode line c rest = if c == b'\n' then plain else line
next_mode block_open c rest = block
next_mode block c rest = if c == b'*' && next_is (head? rest) b'/' then skip 0 else block
next_mode backtick c rest = if c == b'`' then plain else backtick
next_mode (quoted q) c rest =
    if c == q then (if next_is (head? rest) q then escaped q else plain) else quoted q
next_mode (escaped q) c rest = quoted q
next_mode (skip zero) c rest = plain
next_mode (skip (suc n)) c rest = skip n

abbrev pub dollar_out : Option Text → ℕ → Text
dollar_out none c = c ∷ []
dollar_out (some tag) c = b' ' ∷ []

-- What the round adds to `out`. The space for a literal is added where it begins.
unfoldable pub round_out : Mode → ℕ → Text → Text
unfolding dollar_tag closing_dollar span_word
round_out plain c rest =
    if c == b'-' && next_is (head? rest) b'-'
    then []
    else if c == b'/' && next_is (head? rest) b'*'
    then b' ' ∷ []
    else if c == b'\'' || c == b'"' || c == b'`'
    then b' ' ∷ []
    else if c == b'$'
    then dollar_out (dollar_tag rest) c
    else c ∷ []
round_out line c rest = if c == b'\n' then c ∷ [] else []
round_out _ c rest = []

unfoldable pub strip_from : Mode → Text → Text
strip_from mode [] = []
strip_from mode (c ∷ rest) = round_out mode c rest ++ strip_from (next_mode mode c rest) rest

unfoldable pub strip_sql_literals : Text → Text
unfolding strip_from round_out next_mode
strip_sql_literals sql = strip_from plain sql
