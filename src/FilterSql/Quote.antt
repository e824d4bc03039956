-- ===== src/FilterSql/Quote.antt =====
-- Quoting of names and values in lib/build-table-sql.ts.
use mathlib.Core.List.{reverse}
use basemaster.Base.{
  ℕ, ◌||◌, Bool, true, false, Option, none, some, List, [], ◌∷◌, ◌++◌, map, filter, ◌==◌,
  if◌then◌else◌,
}
use basemaster.Base.Text.{Text, codes, flat_map, trim}
use basemaster.Types.{
  Value, null, bool, int, u_int, float, decimal, string, date, time, date_time, timestamp, bytes,
  json,
}

pub data Dialect : Type 0 where
  mysql postgres sqlite : Dialect

-- `s.replace(/q/g, "qq")`
unfoldable pub double : ℕ → Text → Text
unfolding flat_map
double q s = flat_map (λ c. if c == q then q ∷ q ∷ [] else c ∷ []) s

abbrev pub quoted : ℕ → Text → Text
quoted q s = q ∷ (double q s ++ q ∷ [])

-- The quotation mark of names
abbrev pub mark : Dialect → ℕ
mark mysql = b'`'
mark postgres = b'"'
mark sqlite = b'"'

-- `identQuoter(dialect)(s)`
unfoldable pub ident : Dialect → Text → Text
unfolding double
ident dialect s = quoted (mark dialect) s

-- The dialect makes no difference.
unfoldable pub quote_string : Text → Dialect → Text
unfolding double
quote_string s dialect = quoted b'\'' s

unfoldable pub value_text : Option Value → Text
value_text none = []
value_text (some null) = []
value_text (some (string v)) = v
value_text (some (decimal v)) = v
value_text (some (date v)) = v
value_text (some (time v)) = v
value_text (some (date_time v)) = v
value_text (some (timestamp v)) = v
value_text (some (int v)) = v
value_text (some (u_int v)) = v
value_text (some (float v)) = v
value_text (some (bool v)) = if v then codes "1" else codes "0"
value_text (some (bytes v)) = []
value_text (some (json v)) = []

abbrev pub bool_text : Dialect → Bool → Text
bool_text postgres v = if v then codes "TRUE" else codes "FALSE"
bool_text mysql v = if v then codes "1" else codes "0"
bool_text sqlite v = if v then codes "1" else codes "0"

unfoldable pub quote_value : Option Value → Dialect → Text
unfolding quote_string value_text
quote_value none dialect = codes "NULL"
quote_value (some null) dialect = codes "NULL"
quote_value (some (int v)) dialect = v
quote_value (some (u_int v)) dialect = v
quote_value (some (float v)) dialect = v
quote_value (some (decimal v)) dialect = v
quote_value (some (bool v)) dialect = bool_text dialect v
quote_value (some v) dialect = quote_string (value_text (some v)) dialect

-- `raw.replace(/\\/g, "\\\\").replace(/_/g, "\\_").replace(/%/g, "\\%")`
abbrev pub escape_one : ℕ → Text → Text
escape_one q s = flat_map (λ c. if c == q then b'\\' ∷ q ∷ [] else c ∷ []) s

unfoldable pub like_escape : Text → Text
unfolding flat_map
like_escape raw = escape_one b'%' (escape_one b'_' (escape_one b'\\' raw))

-- The text up to the next comma, and what is behind it.
abbrev push_first : ℕ → List Text → List Text
push_first c [] = (c ∷ []) ∷ []
push_first c (part ∷ parts) = (c ∷ part) ∷ parts

-- `text.split(",")`
split_comma : Text → List Text
split_comma [] = [] ∷ []
split_comma (c ∷ text) =
    let parts = split_comma text in if c == b',' then [] ∷ parts else push_first c parts

abbrev is_quote : ℕ → Bool
is_quote c = c == b'\'' || c == b'"'

abbrev strip_first : Text → Text
strip_first [] = []
strip_first (c ∷ s) = if is_quote c then s else c ∷ s

-- `p.trim().replace(/^['"]|['"]$/g, "")`
abbrev pub strip_quotes : Text → Text
strip_quotes s = reverse (strip_first (reverse (strip_first s)))

abbrev pub is_filled : Text → Bool
is_filled [] = false
is_filled (c ∷ s) = true

unfoldable pub split_in_csv : Text → List Text
unfolding split_comma trim
split_in_csv text = filter is_filled (map (λ p. strip_quotes (trim p)) (split_comma text))
