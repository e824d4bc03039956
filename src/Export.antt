-- ===== src/Export.antt =====
-- The CSV lines of lib/export.ts. A separator is one character, as `csvSeparator` gives it.
pub mod Reading
mod Tests
use basemaster.Base.{
  ℕ, ◌+◌, ◌/◌, ◌%◌, ◌||◌, ltb, ◌==◌, Bool, true, false, Option, none, some, List, [], ◌∷◌, ◌++◌,
  map, any, if◌then◌else◌,
}
use basemaster.Base.Text.{Text, codes, join}
use basemaster.Types.{
  Value, null, bool, int, u_int, float, decimal, string, date, time, date_time, timestamp, bytes,
  json,
}
use basemaster.FilterSql.Quote.{quoted, double}

pub data ExportFormat : Type 0 where
  csv_comma csv_semicolon json_format xlsx : ExportFormat

abbrev hex_digit : ℕ → ℕ
hex_digit d = if ltb d 10 then b'0' + d else b'7' + d

-- `b.toString(16).padStart(2, "0")`, in upper case
abbrev pub hex_byte : ℕ → Text
hex_byte b = hex_digit (b / 16) ∷ hex_digit (b % 16) ∷ []

unfoldable pub hex_bytes : List ℕ → Text
hex_bytes [] = []
hex_bytes (b ∷ bs) = hex_byte b ++ hex_bytes bs

-- `String` of the plain value, with `none` for null
unfoldable pub value_to_plain : Value → Option Text
unfolding hex_bytes
value_to_plain null = none
value_to_plain (bool v) = some (if v then codes "true" else codes "false")
value_to_plain (int v) = some v
value_to_plain (u_int v) = some v
value_to_plain (float v) = some v
value_to_plain (decimal v) = some v
value_to_plain (string v) = some v
value_to_plain (bytes v) = some (codes "0x" ++ hex_bytes v)
value_to_plain (json v) = some v
value_to_plain (date v) = some v
value_to_plain (time v) = some v
value_to_plain (date_time v) = some v
value_to_plain (timestamp v) = some v

abbrev pub is_special : ℕ → ℕ → Bool
is_special sep c = c == sep || c == b'\n' || c == 13 || c == b'"'

unfoldable pub escape_csv_field : Option Text → ℕ → Text
unfolding double
escape_csv_field none sep = []
escape_csv_field (some s) sep = if any (is_special sep) s then quoted b'"' s else s

unfoldable pub csv_separator : ExportFormat → ℕ
csv_separator csv_semicolon = b';'
csv_separator _ = b','

unfoldable pub csv_header_line : List Text → ℕ → Text
csv_header_line columns sep = join (sep ∷ []) (map (λ c. escape_csv_field (some c) sep) columns)

unfoldable pub csv_data_line : List Value → ℕ → Text
csv_data_line row sep = join (sep ∷ []) (map (λ v. escape_csv_field (value_to_plain v) sep) row)
