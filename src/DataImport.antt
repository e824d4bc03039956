-- ===== src/DataImport.antt =====
-- lib/data-import.ts: rows of a CSV, JSON or XLSX file, and the value that a cell of them becomes. The
-- readers of the formats (Papa Parse, SheetJS, `JSON.parse` behind `TextDecoder`) are parameters.
mod Tests
pub mod Numbers
pub mod Rows
use basemaster.Base.{
  ℕ, zero, suc, ◌+◌, ◌-◌, ◌*◌, Bool, true, false, not, ◌&&◌, ◌||◌, Option, none, some, List, [],
  ◌∷◌, ◌++◌, map, length, any, find, leb, ltb, ◌==◌, if◌then◌else◌,
}
use basemaster.Base.Text.{
  Text, codes, same_text, trim, flat_map, lower, lower_js, decimal, starts_with,
}
use basemaster.Base.Dict.{get_or}
use basemaster.Types.{Value, bool, int, float, date_time}

-- A value of JavaScript: a number by the text that `String` prints for it, with `Number.isInteger`, a
-- date by its ISO text, and any other object by its JSON text.
pub data JsValue : Type 0 where
  undefined null : JsValue
  boolean : Bool → JsValue
  number : (is_integer : Bool) → Text → JsValue
  date string object : Text → JsValue

abbrev is_digit : ℕ → Bool
is_digit c = leb b'0' c && leb c b'9'

unfoldable pub all_digits : Text → Bool
all_digits [] = true
all_digits (c ∷ t) = is_digit c && all_digits t

-- `/^-?\d+$/`
unfoldable pub digits : Text → Bool
unfolding all_digits
digits [] = false
digits (c ∷ t) = is_digit c && all_digits t

abbrev pub unsigned : Text → Bool × Text
unsigned [] = (false, [])
unsigned (c ∷ t) = if c == b'-' then (true, t) else (false, c ∷ t)

-- Digits, a point, and digits.
unfoldable pub after_point : Text → Bool
unfolding digits
after_point [] = false
after_point (c ∷ t) = if c == b'.' then digits t else is_digit c && after_point t

-- `/^-?\d+\.\d+$/` behind the sign
unfoldable pub fraction : Text → Bool
unfolding after_point
fraction [] = false
fraction (c ∷ t) = is_digit c && after_point t

-- The number that digits stand for, and `Number.MAX_SAFE_INTEGER`.
unfoldable pub digits_value : ℕ → Text → ℕ
digits_value acc [] = acc
digits_value acc (c ∷ t) = digits_value (acc * 10 + (c - b'0')) t

abbrev pub max_safe_integer : ℕ
max_safe_integer = 9007199254740991

-- `String` of a number with a sign; a negative zero prints as 0.
unfoldable pub signed : Bool → ℕ → Text
unfolding decimal
signed negative zero = codes "0"
signed true (suc n) = b'-' ∷ decimal (suc n)
signed false (suc n) = decimal (suc n)

abbrev pub lowered : Text → Text
lowered t = flat_map lower_js t

-- `number_text` prints `Number(t)` for a text `t` with a decimal point.
module _ (number_text : Text → Text) where
  unfoldable pub word_to_value : Text → Text → Value
  unfolding flat_map lower_js lower same_text
  word_to_value v low =
      if same_text low (codes "true")
      then bool true
      else if same_text low (codes "false")
      then bool false
      else if same_text low (codes "null")
      then Value.null
      else Value.string v

  -- A text that is not empty when trimmed.
  unfoldable pub trimmed_to_value : Text → Text → Value
  unfolding word_to_value digits digits_value signed fraction
  trimmed_to_value v trimmed =
      let (negative, t) = unsigned trimmed in
      if digits t && leb (digits_value 0 t) max_safe_integer
      then int (signed negative (digits_value 0 t))
      else if fraction t
      then float (number_text trimmed)
      else word_to_value v (lowered trimmed)

  abbrev pub unless_empty : Text → Text → Value
  unless_empty v [] = Value.null
  unless_empty v (c ∷ trimmed) = trimmed_to_value v (c ∷ trimmed)

  unfoldable pub to_value : JsValue → Value
  unfolding trimmed_to_value trim
  to_value undefined = Value.null
  to_value null = Value.null
  to_value (boolean b) = bool b
  to_value (number true n) = int n
  to_value (number false n) = float n
  to_value (date iso) = date_time iso
  to_value (string v) = unless_empty v (trim v)
  to_value (object text) = Value.json text

pub data ImportFormat : Type 0 where
  csv json xlsx : ImportFormat

-- `text.endsWith(suffix)`
unfoldable pub ends_with : Text → Text → Bool
unfolding same_text
ends_with suffix [] = same_text [] suffix
ends_with suffix (c ∷ t) = same_text (c ∷ t) suffix || ends_with suffix t

unfoldable pub detect_format : Text → Option ImportFormat
unfolding ends_with flat_map lower_js lower
detect_format path =
    let low = lowered path in
    if ends_with (codes ".csv") low || ends_with (codes ".tsv") low
    then some csv
    else if ends_with (codes ".json") low
    then some json
    else if ends_with (codes ".xlsx") low || ends_with (codes ".xls") low
    then some xlsx
    else none

pub record ParsedData : Type 0 where
  pub columns : List Text
  pub rows : List (List JsValue)

-- What `parseFile` returns or throws.
pub data Parsed : Type 0 where
  parsed : ParsedData → Parsed
  throws : Text → Parsed

-- `Object.keys` and the fields of an element; none for `null`.
abbrev pub Element : Type 0
Element = Option (List (Text × JsValue))

-- What the readers give: CSV records with the message of an error of the type `Delimiter`, a JSON array,
-- some other JSON value or what `JSON.parse` throws, and the cells of the first sheet.
pub data JsonText : Type 0 where
  array : List Element → JsonText
  other : JsonText
  invalid : Text → JsonText

pub record Readers (B : Type 0) : Type 0 where
  pub read_csv : (delimiter : Text) → B → Option Text × List (List Text)
  pub read_json : B → JsonText
  pub read_sheet : B → List (List JsValue)
  pub string_of : JsValue → Text

-- `new Set`, over the keys of the elements: each key once, where it is first.
unfoldable pub add_keys : List (Text × JsValue) → List Text → List Text
unfolding same_text
add_keys [] cols = cols
add_keys ((k, v) ∷ fields) cols =
    add_keys fields (if any (λ c. same_text c k) cols then cols else cols ++ k ∷ [])

unfoldable pub all_keys : List Element → List Text → List Text
unfolding add_keys
all_keys [] cols = cols
all_keys (none ∷ elements) cols = all_keys elements cols
all_keys (some fields ∷ elements) cols = all_keys elements (add_keys fields cols)

-- `o[c]`
unfoldable pub field : Text → List (Text × JsValue) → JsValue
unfolding same_text
field c [] = undefined
field c ((k, v) ∷ fields) = if same_text k c then v else field c fields

-- `parsed.map((o) => cols.map((c) => o[c]))`, or none where it reads a field of `null`.
abbrev pub row_of : List Text → Element → Option (List JsValue)
row_of [] element = some []
row_of (c ∷ cols) none = none
row_of (c ∷ cols) (some fields) = some (map (λ name. field name fields) (c ∷ cols))

abbrev pub cons_row :
    Option (List JsValue) → Option (List (List JsValue)) → Option (List (List JsValue))
cons_row none rows = none
cons_row (some row) none = none
cons_row (some row) (some rows) = some (row ∷ rows)

unfoldable pub rows_of : List Text → List Element → Option (List (List JsValue))
unfolding field
rows_of cols [] = some []
rows_of cols (element ∷ elements) = cons_row (row_of cols element) (rows_of cols elements)

abbrev pub with_columns : List Text → Option (List (List JsValue)) → Parsed
with_columns cols none = throws (codes "TypeError")
with_columns cols (some rows) = parsed (record { columns = cols; rows = rows })

unfoldable pub parse_json : JsonText → Parsed
unfolding all_keys rows_of
parse_json (array elements) =
    let cols = all_keys elements [] in with_columns cols (rows_of cols elements)
parse_json other = throws (codes "JSON precisa ser array de objetos")
parse_json (invalid message) = throws message

unfoldable pub parse_csv : Option Text × List (List Text) → Parsed
parse_csv (some message, data_) = throws message
parse_csv (none, []) = parsed (record { columns = []; rows = [] })
parse_csv (none, head ∷ rows) = parsed (record { columns = head; rows = map (map string) rows })

abbrev pub or_blank : (JsValue → Text) → JsValue → Text
or_blank string_of undefined = []
or_blank string_of null = []
or_blank string_of v = string_of v

unfoldable pub parse_sheet : (JsValue → Text) → List (List JsValue) → Parsed
parse_sheet string_of [] = parsed (record { columns = []; rows = [] })
parse_sheet string_of (head ∷ rows) =
    parsed (record { columns = map (or_blank string_of) head; rows = rows })

module _ {B : Type 0} (readers : Readers B) where
  abbrev pub parse_as : Option ImportFormat → B → Text → Parsed
  parse_as none content file_name = throws (codes "Formato não suportado: " ++ file_name)
  parse_as (some csv) content file_name =
      let tab = ends_with (codes ".tsv") (lowered file_name) in
      parse_csv (readers.read_csv (if tab then codes "\t" else codes ",") content)
  parse_as (some json) content file_name = parse_json (readers.read_json content)
  parse_as (some xlsx) content file_name =
      parse_sheet readers.string_of (readers.read_sheet content)

  unfoldable pub parse_file : B → Text → Parsed
  unfolding detect_format parse_csv parse_json parse_sheet ends_with
  parse_file content file_name = parse_as (detect_format file_name) content file_name
