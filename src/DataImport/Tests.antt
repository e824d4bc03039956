-- ===== src/DataImport/Tests.antt =====
-- Runs of the import, and the theorems at concrete inputs.
use basemaster.Base.{true, ◌≡◌, refl, none, some, [], ◌∷◌, leb, if◌then◌else◌}
use basemaster.Base.Text.{codes, decimal}
use basemaster.Types.{Value, int, float}
use basemaster.DataImport.{
  string, number, to_value, detect_format, csv, max_safe_integer, parse_json, array, all_keys,
  throws,
}
use basemaster.DataImport.Numbers.{to_value-decimal}
use basemaster.DataImport.Rows.{parse_json-array}

to_value-decimal_example :
    to_value (λ t. t) (string (decimal 42))
    ≡ (if leb 42 max_safe_integer then int (decimal 42) else Value.string (decimal 42))
to_value-decimal_example = to_value-decimal (λ t. t) 42

minus_seven : to_value (λ t. t) (string (codes " -007 ")) ≡ int (codes "-7")
unfolding to_value
minus_seven = refl

a_fraction : to_value (λ t. t) (string (codes "1.50")) ≡ float (codes "1.50")
unfolding to_value
a_fraction = refl

a_word : to_value (λ t. t) (string (codes " NULL")) ≡ Value.null
unfolding to_value
a_word = refl

tsv_format : detect_format (codes "Data.TSV") ≡ some csv
unfolding detect_format
tsv_format = refl

parse_json-array_example :
    parse_json (array (some ((codes "a", number true (codes "1")) ∷ []) ∷ none ∷ []))
    ≡ throws (codes "TypeError")
unfolding all_keys
parse_json-array_example =
    parse_json-array (some ((codes "a", number true (codes "1")) ∷ []) ∷ none ∷ [])
