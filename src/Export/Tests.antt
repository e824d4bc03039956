-- ===== src/Export/Tests.antt =====
-- The theorem on a row with a separator and a quote in it.
use basemaster.Base.{◌≡◌, refl, some, List, [], ◌∷◌, ◌++◌, map}
use basemaster.Base.Text.{codes}
use basemaster.Types.{Value, null, string, int, bytes}
use basemaster.Export.{
  csv_comma, csv_separator, csv_header_line, csv_data_line, value_to_plain, hex_bytes,
}
use basemaster.Export.Reading.{read_row, or_empty, read_row-csv_line}

abbrev row : List Value
row = string (codes "a,\"b\"") ∷ null ∷ bytes (10 ∷ 255 ∷ []) ∷ []

hex : value_to_plain (bytes (10 ∷ 255 ∷ [])) ≡ some (codes "0x0AFF")
unfolding value_to_plain hex_bytes
hex = refl

read_row-csv_line_example :
    (read_row
        (csv_separator csv_comma)
        1
        (csv_header_line (codes "na;me" ∷ []) (csv_separator csv_comma) ++ codes "\r\n")
      ≡ some (map (λ n. n) (codes "na;me" ∷ []), codes "\r\n"))
    × (read_row
          (csv_separator csv_comma)
          4
          (csv_data_line (int (codes "7") ∷ row) (csv_separator csv_comma) ++ codes "\r\n")
        ≡ some (map (λ u. or_empty (value_to_plain u)) (int (codes "7") ∷ row), codes "\r\n"))
unfolding csv_separator
read_row-csv_line_example =
    read_row-csv_line csv_comma (codes "na;me") [] (int (codes "7")) row (codes "\r\n") refl
