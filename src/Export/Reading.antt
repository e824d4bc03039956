-- ===== src/Export/Reading.antt =====
-- What a reader of CSV makes of the lines that lib/export.ts writes. The reader is a specification.
use mathlib.Core.List.{append_assoc}
use basemaster.Base.{
  ℕ, zero, suc, ◌≡◌, refl, ap, ◌||◌, ◌==◌, Bool, true, false, Option, none, some, List, [], ◌∷◌,
  ◌++◌, map, any, head?, length, arith, if◌then◌else◌, Bool-cases, inl, inr,
}
use basemaster.Base.Text.{Text, join}
use basemaster.Types.{Value}
use basemaster.Sql.Mode.{next_is}
use basemaster.FilterSql.Reading.{read_literal, read_quoted}
use basemaster.Export.{
  ExportFormat, csv_comma, csv_semicolon, json_format, xlsx, value_to_plain, is_special,
  escape_csv_field, csv_separator, csv_header_line, csv_data_line,
}

abbrev pub is_break : ℕ → ℕ → Bool
is_break sep c = c == sep || c == b'\n' || c == 13

-- A field with no quotes, up to a separator or the end of the line, and what is left.
unfoldable pub read_plain : ℕ → Text → Text × Text
read_plain sep [] = ([], [])
read_plain sep (c ∷ s) =
    let rest = read_plain sep s in if is_break sep c then ([], c ∷ s) else (c ∷ rest.0, rest.1)

unfoldable pub read_field : ℕ → Text → Option (Text × Text)
unfolding read_plain
read_field sep [] = some ([], [])
read_field sep (c ∷ s) =
    if c == b'"' then read_literal b'"' (c ∷ s) else some (read_plain sep (c ∷ s))

-- The text is at its end, or at a separator or the end of a line.
abbrev pub at_break : ℕ → Text → Bool
at_break sep [] = true
at_break sep (c ∷ rest) = is_break sep c

read_plain-append :
    (sep : ℕ) (s rest : Text)
    → any (is_special sep) s ≡ false
    → at_break sep rest ≡ true
    → read_plain sep (s ++ rest) ≡ (s, rest)
unfolding read_plain
read_plain-append sep [] [] h e = refl
read_plain-append sep [] (c ∷ rest) h e = rw e refl
read_plain-append sep (c ∷ s) rest h e =
    let brk : is_break sep c ≡ false = ground arith in
    let more : any (is_special sep) s ≡ false = ground arith in
    rw (brk, read_plain-append sep s rest more e) refl

abbrev pub or_empty : Option Text → Text
or_empty none = []
or_empty (some s) = s

read_field-plain :
    (sep : ℕ) (s rest : Text)
    → (sep == b'"') ≡ false
    → any (is_special sep) s ≡ false
    → at_break sep rest ≡ true
    → read_field sep (s ++ rest) ≡ some (s, rest)
unfolding read_field
read_field-plain sep [] [] q h e = refl
read_field-plain sep [] (c ∷ rest) q h e =
    let no : (c == b'"') ≡ false = ground arith in
    rw no (ap some (read_plain-append sep [] (c ∷ rest) h e))
read_field-plain sep (c ∷ s) rest q h e =
    let no : (c == b'"') ≡ false = ground arith in
    rw no (ap some (read_plain-append sep (c ∷ s) rest h e))

no_quote_next :
    (sep : ℕ) (rest : Text)
    → (sep == b'"') ≡ false
    → at_break sep rest ≡ true
    → next_is (head? rest) b'"' ≡ false
no_quote_next sep [] q e = refl
no_quote_next sep (c ∷ rest) q e = ground arith

read_field-escape :
    (sep : ℕ) (o : Option Text) (rest : Text)
    → (sep == b'"') ≡ false
    → at_break sep rest ≡ true
    → read_field sep (escape_csv_field o sep ++ rest) ≡ some (or_empty o, rest)
unfolding escape_csv_field
read_field-escape sep none rest q e = read_field-plain sep [] rest q refl e
read_field-escape sep (some s) rest q e = elim (Bool-cases (any (is_special sep) s)) [
  | inl h ↦ rw h (unfold read_field in read_quoted b'"' s rest (no_quote_next sep rest q e))
  | inr h ↦ rw h (read_field-plain sep s rest q h e)
]

abbrev cons_field : Text → Option (List Text × Text) → Option (List Text × Text)
cons_field f none = none
cons_field f (some r) = some (f ∷ r.0, r.1)

-- Behind a field: a separator, which is skipped.
abbrev skip_sep : ℕ → Text → Option Text
skip_sep sep [] = none
skip_sep sep (c ∷ s) = if c == sep then some s else none

abbrev then_fields :
    ℕ → (Text → Option (List Text × Text)) → Option (Text × Text) → Option (List Text × Text)
then_fields sep read none = none
then_fields sep read (some r) = elim (skip_sep sep r.1) [
  | none ↦ none
  | some t ↦ cons_field r.0 (read t)
]

then_fields-sep :
    (sep : ℕ) (read : Text → Option (List Text × Text)) (f t : Text)
    → then_fields sep read (some (f, sep ∷ t)) ≡ cons_field f (read t)
then_fields-sep sep read f t =
    rw ((let self : (sep == sep) ≡ true = ground arith in self), then_fields) refl

abbrev only_field : Option (Text × Text) → Option (List Text × Text)
only_field none = none
only_field (some r) = some (r.0 ∷ [], r.1)

-- A line of so many fields, and what is left behind it.
unfoldable pub read_row : ℕ → ℕ → Text → Option (List Text × Text)
unfolding read_field
read_row sep zero text = some ([], text)
read_row sep (suc zero) text = only_field (read_field sep text)
read_row sep (suc (suc n)) text =
    then_fields sep (λ t. read_row sep (suc n) t) (read_field sep text)

module _ {ℓ} {A : Type ℓ} (plain : A → Option Text) (sep : ℕ) (q : (sep == b'"') ≡ false) where
  read_row-join :
      (a : A) (row : List A) (rest : Text)
      → at_break sep rest ≡ true
      → read_row sep
          (length (a ∷ row))
          (join (sep ∷ []) (map (λ v. escape_csv_field (plain v) sep) (a ∷ row)) ++ rest)
        ≡ some (map (λ v. or_empty (plain v)) (a ∷ row), rest)
  unfolding read_row join
  read_row-join a [] rest e = rw (read_field-escape sep (plain a) rest q e) refl
  read_row-join a (b ∷ row) rest e =
      let line = join (sep ∷ []) (map (λ v. escape_csv_field (plain v) sep) (b ∷ row)) in
      let brk : at_break sep (sep ∷ (line ++ rest)) ≡ true = ground arith in
      rw
        (
          append_assoc (escape_csv_field (plain a) sep) (sep ∷ line) rest,
          read_field-escape sep (plain a) (sep ∷ (line ++ rest)) q brk,
          then_fields-sep sep (λ t. read_row sep (suc (length row)) t) (or_empty (plain a))
              (line ++ rest),
          read_row-join b row rest e,
        )
        refl

separator-ne : (format : ExportFormat) → (csv_separator format == b'"') ≡ false
unfolding csv_separator
separator-ne csv_comma = refl
separator-ne csv_semicolon = refl
separator-ne json_format = refl
separator-ne xlsx = refl

-- A reader of CSV reads back every header and every row that is exported, in either CSV format, with
-- whatever characters in the names and values, separators, quotes and line ends among them: the names,
-- and the printed values with the empty text for NULL. `rest` is the text behind the line, which is
-- empty or goes on with a separator or a line end; there is at least one column.
pub read_row-csv_line :
    (format : ExportFormat) (name : Text) (names : List Text) (v : Value) (row : List Value)
    (rest : Text)
    → at_break (csv_separator format) rest ≡ true
    → (read_row
          (csv_separator format)
          (length (name ∷ names))
          (csv_header_line (name ∷ names) (csv_separator format) ++ rest)
        ≡ some (map (λ n. n) (name ∷ names), rest))
      × (read_row
            (csv_separator format)
            (length (v ∷ row))
            (csv_data_line (v ∷ row) (csv_separator format) ++ rest)
          ≡ some (map (λ u. or_empty (value_to_plain u)) (v ∷ row), rest))
unfolding csv_header_line csv_data_line
read_row-csv_line format name names v row rest e = (
  read_row-join (λ n. some n) (csv_separator format) (separator-ne format) name names rest e,
  read_row-join value_to_plain (csv_separator format) (separator-ne format) v row rest e,
)
