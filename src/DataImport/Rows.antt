-- ===== src/DataImport/Rows.antt =====
-- The rows that lib/data-import.ts makes of a JSON array.
use mathlib.Core.List.{append_assoc, append-nil}
use basemaster.Base.{
  ◌≡◌, refl, ap, sym, ◌∙◌, inl, inr, Bool, true, false, not, ◌&&◌, Option, none, some, List, [],
  ◌∷◌, ◌++◌, map, filter, find, any, arith, Bool-cases, if◌then◌else◌,
}
use basemaster.Base.Text.{Text, codes, same_text, same_text_sound}
use basemaster.DataImport.{
  JsValue, undefined, Element, add_keys, parsed, throws, array, all_keys, field, rows_of, cons_row,
  parse_json, with_columns,
}

abbrev pub is_null : Element → Bool
is_null none = true
is_null (some fields) = false

abbrev pub has_columns : List Text → Bool
has_columns [] = false
has_columns (c ∷ cols) = true

-- The keys of the elements, one element behind the other.
abbrev pub keys_of : List Element → List Text
keys_of [] = []
keys_of (none ∷ elements) = keys_of elements
keys_of (some fields ∷ elements) = map (λ p. p.0) fields ++ keys_of elements

-- A list with what stands in it again taken out behind its first place.
abbrev pub first_of_each : List Text → List Text
first_of_each [] = []
first_of_each (k ∷ ks) = k ∷ filter (λ c. not (same_text k c)) (first_of_each ks)

abbrev pub columns_of : List Element → List Text
columns_of elements = first_of_each (keys_of elements)

abbrev second : Option (Text × JsValue) → JsValue
second none = undefined
second (some p) = p.1

-- The value of the first field with a key.
abbrev pub value_under : List (Text × JsValue) → Text → JsValue
value_under fields c = second (find (λ p. same_text (p.0) c) fields)

-- The values of an element under the columns, in the order of the columns.
abbrev pub cells : List Text → Element → List JsValue
cells cols none = []
cells cols (some fields) = map (value_under fields) cols

field-value_under :
    (c : Text) (fields : List (Text × JsValue)) → field c fields ≡ value_under fields c
unfolding field
field-value_under c [] = refl
field-value_under c ((k, v) ∷ fields) = ground (arith, field-value_under c fields)

map-value_under :
    (fields : List (Text × JsValue)) (cols : List Text)
    → map (λ c. field c fields) cols ≡ map (value_under fields) cols
map-value_under fields [] = refl
map-value_under fields (c ∷ cols) =
    rw (field-value_under c fields, map-value_under fields cols) refl

abbrev add_fresh : List Text → List Text → List Text
add_fresh [] cols = cols
add_fresh (k ∷ ks) cols =
    add_fresh ks (if any (λ c. same_text c k) cols then cols else cols ++ k ∷ [])

add_fresh-append :
    (xs ys cols : List Text) → add_fresh (xs ++ ys) cols ≡ add_fresh ys (add_fresh xs cols)
add_fresh-append [] ys cols = refl
add_fresh-append (x ∷ xs) ys cols = add_fresh-append xs ys _

add_keys-add_fresh :
    (fields : List (Text × JsValue)) (cols : List Text)
    → add_keys fields cols ≡ add_fresh (map (λ p. p.0) fields) cols
unfolding add_keys
add_keys-add_fresh [] cols = refl
add_keys-add_fresh ((k, v) ∷ fields) cols = add_keys-add_fresh fields _

all_keys-add_fresh :
    (elements : List Element) (cols : List Text)
    → all_keys elements cols ≡ add_fresh (keys_of elements) cols
unfolding all_keys
all_keys-add_fresh [] cols = refl
all_keys-add_fresh (none ∷ elements) cols = all_keys-add_fresh elements cols
all_keys-add_fresh (some fields ∷ elements) cols =
    all_keys-add_fresh elements (add_keys fields cols)
    ∙ ap (add_fresh (keys_of elements)) (add_keys-add_fresh fields cols)
    ∙ sym (add_fresh-append (map (λ p. p.0) fields) (keys_of elements) cols)

abbrev fresh : List Text → Text → Bool
fresh cols c = not (any (λ d. same_text d c) cols)

filter-filter :
    (f g h : Text → Bool) (xs : List Text)
    → ((c : Text) → h c ≡ (g c && f c))
    → filter f (filter g xs) ≡ filter h xs
filter-filter f g h [] e = refl
filter-filter f g h (x ∷ xs) e = ground (arith, e x, filter-filter f g h xs e)

fresh-append :
    (cols : List Text) (k c : Text)
    → fresh (cols ++ k ∷ []) c ≡ (not (same_text k c) && fresh cols c)
fresh-append [] k c = ground arith
fresh-append (d ∷ cols) k c = ground (arith, fresh-append cols k c)

fresh_old :
    (cols : List Text) (k c : Text)
    → any (λ d. same_text d k) cols ≡ true
    → fresh cols c ≡ (not (same_text k c) && fresh cols c)
fresh_old cols k c e = elim (Bool-cases (same_text k c)) [
  | inl same ↦ rw (same, ← same_text_sound k c same, e) refl
  | inr differ ↦ rw differ refl
]

add_fresh-first_of_each :
    (ks cols : List Text) → add_fresh ks cols ≡ cols ++ filter (fresh cols) (first_of_each ks)
add_fresh-first_of_each [] cols = sym (append-nil cols)
add_fresh-first_of_each (k ∷ ks) cols = elim (Bool-cases (any (λ c. same_text c k) cols)) [
  | inl e ↦
      rw
        (
          e,
          filter-filter (fresh cols) _ (fresh cols) (first_of_each ks) (λ c. fresh_old cols k c e),
        )
        (add_fresh-first_of_each ks cols)
  | inr e ↦
      rw (e, filter-filter (fresh cols) _ _ (first_of_each ks) (fresh-append cols k))
        (add_fresh-first_of_each ks (cols ++ k ∷ []) ∙ append_assoc cols _ _)
]

all_fresh : (xs : List Text) → filter (fresh []) xs ≡ xs
all_fresh [] = refl
all_fresh (x ∷ xs) = ap (◌∷◌ x) (all_fresh xs)

all_keys-columns_of : (elements : List Element) → all_keys elements [] ≡ columns_of elements
all_keys-columns_of elements =
    all_keys-add_fresh elements [] ∙ add_fresh-first_of_each (keys_of elements) [] ∙ all_fresh _

cons_row-if :
    (b : Bool) (row : List JsValue) (rows : List (List JsValue))
    → cons_row (some row) (if b then none else some rows) ≡ (if b then none else some (row ∷ rows))
cons_row-if true row rows = refl
cons_row-if false row rows = refl

rows_of-cells :
    (cols : List Text) (elements : List Element)
    → rows_of cols elements ≡ (
        if has_columns cols && any is_null elements then none else some (map (cells cols) elements))
unfolding rows_of
rows_of-cells [] [] = refl
rows_of-cells (c ∷ cols) [] = refl
rows_of-cells [] (none ∷ elements) = rw (rows_of-cells [] elements) refl
rows_of-cells [] (some fields ∷ elements) = rw (rows_of-cells [] elements) refl
rows_of-cells (c ∷ cols) (none ∷ elements) = refl
rows_of-cells (c ∷ cols) (some fields ∷ elements) =
    ap (λ row. cons_row (some row) (rows_of (c ∷ cols) elements))
      (map-value_under fields (c ∷ cols))
    ∙ ap (cons_row (some (map (value_under fields) (c ∷ cols)))) (rows_of-cells (c ∷ cols) elements)
    ∙ cons_row-if (any is_null elements) _ _

with_columns-if :
    (cols : List Text) (b : Bool) (rows : List (List JsValue))
    → with_columns cols (if b then none else some rows)
      ≡ (if b then throws (codes "TypeError") else parsed (record { columns = cols; rows = rows }))
with_columns-if cols true rows = refl
with_columns-if cols false rows = refl

-- A JSON array becomes one row for each element; but it fails if there is a column and some element is
-- `null`. The columns are the keys of the elements in their order, each where it stands first, and a row
-- has under each column the value of the element's first field with that key, or `undefined` if it has none.
pub parse_json-array :
    (elements : List Element)
    → parse_json (array elements) ≡ (
        if has_columns (columns_of elements) && any is_null elements
        then throws (codes "TypeError")
        else parsed (record {
          columns = columns_of elements;
          rows = map (cells (columns_of elements)) elements;
        }))
unfolding parse_json
parse_json-array elements =
    let cols = columns_of elements in
    rw (all_keys-columns_of elements) (
      ap (with_columns cols) (rows_of-cells cols elements)
      ∙ with_columns-if cols (has_columns cols && any is_null elements) (map (cells cols) elements))
