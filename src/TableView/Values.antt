-- ===== src/TableView/Values.antt =====
-- The text of a cell's value in the editor of components/table/table-view.tsx, and the value that a
-- typed text stands for. `JSON.parse` and `JSON5.parse` are parameters: from a text to the JSON text of
-- what they read, or none where they throw.
use basemaster.Base.{
  ◌≡◌, refl, Bool, true, false, ◌||◌, Option, none, some, [], ◌∷◌, ◌++◌, length, if◌then◌else◌,
}
use basemaster.Base.Text.{Text, codes, same_text, lower, trim, flat_map, decimal}
use basemaster.Base.Json.{json_string}
use basemaster.Types.{
  Value, null, bool, int, u_int, float, decimal as decimal_value, string, date, time, date_time,
  timestamp, bytes, json, Column, boolean, json as json_type,
}
use basemaster.TableView.{Intent, edit_intent, null_intent, empty_intent}

-- A number and a JSON value are their texts already.
unfoldable pub format_value_for_edit : Value → Text
unfolding decimal
format_value_for_edit null = []
format_value_for_edit (string v) = v
format_value_for_edit (decimal_value v) = v
format_value_for_edit (date v) = v
format_value_for_edit (time v) = v
format_value_for_edit (date_time v) = v
format_value_for_edit (timestamp v) = v
format_value_for_edit (bool true) = codes "1"
format_value_for_edit (bool false) = codes "0"
format_value_for_edit (int v) = v
format_value_for_edit (u_int v) = v
format_value_for_edit (float v) = v
format_value_for_edit (json v) = v
format_value_for_edit (bytes v) = codes "[" ++ decimal (length v) ++ codes " bytes]"

-- The kinds of columns that `textToValue` tells apart.
pub data EditKind : Type 0 where
  as_json as_boolean as_text : EditKind

abbrev pub kind_of : Option Column → EditKind
kind_of none = as_text
kind_of (some c) = elim c.column_type [ json_type ↦ as_json | boolean ↦ as_boolean | _ ↦ as_text ]

module _ (json_parse json5_parse : Text → Option Text) where
  abbrev pub or_wrapped : Text → Option Text → Option Text → Value
  or_wrapped text (some strict) loose = json strict
  or_wrapped text none (some loose) = json loose
  or_wrapped text none none = json (json_string text)

  -- A text that says a Boolean, and is a string otherwise.
  unfoldable pub bool_or_string : Text → Text → Value
  bool_or_string text t =
      if same_text t (codes "true") || same_text t (codes "1")
      then bool true
      else if same_text t (codes "false") || same_text t (codes "0")
      then bool false
      else string text

  abbrev pub kind_to_value : EditKind → Text → Value
  kind_to_value as_json text = or_wrapped text (json_parse text) (json5_parse text)
  kind_to_value as_boolean text = bool_or_string text (flat_map (λ c. lower c ∷ []) (trim text))
  kind_to_value as_text text = string text

  unfoldable pub text_to_value : Text → EditKind → Value
  unfolding bool_or_string json_string trim lower flat_map
  text_to_value [] kind = null
  text_to_value (c ∷ text) kind = kind_to_value kind (c ∷ text)

  unfoldable pub intent_to_value : Intent → Text → EditKind → Value
  unfolding text_to_value
  intent_to_value null_intent text kind = null
  intent_to_value empty_intent text kind = string []
  intent_to_value edit_intent text kind = text_to_value text kind

  -- Values that a column of this kind holds and that the editor can write: no empty text.
  unfoldable pub fits : Value → EditKind → Bool
  fits null kind = true
  fits (bool b) as_boolean = true
  fits (string (c ∷ text)) as_text = true
  fits (json (c ∷ text)) as_json = true
  fits _ _ = false

  -- A value that fits its column, opened in the editor and saved unchanged, is the same value, if the
  -- parser reads a JSON text that was printed as what it is.
  pub text_to_value-format_value_for_edit :
      (v : Value) (kind : EditKind)
      → fits v kind ≡ true
      → ((text : Text) → v ≡ json text → json_parse text ≡ some text)
      → text_to_value (format_value_for_edit v) kind ≡ v
  unfolding fits text_to_value format_value_for_edit bool_or_string same_text
  text_to_value-format_value_for_edit null kind h p = refl
  text_to_value-format_value_for_edit (bool true) as_boolean h p = refl
  text_to_value-format_value_for_edit (bool false) as_boolean h p = refl
  text_to_value-format_value_for_edit (string (c ∷ text)) as_text h p = refl
  text_to_value-format_value_for_edit (json (c ∷ text)) as_json h p = rw (p (c ∷ text) refl) refl
  text_to_value-format_value_for_edit _ _ h p = absurd (cc h)
