-- ===== src/Sql/Dangerous/Detect.antt =====
-- `detectDangerousStatements`, `extractTable` and `cleanIdent` of lib/dangerous-query.ts, with the
-- regular expressions written out. No two neighbours of these patterns share a character, so the
-- greedy match is the only one.
use basemaster.Base.{
  ℕ, ◌+◌, ◌||◌, Bool, true, false, Option, none, some, List, [], ◌∷◌, ◌==◌, if◌then◌else◌,
}
use basemaster.Base.Text.{
  Text, codes, is_space, is_word, after_word, boundary, skip_spaces, trim, flat_map,
}
use basemaster.Sql.Dangerous.Statements.{split_statements, strip_comments}

pub data Kind : Type 0 where
  update delete : Kind

pub record DangerousStatement : Type 0 where
  pub index : ℕ
  pub kind : Kind
  pub table : Option Text
  pub sql : Text

infixl 5 ◌>>=◌ ◌or◌
abbrev ◌>>=◌ {ℓ κ} : {A : Type ℓ} {B : Type κ} → Option A → (A → Option B) → Option B
none >>= f = none
some a >>= f = f a

abbrev pub ◌or◌ {ℓ} : {A : Type ℓ} → Option A → Option A → Option A
none or b = b
some a or b = some a

-- `word\b`, up to case: what is behind it.
abbrev pub whole_word : Text → Text → Option Text
whole_word word text = do
  rest ← after_word word text
  if boundary true rest then some rest else none

-- `/^\s*(UPDATE|DELETE)\b/i`
unfoldable pub leading : Text → Option Kind
unfolding after_word skip_spaces is_word
leading text =
    (do _ ← whole_word (codes "update") (skip_spaces text); some update)
    or (do _ ← whole_word (codes "delete") (skip_spaces text); some delete)

-- `/\bword\b/i.test(text)`, with the character before `text` in a word or not.
unfoldable pub contains_word : Text → Bool → Text → Bool
unfolding after_word is_word
contains_word word inside [] = false
contains_word word inside (c ∷ text) =
    let later = contains_word word (is_word c) text in
    elim (boundary inside (c ∷ text)) [
      | true ↦ elim (whole_word word (c ∷ text)) [ some _ ↦ true | none ↦ later ]
      | false ↦ later
    ]

-- `\s+`
abbrev spaces : Text → Option Text
spaces [] = none
spaces (c ∷ text) = if is_space c then some (skip_spaces text) else none

-- [`"\w.]
abbrev pub is_name : ℕ → Bool
is_name c = c == b'`' || c == b'"' || is_word c || c == b'.'

span_name : Text → Text × Text
span_name [] = ([], [])
span_name (c ∷ text) =
    let (name, rest) = span_name text in if is_name c then (c ∷ name, rest) else ([], c ∷ text)

-- [`"\w.]+
name_of : Text × Text → Option (Text × Text)
name_of ([], rest) = none
name_of (c ∷ name, rest) = some (c ∷ name, rest)

-- `raw.replace(/[`"]/g, "")`
unfoldable pub clean_ident : Text → Text
unfolding flat_map
clean_ident raw = flat_map (λ c. if c == b'`' || c == b'"' then [] else c ∷ []) raw

unfoldable pub extract_table : Kind → Text → Option Text
unfolding span_name name_of clean_ident after_word skip_spaces
extract_table update stripped = do
  rest ← after_word (codes "update") (skip_spaces stripped)
  rest ← spaces rest
  (name, _) ← name_of (span_name rest)
  some (clean_ident name)
extract_table delete stripped =
    (do
      rest ← after_word (codes "delete") (skip_spaces stripped)
      rest ← spaces rest
      rest ← after_word (codes "from") rest
      rest ← spaces rest
      (name, _) ← name_of (span_name rest)
      some (clean_ident name))
    or (do
      rest ← after_word (codes "delete") (skip_spaces stripped)
      rest ← spaces rest
      (_, rest) ← name_of (span_name rest)
      rest ← spaces rest
      rest ← after_word (codes "from") rest
      rest ← spaces rest
      (name, _) ← name_of (span_name rest)
      some (clean_ident name))

-- The body of the `forEach`: the statement's report, if it is risky.
unfoldable pub report : ℕ → Text → Option DangerousStatement
report index raw =
    let stripped = trim (strip_comments raw) in
    do
      kind ← leading stripped
      if contains_word (codes "where") false stripped
          then none
          else some (record {
            index = index;
            kind = kind;
            table = extract_table kind stripped;
            sql = trim raw;
          })

abbrev pub push_some {ℓ} : {A : Type ℓ} → Option A → List A → List A
push_some none later = later
push_some (some a) later = a ∷ later

unfoldable pub reports_from : ℕ → List Text → List DangerousStatement
reports_from index [] = []
reports_from index (raw ∷ statements) =
    push_some (report index raw) (reports_from (index + 1) statements)

unfoldable pub detect_dangerous_statements : Text → List DangerousStatement
detect_dangerous_statements sql = reports_from 0 (split_statements sql)
