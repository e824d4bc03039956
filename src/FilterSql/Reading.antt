-- ===== src/FilterSql/Reading.antt =====
-- What a reader of SQL makes of the names, literals and LIKE patterns that lib/build-table-sql.ts
-- writes. The readers are a specification, of the standard and of MySQL: no code of the program.
use basemaster.Base.{
  ℕ, ◌==◌, ◌≡◌, refl, Bool, true, false, Option, some, none, List, [], ◌∷◌, ◌++◌, head?, arith,
  if◌then◌else◌, Bool-cases, inl, inr,
}
use basemaster.Base.Text.{Text, flat_map}
use mathlib.Core.List.{append_assoc}
use basemaster.Sql.Mode.{next_is}
use basemaster.FilterSql.Quote.{Dialect, mysql, double, mark, quoted, ident, quote_string}

-- What a literal says, and the text behind it.
abbrev Read : Type 0
Read = Option (Text × Text)

abbrev push : ℕ → Read → Read
push c none = none
push c (some r) = some (c ∷ r.0, r.1)

-- The inside of a literal that ends at a `q` that is not doubled; `pending` behind a `q`.
unfoldable pub read_doubled : ℕ → Bool → Text → Read
read_doubled q false [] = none
read_doubled q true [] = some ([], [])
read_doubled q false (c ∷ s) =
    if c == q then read_doubled q true s else push c (read_doubled q false s)
read_doubled q true (c ∷ s) = if c == q then push q (read_doubled q false s) else some ([], c ∷ s)

unfoldable pub read_literal : ℕ → Text → Read
unfolding read_doubled
read_literal q [] = none
read_literal q (c ∷ s) = if c == q then read_doubled q false s else none

read_end :
    (q : ℕ) (rest : Text)
    → next_is (head? rest) q ≡ false
    → read_doubled q true rest ≡ some ([], rest)
unfolding read_doubled
read_end q [] e = refl
read_end q (c ∷ rest) e = ground arith

double_hit : (q c : ℕ) (s : Text) → (c == q) ≡ true → double q (c ∷ s) ≡ q ∷ q ∷ double q s
unfolding double flat_map
double_hit q c s e = rw e refl

double_miss : (q c : ℕ) (s : Text) → (c == q) ≡ false → double q (c ∷ s) ≡ c ∷ double q s
unfolding double flat_map
double_miss q c s e = rw e refl

eq_self : (q : ℕ) → (q == q) ≡ true
eq_self q = ground arith

eq_to : (q c : ℕ) → (c == q) ≡ true → q ≡ c
eq_to q c e = ground arith

read_double :
    (q : ℕ) (s rest : Text)
    → next_is (head? rest) q ≡ false
    → read_doubled q false (double q s ++ q ∷ rest) ≡ some (s, rest)
unfolding read_doubled double
read_double q [] rest e = rw (eq_self q) (read_end q rest e)
read_double q (c ∷ s) rest e = elim (Bool-cases (c == q)) [
  | inl h ↦ rw (double_hit q c s h, eq_self q, read_double q s rest e, eq_to q c h) refl
  | inr h ↦ rw (double_miss q c s h, h, read_double q s rest e) refl
]

pub read_quoted :
    (q : ℕ) (s rest : Text)
    → next_is (head? rest) q ≡ false
    → read_literal q (quoted q s ++ rest) ≡ some (s, rest)
unfolding read_literal
read_quoted q s rest e =
    rw (eq_self q, append_assoc (double q s) (q ∷ []) rest) (read_double q s rest e)

-- Whatever name or value is quoted, a reader of standard SQL reads back that name or value and ends
-- where the quoting ends: a name in its marks, and a value in `'`, if no such mark comes right behind.
pub read_literal-ident :
    (dialect : Dialect) (s rest : Text)
    → next_is (head? rest) (mark dialect) ≡ false
    → next_is (head? rest) b'\'' ≡ false
    → (read_literal (mark dialect) (ident dialect s ++ rest) ≡ some (s, rest))
      × (read_literal b'\'' (quote_string s dialect ++ rest) ≡ some (s, rest))
unfolding ident quote_string
read_literal-ident dialect s rest e e' =
    (read_quoted (mark dialect) s rest e, read_quoted b'\'' s rest e')

-- The inside of a literal as MySQL reads it: a backslash takes the next character as it is.
unfoldable pub read_escaped : Bool → Bool → Text → Read
read_escaped true pending [] = none
read_escaped true pending (c ∷ s) = push c (read_escaped false false s)
read_escaped false false [] = none
read_escaped false true [] = some ([], [])
read_escaped false false (c ∷ s) =
    if c == b'\\'
    then read_escaped true false s
    else if c == b'\''
    then read_escaped false true s
    else push c (read_escaped false false s)
read_escaped false true (c ∷ s) =
    if c == b'\'' then push c (read_escaped false false s) else some ([], c ∷ s)

unfoldable pub read_mysql : Text → Read
unfolding read_escaped
read_mysql [] = none
read_mysql (c ∷ s) = if c == b'\'' then read_escaped false false s else none

-- A value that starts with a backslash and a quote leaves its literal in MySQL: if the character `c`
-- behind them is no quote, MySQL reads the value `'` and takes the rest of the value, `c` and `s`, for SQL.
pub read_mysql-quote_string :
    (c : ℕ) (s rest : Text)
    → (c == b'\'') ≡ false
    → read_mysql (quote_string (b'\\' ∷ b'\'' ∷ c ∷ s) mysql ++ rest)
      ≡ some (b'\'' ∷ [], c ∷ (double b'\'' s ++ (b'\'' ∷ rest)))
unfolding read_mysql quote_string double flat_map
read_mysql-quote_string c s rest e = rw e (rw e (simp append_assoc))

pub data LikeToken : Type 0 where
  char : ℕ → LikeToken
  any_char any_text : LikeToken

abbrev pub like_token : ℕ → LikeToken
like_token c = if c == b'_' then any_char else if c == b'%' then any_text else char c

-- A LIKE pattern whose escape character is the backslash; the flag is set behind one.
unfoldable pub like_tokens : Bool → Text → List LikeToken
like_tokens false [] = []
like_tokens true [] = char b'\\' ∷ []
like_tokens true (c ∷ s) = char c ∷ like_tokens false s
like_tokens false (c ∷ s) =
    if c == b'\\' then like_tokens true s else like_token c ∷ like_tokens false s
