-- ===== src/Sql/ReadOnly/Laws.antt =====
-- What the read-only check makes sure of, and what it lets through.
use basemaster.Base.{ℕ, ◌==◌, ◌≡◌, refl, false, [], ◌∷◌, ◌++◌, head?, arith}
use basemaster.Base.Text.{Text, codes}
use basemaster.Sql.Mode.{next_is}
use basemaster.Sql.Literals.{Mode, quoted, next_mode, round_out, strip_from, strip_sql_literals}
use basemaster.Sql.ReadOnly.{
  ok, is_multi, find_word, starts_read_only, check_stripped, assert_read_only_sql,
}

abbrev pub HasNo : ℕ → Text → Type 0
HasNo q [] = Unit
HasNo q (c ∷ rest) = ((c == q) ≡ false) × HasNo q rest

strip_from-quoted :
    (q : ℕ) (w rest : Text)
    → HasNo q w
    → next_is (head? rest) q ≡ false
    → strip_from (quoted q) (w ++ q ∷ rest) ≡ strip_from Mode.plain rest
unfolding strip_from next_mode round_out
strip_from-quoted q [] rest h e = ground arith
strip_from-quoted q (c ∷ w) rest h e = ground (arith, strip_from-quoted q w rest h.1 e)

-- What a string literal says does not matter to the check: for every text `w` without the quote
-- `'`, a literal `'w'` is stripped to one space, and the text behind it is read as if it stood alone.
pub strip_from_literal :
    (w rest : Text)
    → HasNo b'\'' w
    → next_is (head? rest) b'\'' ≡ false
    → strip_from Mode.plain (b'\'' ∷ (w ++ b'\'' ∷ rest)) ≡ b' ' ∷ strip_from Mode.plain rest
unfolding strip_from next_mode round_out
strip_from_literal w rest h e = rw (strip_from-quoted b'\'' w rest h e)

-- A backslash in front of a quote escapes it in MySQL, and not for this check. So whatever `w` is,
-- a `DELETE` of all rows among it, `SELECT '\'' w'` counts as a read-only query, if `w` has no quote.
pub assert_read_only_sql_backslash :
    (w : Text)
    → HasNo b'\'' w
    → assert_read_only_sql (codes "SELECT '\\'' " ++ (w ++ b'\'' ∷ [])) ≡ ok
unfolding assert_read_only_sql check_stripped strip_sql_literals is_multi starts_read_only find_word
assert_read_only_sql_backslash w h = rw (strip_from-quoted b'\'' w [] h refl)
