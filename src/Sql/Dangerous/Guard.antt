-- ===== src/Sql/Dangerous/Guard.antt =====
-- What the guard reports, and what escapes it.
use basemaster.Base.{
  ℕ, ◌+◌, ◌==◌, ◌&&◌, ◌≡◌, refl, true, false, some, none, List, [], ◌∷◌, ◌++◌, get_elem?, head?,
  arith,
}
use basemaster.Base.Text.{Text, codes, is_word, is_space, trim, trim_end, keep_inked}
use basemaster.Sql.Mode.{Mode, block, next_is}
use basemaster.Sql.Dangerous.Statements.{next_mode, strip_from, in_comment, strip_comments}
use basemaster.Sql.Dangerous.Detect.{
  delete, DangerousStatement, leading, contains_word, report, extract_table,
}

-- The report `r` is that of the statement at its index, counted from `n`.
abbrev IsReportOf : ℕ → List Text → DangerousStatement → Type 0
IsReportOf n statements r =
    (k : ℕ) × (raw : Text) × (get_elem? statements k ≡ some raw)
    × (r.index ≡ n + k)
    × (report r.index raw ≡ some r)

-- A comment's text holds no `*/`.
abbrev pub HasNoClose : Text → Type 0
HasNoClose [] = Unit
HasNoClose (c ∷ rest) = ((c == b'*' && next_is (head? rest) b'/') ≡ false) × HasNoClose rest

abbrev close : Text → Text
close rest = b'*' ∷ b'/' ∷ rest

strip_from_block :
    (w rest : Text) → HasNoClose w → strip_from block (w ++ close rest) ≡ strip_from Mode.plain rest
unfolding strip_from next_mode in_comment
strip_from_block [] rest h = refl
strip_from_block (c ∷ []) rest h = ground arith
strip_from_block (c ∷ d ∷ w) rest h = ground (arith, strip_from_block (d ∷ w) rest h.1)

-- A WHERE that stands in a comment does not keep a DELETE from being reported, whatever else the
-- comment says: for every text `w` without `*/`, `DELETE FROM t/*w*/` is reported, with its kind, its
-- table and its text.
pub report_of_comment :
    (i : ℕ) (w : Text)
    → HasNoClose w
    → report i (codes "DELETE FROM t/*" ++ (w ++ close []))
      ≡ some (record {
        index = i;
        kind = delete;
        table = some (codes "t");
        sql = trim (codes "DELETE FROM t/*" ++ (w ++ close []));
      })
unfolding report leading contains_word strip_comments trim extract_table
report_of_comment i w h = rw (strip_from_block w [] h)

not-is_space_of_is_word : (c : ℕ) → is_word c ≡ true → is_space c ≡ false
unfolding is_word is_space
not-is_space_of_is_word c h = ground arith

keep_inked_of_is_word :
    (c : ℕ) (rest : Text) → is_word c ≡ true → (t : Text) × (keep_inked c rest ≡ c ∷ t)
unfolding keep_inked
keep_inked_of_is_word c [] h = ([], rw (not-is_space_of_is_word c h))
keep_inked_of_is_word c (d ∷ rest) h = (d ∷ rest, refl)

strip_from_of_is_word :
    (c : ℕ) (rest : Text)
    → is_word c ≡ true
    → strip_from Mode.plain (c ∷ rest) ≡ c ∷ strip_from (next_mode Mode.plain c (head? rest)) rest
unfolding strip_from in_comment is_word
strip_from_of_is_word c rest h = ground arith

leading_of_joined :
    (c : ℕ) (rest : Text) → is_word c ≡ true → leading (trim (codes "DELETE" ++ c ∷ rest)) ≡ none
unfolding leading trim
leading_of_joined c rest word = rw ((keep_inked_of_is_word c (trim_end rest) word).1, word)

strip_delete :
    (w rest : Text)
    → HasNoClose w
    → strip_comments (codes "DELETE/*" ++ (w ++ close rest))
      ≡ codes "DELETE" ++ strip_from Mode.plain rest
unfolding strip_comments
strip_delete w rest h = rw (strip_from_block w rest h)

report_of_leading :
    (i : ℕ) (raw : Text) → leading (trim (strip_comments raw)) ≡ none → report i raw ≡ none
unfolding report
report_of_leading i raw h = rw h

-- A comment between the keyword and the name hides the statement from the guard: for every text `w`
-- without `*/`, a statement that begins `DELETE/*w*/` and goes on with a word character is not
-- reported, though it has no WHERE: `stripComments` leaves nothing in the comment's place, so the
-- keyword and the name read as one word.
pub report_of_joined :
    (i : ℕ) (w : Text) (c : ℕ) (rest : Text)
    → HasNoClose w
    → is_word c ≡ true
    → report i (codes "DELETE/*" ++ (w ++ close (c ∷ rest))) ≡ none
unfolding report
report_of_joined i w c rest h word =
    report_of_leading i (codes "DELETE/*" ++ (w ++ close (c ∷ rest))) (
      rw (strip_delete w (c ∷ rest) h, strip_from_of_is_word c rest word)
        (leading_of_joined c _ word))
