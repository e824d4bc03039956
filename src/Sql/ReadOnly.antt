-- ===== src/Sql/ReadOnly.antt =====
-- lib/sql-readonly.ts: the read-only check of the AI agent's queries.
pub mod Laws
pub mod Code
pub mod Stripped
pub mod Sound
use basemaster.Base.{
  ℕ, zero, suc, ◌+◌, ◌-◌, ◌&&◌, ◌||◌, not, Bool, true, false, Option, none, some, List, [], ◌∷◌,
  ◌++◌, length, head?, drop, map, leb, ◌==◌, if◌then◌else◌,
}
use basemaster.Base.Text.{Text, codes, is_word, after_word, boundary, skip_spaces, has_ink, upper}
use basemaster.Sql.Mode.{next_is}
use basemaster.Sql.Dangerous.Detect.{whole_word, ◌or◌}
use basemaster.Sql.Literals.{strip_sql_literals, is_some}

pub data Refusal : Type 0 where
  multi_statement not_read_only : Refusal
  write_keyword : Text → Refusal

pub data Outcome : Type 0 where
  ok : Outcome
  err : Refusal → Outcome

-- What stands behind the first `;`: `text.slice(text.indexOf(";") + 1)`, if there is one.
unfoldable pub after_semi : Text → Option Text
after_semi [] = none
after_semi (c ∷ text) = let later = after_semi text in if c == b';' then some text else later

abbrev more_ink : Option Text → Bool
more_ink none = false
more_ink (some text) = has_ink text

-- Both of `assertSingleStatement` and the first test of `assertReadOnlySql`.
unfoldable pub is_multi : Text → Bool
unfolding after_semi
is_multi stripped = more_ink (after_semi stripped)

unfoldable pub assert_single_statement : Text → Outcome
unfolding is_multi strip_sql_literals
assert_single_statement sql = if is_multi (strip_sql_literals sql) then err multi_statement else ok

abbrev starts : List Text
starts =
    codes "select"
    ∷ codes "show"
    ∷ codes "explain"
    ∷ codes "describe"
    ∷ codes "desc"
    ∷ codes "with"
    ∷ codes "table"
    ∷ codes "values"
    ∷ []

-- The words of WRITE_KEYWORD
abbrev pub write_words : List Text
write_words =
    codes "insert"
    ∷ codes "update"
    ∷ codes "delete"
    ∷ codes "drop"
    ∷ codes "alter"
    ∷ codes "create"
    ∷ codes "truncate"
    ∷ codes "replace"
    ∷ codes "merge"
    ∷ codes "upsert"
    ∷ codes "grant"
    ∷ codes "revoke"
    ∷ codes "rename"
    ∷ codes "call"
    ∷ codes "copy"
    ∷ codes "load"
    ∷ codes "into"
    ∷ codes "attach"
    ∷ codes "detach"
    ∷ codes "vacuum"
    ∷ codes "reindex"
    ∷ codes "cluster"
    ∷ codes "comment"
    ∷ codes "prepare"
    ∷ codes "deallocate"
    ∷ codes "execute"
    ∷ codes "exec"
    ∷ codes "begin"
    ∷ codes "commit"
    ∷ codes "rollback"
    ∷ codes "savepoint"
    ∷ codes "lock"
    ∷ codes "unlock"
    ∷ codes "set"
    ∷ []

-- The first of the words that `text` begins with, as a whole word.
unfoldable pub word_at : List Text → Text → Option Text
unfolding after_word is_word
word_at [] text = none
word_at (word ∷ words) text =
    let later = word_at words text in if is_some (whole_word word text) then some word else later

-- `/\b(words)\b/i.exec(text)`, with the character before `text` in a word or not.
unfoldable pub find_word : List Text → Bool → Text → Option Text
unfolding word_at
find_word words inside [] = none
find_word words inside (c ∷ text) =
    let later = find_word words (is_word c) text in
    if boundary inside (c ∷ text) then word_at words (c ∷ text) or later else later

-- READ_ONLY_START
unfoldable pub starts_read_only : Text → Bool
unfolding word_at skip_spaces
starts_read_only text = is_some (word_at starts (skip_spaces text))

abbrev pub no_write : Option Text → Outcome
no_write none = ok
no_write (some word) = err (write_keyword (map upper word))

-- The tests of `assertReadOnlySql`, on the stripped text.
unfoldable pub check_stripped : Text → Outcome
check_stripped stripped =
    if is_multi stripped
    then err multi_statement
    else if not (starts_read_only stripped)
    then err not_read_only
    else no_write (find_word write_words false stripped)

unfoldable pub assert_read_only_sql : Text → Outcome
assert_read_only_sql sql = check_stripped (strip_sql_literals sql)
