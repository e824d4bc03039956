-- ===== src/Sql/ReadOnly/Sound.antt =====
-- Soundness of the read-only check: what no accepted query can hold, outside its literals.
use mathlib.Core.List.{Memᴰ}
use basemaster.Base.{
  ℕ, ◌≡◌, ◌≢◌, refl, Bool, true, false, Option, some, none, List, [], ◌∷◌, ◌++◌, arith, any, not,
  Bool-cases, Option-cases, inl, inr, ◌==◌,
}
use basemaster.Base.Text.{Text, codes, boundary, is_word, skip_spaces, has_ink}
use basemaster.Sql.Dangerous.Detect.{whole_word}
use basemaster.Sql.Dangerous.Words.{
  ends_in_word, starts_in_word, BeginsWith, StandsIn, stands_at_character, whole_word-BeginsWith,
}
use basemaster.Sql.Literals.{is_some}
use basemaster.Sql.ReadOnly.Code.{Reads}
use basemaster.Sql.ReadOnly.Stripped.{strip_sql_literals-Reads}
use basemaster.Sql.ReadOnly.{
  ok, is_multi, after_semi, word_at, find_word, write_words, starts_read_only, check_stripped,
  no_write, assert_read_only_sql,
}

word_at_ne :
    (words : List Text) (word text : Text) {behind : Text}
    → Memᴰ word words
    → whole_word word text ≡ some behind
    → word_at words text ≢ none
unfolding word_at
word_at_ne [] word text m h = elim m [ ]
word_at_ne (w ∷ words) word text (Memᴰ.head e) h = rw (← e, h) cc
word_at_ne (w ∷ words) word text (Memᴰ.tail m) h = ground (arith, word_at_ne words word text m h)

find_word-none :
    (words : List Text) (inside : Bool) (before : Text) (d : ℕ) (rest : Text)
    → find_word words inside (before ++ d ∷ rest) ≡ none
    → boundary (ends_in_word inside before) (d ∷ rest) ≡ true
    → word_at words (d ∷ rest) ≡ none
unfolding find_word
find_word-none words inside [] d rest h b = ground arith
find_word-none words inside (c ∷ before) d rest h b =
    find_word-none words (is_word c) before d rest (ground arith) b

inked_semi : (before behind : Text) → has_ink (before ++ b';' ∷ behind) ≢ false
unfolding has_ink
inked_semi [] behind = cc
inked_semi (c ∷ before) behind = ground (arith, inked_semi before behind)

after_semi-append :
    (before behind : Text)
    → (text : Text) × (after_semi (before ++ b';' ∷ behind) ≡ some text)
      × (has_ink text ≡ false → has_ink behind ≡ false)
unfolding after_semi has_ink
after_semi-append [] behind = (behind, refl, λ h. h)
after_semi-append (c ∷ before) behind = elim (Bool-cases (c == b';')) [
  | inl e ↦ (before ++ b';' ∷ behind, rw e, λ h. absurd (inked_semi before behind h))
  | inr e ↦ let (text, at, h) = after_semi-append before behind in (text, rw e at, h)
]

-- The words that a read-only query begins with.
abbrev pub reading : List Text
reading =
    codes "select"
    ∷ codes "show"
    ∷ codes "explain"
    ∷ codes "describe"
    ∷ codes "desc"
    ∷ codes "with"
    ∷ codes "table"
    ∷ codes "values"
    ∷ []

-- The words that it must not have.
abbrev pub writing : List Text
writing =
    codes "insert"
    ∷ codes "update"
    ∷ codes "delete"
    ∷ codes "drop"
    ∷ codes "alter"
    ∷ codes "create"
    ∷ codes "truncate"
    ∷ codes "replace"
    ∷ codes "merge"
    ∷ codes "upsert"
    ∷ codes "grant"
    ∷ codes "revoke"
    ∷ codes "rename"
    ∷ codes "call"
    ∷ codes "copy"
    ∷ codes "load"
    ∷ codes "into"
    ∷ codes "attach"
    ∷ codes "detach"
    ∷ codes "vacuum"
    ∷ codes "reindex"
    ∷ codes "cluster"
    ∷ codes "comment"
    ∷ codes "prepare"
    ∷ codes "deallocate"
    ∷ codes "execute"
    ∷ codes "exec"
    ∷ codes "begin"
    ∷ codes "commit"
    ∷ codes "rollback"
    ∷ codes "savepoint"
    ∷ codes "lock"
    ∷ codes "unlock"
    ∷ codes "set"
    ∷ []

-- What the code of a query is that the check accepts.
pub record IsReadOnly (code : Text) : Type 0 where
  pub single : (before behind : Text) → code ≡ before ++ b';' ∷ behind → has_ink behind ≡ false
  pub reads : (word : Text) × Memᴰ word reading × BeginsWith word (skip_spaces code)
  pub writes_nothing : (word : Text) → Memᴰ word writing → ¬ StandsIn word code

word_at_some :
    (words : List Text) (text : Text)
    → is_some (word_at words text) ≡ true
    → (word : Text) × Memᴰ word words × BeginsWith word text
unfolding word_at
word_at_some [] text h = absurd (cc h)
word_at_some (w ∷ words) text h = elim (Option-cases (whole_word w text)) [
  | inl n ↦ let (word, m, b) = word_at_some words text (rw n at h) in (word, Memᴰ.tail m, b)
  | inr (behind, e) ↦ (w, Memᴰ.head refl, whole_word-BeginsWith w text behind e)
]

starts_in_word_of :
    (words : List Text) (word : Text)
    → any (λ w. not (starts_in_word w)) words ≡ false
    → Memᴰ word words
    → starts_in_word word ≡ true
starts_in_word_of [] word h m = elim m [ ]
starts_in_word_of (w ∷ words) word h (Memᴰ.head e) = rw e (ground (arith, h))
starts_in_word_of (w ∷ words) word h (Memᴰ.tail m) =
    starts_in_word_of words word (ground (arith, h)) m

writing_start : any (λ w. not (starts_in_word w)) writing ≡ false
unfolding is_word
writing_start = refl

is_multi-false :
    (stripped before behind : Text)
    → is_multi stripped ≡ false
    → stripped ≡ before ++ b';' ∷ behind
    → has_ink behind ≡ false
unfolding is_multi
is_multi-false stripped before behind h e =
    let (text, at, back) = after_semi-append before behind in back (rw (e, at) at h)

no_write_ok : (o : Option Text) → no_write o ≡ ok → o ≡ none
no_write_ok none h = refl
no_write_ok (some word) h = absurd (cc)

check_stripped_ok :
    (text : Text)
    → check_stripped text ≡ ok
    → (is_multi text ≡ false)
      × (starts_read_only text ≡ true)
      × (find_word write_words false text ≡ none)
unfolding check_stripped
check_stripped_ok text h = ground (arith, no_write_ok (find_word write_words false text))

check_stripped-IsReadOnly : (code : Text) → check_stripped code ≡ ok → IsReadOnly code
check_stripped-IsReadOnly code h = record {
  single = λ before behind. is_multi-false code before behind (check_stripped_ok code h).0;
  reads =
      word_at_some reading (skip_spaces code)
        (unfold starts_read_only in (check_stripped_ok code h).1);
  writes_nothing = λ word m s.
      let (before, d, rest, behind, e, b, k) =
        stands_at_character word (starts_in_word_of writing word writing_start m) code s in
      word_at_ne writing word (d ∷ rest) m k
        (find_word-none writing false before d rest (rw e at ((check_stripped_ok code h).2)) b);
}

-- Soundness of `assertReadOnlySql`: if it lets a query through, then for the code of the query, which is
-- what stays of it when each comment and each literal is taken out: nothing but white space stands behind
-- any semicolon, the code begins with a word of a read-only statement, behind white space, and none of
-- the words that write stands anywhere in it as a whole word, in any case. The query is made of `--` and
-- `/* */` comments, closed or not, of closed quotations by `'`, `"` or a backtick, of dollar quotations
-- without a `$` in their text, and of characters that begin none of these.
pub assert_read_only_sql-IsReadOnly :
    (sql code : Text) → Reads sql code → assert_read_only_sql sql ≡ ok → IsReadOnly code
unfolding assert_read_only_sql
assert_read_only_sql-IsReadOnly sql code r h =
    check_stripped-IsReadOnly code (rw (strip_sql_literals-Reads r) at h)
