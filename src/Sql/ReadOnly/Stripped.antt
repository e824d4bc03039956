-- ===== src/Sql/ReadOnly/Stripped.antt =====
-- `stripSqlLiterals` of lib/sql-readonly.ts on each piece of an SQL text.
use mathlib.Core.List.{append_assoc}
use basemaster.Base.{
  ℕ, zero, suc, ◌+◌, ◌-◌, ◌==◌, ◌≡◌, refl, sym, ap, ◌∙◌, true, false, [], ◌∷◌, ◌++◌, drop, length,
  All, arith, some, none, inl, inr, Bool-cases, length-append,
}
use basemaster.Base.Text.{Text, is_word}
use basemaster.Sql.Literals.{
  Mode, line, block, span_word, closing_dollar, dollar_tag, starts_with, index_of, dollar_length,
  dollar_mode, dollar_out, backtick, quoted, skip, next_mode, round_out, strip_from,
  strip_sql_literals,
}
use basemaster.Sql.ReadOnly.Code.{
  Lacks, LacksClose, doubled, begins_with, is_name_start, is_plain, IsTagName, Reads, ends,
  plain_character, line_comment, last_line_comment, block_comment, open_block_comment, quotation,
  quoted_name, backtick_name, dollar_quotation,
}

strip_from-line :
    (w rest : Text)
    → Lacks b'\n' w
    → strip_from line (w ++ b'\n' ∷ rest) ≡ b'\n' ∷ strip_from Mode.plain rest
unfolding strip_from next_mode round_out
strip_from-line [] rest h = refl
strip_from-line (c ∷ w) rest (h, hs) = ground (arith, h, strip_from-line w rest hs)

strip_from_last_line : (w : Text) → Lacks b'\n' w → strip_from line w ≡ []
unfolding strip_from next_mode round_out
strip_from_last_line [] h = refl
strip_from_last_line (c ∷ w) (h, hs) = ground (arith, h, strip_from_last_line w hs)

strip_from-block :
    (w rest : Text)
    → LacksClose (w ++ b'*' ∷ [])
    → strip_from block (w ++ b'*' ∷ b'/' ∷ rest) ≡ strip_from Mode.plain rest
unfolding strip_from next_mode round_out
strip_from-block [] rest h = refl
strip_from-block (c ∷ []) rest h = ground (arith, h)
strip_from-block (c ∷ d ∷ w) rest (h, hs) = ground (arith, h, strip_from-block (d ∷ w) rest hs)

strip_from_open_block : (w : Text) → LacksClose w → strip_from block w ≡ []
unfolding strip_from next_mode round_out
strip_from_open_block [] h = refl
strip_from_open_block (c ∷ []) h = ground arith
strip_from_open_block (c ∷ d ∷ w) (h, hs) = ground (arith, h, strip_from_open_block (d ∷ w) hs)

strip_from-doubled :
    (q : ℕ) (w rest : Text)
    → begins_with q rest ≡ false
    → strip_from (quoted q) (doubled q w ++ q ∷ rest) ≡ strip_from Mode.plain rest
unfolding strip_from next_mode round_out
strip_from-doubled q [] [] h = ground arith
strip_from-doubled q [] (d ∷ rest) h = ground (arith, h)
strip_from-doubled q (c ∷ w) rest h = elim (Bool-cases (c == q)) [
  | inl e ↦ rw e (ground (arith, strip_from-doubled q w rest h))
  | inr e ↦ rw e (ground (arith, e, strip_from-doubled q w rest h))
]

strip_from-backtick :
    (w rest : Text)
    → Lacks b'`' w
    → strip_from backtick (w ++ b'`' ∷ rest) ≡ strip_from Mode.plain rest
unfolding strip_from next_mode round_out
strip_from-backtick [] rest h = refl
strip_from-backtick (c ∷ w) rest (h, hs) = ground (arith, h, strip_from-backtick w rest hs)

span_word-append :
    (xs rest : Text)
    → All (λ d. is_word d ≡ true) xs
    → span_word (xs ++ b'$' ∷ rest) ≡ (xs, b'$' ∷ rest)
unfolding span_word is_word
span_word-append [] rest h = refl
span_word-append (c ∷ xs) rest (h, hs) = rw (h, span_word-append xs rest hs) refl

dollar_tag-append :
    (name rest : Text)
    → IsTagName name
    → dollar_tag (name ++ b'$' ∷ rest) ≡ some (b'$' ∷ (name ++ b'$' ∷ []))
unfolding dollar_tag closing_dollar
dollar_tag-append [] rest h = unfold is_word in refl
dollar_tag-append (c ∷ name) rest (digit, word) =
    rw (word.0, digit, span_word-append (c ∷ name) rest word) refl

-- A dollar quotation: its tag is read, the next place of the tag is found, and all of it is skipped.
module _ (name : Text) where
  abbrev tag : Text
  tag = b'$' ∷ (name ++ b'$' ∷ [])

  starts_with-append : (xs rest : Text) → starts_with xs (xs ++ rest) ≡ true
  unfolding starts_with
  starts_with-append [] rest = refl
  starts_with-append (c ∷ xs) rest = ground (arith, starts_with-append xs rest)

  index_of-append :
      (w rest : Text) → Lacks b'$' w → index_of tag (w ++ (tag ++ rest)) ≡ some (length w)
  unfolding index_of starts_with
  index_of-append [] rest h = rw (starts_with-append (name ++ b'$' ∷ []) rest) refl
  index_of-append (c ∷ w) rest (h, hs) =
      let apart : (b'$' == c) ≡ false = ground (arith, h) in
      rw (apart, index_of-append w rest hs) refl

drop-length :
    (xs : Text) (d : ℕ) (ys : Text) (n : ℕ) → n ≡ length xs + 1 → drop n (xs ++ d ∷ ys) ≡ ys
drop-length xs d ys zero h = absurd (omega (arith, h))
drop-length [] d ys (suc zero) h = refl
drop-length [] d ys (suc (suc n)) h = absurd (omega (arith, h))
drop-length (x ∷ xs) d ys (suc n) h = drop-length xs d ys n (omega (arith, h))

strip_from-skip :
    (xs rest : Text) (n m : ℕ)
    → m ≡ length xs + n
    → strip_from (skip m) (xs ++ rest) ≡ strip_from (skip n) rest
unfolding strip_from next_mode round_out
strip_from-skip [] rest n m h = ap (λ k. strip_from (skip k) rest) (omega (arith, h))
strip_from-skip (x ∷ xs) rest n zero h = absurd (omega (arith, h))
strip_from-skip (x ∷ xs) rest n (suc m) h = strip_from-skip xs rest n m (omega (arith, h))

dollar_length_found :
    (whole rest : Text) (k : ℕ)
    → index_of whole (drop (length whole - 1) rest) ≡ some k
    → dollar_length whole rest ≡ length whole - 1 + (k + length whole)
unfolding dollar_length
dollar_length_found whole rest k h =
    ap (λ o. elim o [ none ↦ length rest | some k ↦ length whole - 1 + (k + length whole) ]) h

next_mode-dollar :
    (rest whole : Text)
    → dollar_tag rest ≡ some whole
    → next_mode Mode.plain b'$' rest ≡ skip (dollar_length whole rest - 1)
unfolding next_mode
next_mode-dollar rest whole h = ap (λ o. dollar_mode o rest) h

round_out-dollar :
    (rest whole : Text) → dollar_tag rest ≡ some whole → round_out Mode.plain b'$' rest ≡ b' ' ∷ []
unfolding round_out
round_out-dollar rest whole h = ap (λ o. dollar_out o b'$') h

module _ (name w rest : Text) (h : IsTagName name) (apart : Lacks b'$' w) where
  abbrev behind : Text
  behind = name ++ b'$' ∷ (w ++ b'$' ∷ (name ++ b'$' ∷ rest))

  length-tag : length (tag name) ≡ length name + 2
  length-tag = omega (arith, length-append {0} name (b'$' ∷ []))

  index_of-tag : index_of (tag name) (drop (length (tag name) - 1) behind) ≡ some (length w)
  index_of-tag =
      ap (index_of (tag name)) (
        drop-length name b'$' (w ++ b'$' ∷ (name ++ b'$' ∷ rest)) (length (tag name) - 1)
          (omega (arith, length-tag))
        ∙ ap (λ t. w ++ b'$' ∷ t) (sym (append_assoc name (b'$' ∷ []) rest)))
      ∙ index_of-append name w rest apart

  dollar_length-tag :
      dollar_length (tag name) behind ≡ length name + suc (length w + suc (length name)) + 1
  dollar_length-tag =
      dollar_length_found (tag name) behind (length w) index_of-tag ∙ omega (arith, length-tag)

  strip_from_skipped :
      strip_from (skip (dollar_length (tag name) behind - 1)) behind ≡ strip_from Mode.plain rest
  unfolding strip_from next_mode round_out
  strip_from_skipped =
      strip_from-skip name _ (suc (length w + suc (length name))) _
        (omega (arith, dollar_length-tag))
      ∙ strip_from-skip w _ (suc (length name)) _ refl
      ∙ strip_from-skip name _ 0 _ (omega arith)

  strip_from-dollar : strip_from Mode.plain (b'$' ∷ behind) ≡ b' ' ∷ strip_from Mode.plain rest
  unfolding strip_from
  strip_from-dollar =
      let tagged = dollar_tag-append name (w ++ b'$' ∷ (name ++ b'$' ∷ rest)) h in
      rw (round_out-dollar behind (tag name) tagged, next_mode-dollar behind (tag name) tagged)
        (ap (◌∷◌ b' ') strip_from_skipped)

dollar_tag_unnamed : (d : ℕ) (rest : Text) → is_name_start d ≡ false → dollar_tag (d ∷ rest) ≡ none
unfolding dollar_tag is_word
dollar_tag_unnamed d rest h = ground (arith, h)

module _ (c d : ℕ) (rest : Text) (h : is_plain c (d ∷ rest) ≡ true) where
  no_tag : (c == b'$') ≡ true → dollar_tag (d ∷ rest) ≡ none
  no_tag e = dollar_tag_unnamed d rest (ground (arith, e, h))

  next_mode-plain : next_mode Mode.plain c (d ∷ rest) ≡ Mode.plain
  unfolding next_mode
  next_mode-plain = elim (Bool-cases (c == b'$')) [
    | inl e ↦ ground (arith, e, h, no_tag e)
    | inr e ↦ ground (arith, e, h)
  ]

  round_out-plain : round_out Mode.plain c (d ∷ rest) ≡ c ∷ []
  unfolding round_out
  round_out-plain = elim (Bool-cases (c == b'$')) [
    | inl e ↦ ground (arith, e, h, no_tag e)
    | inr e ↦ ground (arith, e, h)
  ]

strip_from-plain :
    (c : ℕ) (rest : Text)
    → is_plain c rest ≡ true
    → strip_from Mode.plain (c ∷ rest) ≡ c ∷ strip_from Mode.plain rest
unfolding strip_from
strip_from-plain c [] h = unfold next_mode round_out in ground (arith, h)
strip_from-plain c (d ∷ rest) h = rw (next_mode-plain c d rest h, round_out-plain c d rest h) refl

-- What stays of a text is what `stripSqlLiterals` gives.
pub strip_sql_literals-Reads : {sql code : Text} → Reads sql code → strip_sql_literals sql ≡ code
unfolding strip_sql_literals strip_from next_mode round_out
strip_sql_literals-Reads ends = refl
strip_sql_literals-Reads (plain_character c {rest} p r) =
    strip_from-plain c rest p ∙ ap (◌∷◌ c) (strip_sql_literals-Reads r)
strip_sql_literals-Reads (line_comment w h r) =
    strip_from-line w _ h ∙ ap (◌∷◌ b'\n') (strip_sql_literals-Reads r)
strip_sql_literals-Reads (last_line_comment w h) = strip_from_last_line w h
strip_sql_literals-Reads (block_comment w h r) =
    ap (◌∷◌ b' ') (strip_from-block w _ h ∙ strip_sql_literals-Reads r)
strip_sql_literals-Reads (open_block_comment w h) = ap (◌∷◌ b' ') (strip_from_open_block w h)
strip_sql_literals-Reads (quotation w h r) =
    ap (◌∷◌ b' ') (strip_from-doubled b'\'' w _ h ∙ strip_sql_literals-Reads r)
strip_sql_literals-Reads (quoted_name w h r) =
    ap (◌∷◌ b' ') (strip_from-doubled b'"' w _ h ∙ strip_sql_literals-Reads r)
strip_sql_literals-Reads (backtick_name w h r) =
    ap (◌∷◌ b' ') (strip_from-backtick w _ h ∙ strip_sql_literals-Reads r)
strip_sql_literals-Reads (dollar_quotation name w h apart r) =
    strip_from-dollar name w _ h apart ∙ ap (◌∷◌ b' ') (strip_sql_literals-Reads r)
