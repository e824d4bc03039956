-- ===== src/Sql/Segments.antt =====
-- `splitSqlSegments` of lib/sql-statements.ts.
pub mod Cover
use basemaster.Base.{
  ℕ, ◌+◌, ◌||◌, ◌&&◌, not, Option, List, [], ◌∷◌, slice, head?, ltb, ◌==◌, if◌then◌else◌,
}
use basemaster.Base.Text.{Text}
use basemaster.Sql.Mode.{
  Mode, plain, line, block_open, block, block_close, quoted, escaped, next_is, is_end,
}

pub record SqlSegment : Type 0 where
  pub sql : Text
  pub start : ℕ
  pub end : ℕ

-- One round of the loop, at the character `c` with `next` behind it: the loop that the scanner is
-- in after it.
unfoldable pub next_mode : Mode → ℕ → Option ℕ → Mode
next_mode plain c next =
    if c == b'-' && next_is next b'-'
    then line
    else if c == b'/' && next_is next b'*'
    then block_open
    else if c == b'\'' || c == b'"' || c == b'`'
    then quoted c
    else plain
next_mode line c next = if c == b'\n' then plain else line
next_mode block_open c next = block
next_mode block c next = if c == b'*' && next_is next b'/' then block_close else block
next_mode block_close c next = plain
next_mode (quoted q) c next =
    if c == q
    then (if next_is next q then escaped q else plain)
    else if c == b'\\' && not (q == b'`')
    then escaped q
    else quoted q
next_mode (escaped q) c next = quoted q

-- `{ sql: sql.slice(start, end), start, end }`
abbrev pub segment : Text → ℕ → ℕ → SqlSegment
segment sql start end = record { sql = slice start end sql; start = start; end = end }

-- The loop over `sql` at offset `i`, where `rest` is left, with the current segment from `start`.
unfoldable pub split_from : (sql : Text) → Mode → (start i : ℕ) → (rest : Text) → List SqlSegment
split_from sql mode start i [] = if ltb start i then segment sql start i ∷ [] else []
split_from sql mode start i (c ∷ rest) =
    let ended = split_from sql plain (i + 1) (i + 1) rest in
    let longer = split_from sql (next_mode mode c (head? rest)) start (i + 1) rest in
    if is_end mode c then segment sql start i ∷ ended else longer

unfoldable pub split_sql_segments : Text → List SqlSegment
unfolding split_from next_mode
split_sql_segments sql = split_from sql plain 0 0 sql
