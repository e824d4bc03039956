-- ===== src/Sql/Dangerous/Statements.antt =====
-- `splitStatements` and `stripComments` of lib/dangerous-query.ts, each with its own copy of the loop.
use basemaster.Base.{
  ℕ, ◌&&◌, ◌||◌, not, Bool, true, false, Option, List, [], ◌∷◌, ◌++◌, head?, ◌==◌, if◌then◌else◌,
}
use basemaster.Base.Text.{Text, has_ink}
use basemaster.Sql.Mode.{
  Mode, plain, line, block_open, block, block_close, quoted, escaped, next_is, is_end,
}

-- One round of the loop of `splitStatements`, which `stripComments` repeats.
unfoldable pub next_mode : Mode → ℕ → Option ℕ → Mode
next_mode plain c next =
    if c == b'-' && next_is next b'-'
    then line
    else if c == b'/' && next_is next b'*'
    then block_open
    else if c == b'\'' || c == b'"' || c == b'`'
    then quoted c
    else plain
next_mode line c next = if not (c == b'\n') then line else plain
next_mode block_open c next = block
next_mode block c next = if not (c == b'*' && next_is next b'/') then block else block_close
next_mode block_close c next = plain
next_mode (quoted q) c next =
    if c == q
    then (if next_is next q then escaped q else plain)
    else if c == b'\\' && not (q == b'`')
    then escaped q
    else quoted q
next_mode (escaped q) c next = quoted q

-- `if (current.trim().length > 0) out.push(current);`
abbrev pub push_inked : Text → List Text → List Text
push_inked current later = if has_ink current then current ∷ later else later

-- The loop of `splitStatements`, with `current` read since the last semicolon.
unfoldable pub statements_from : Mode → (current rest : Text) → List Text
statements_from mode current [] = push_inked current []
statements_from mode current (c ∷ rest) =
    let ended = statements_from plain [] rest in
    let longer = statements_from (next_mode mode c (head? rest)) (current ++ c ∷ []) rest in
    if is_end mode c then push_inked current ended else longer

unfoldable pub split_statements : Text → List Text
unfolding statements_from next_mode
split_statements sql = statements_from plain [] sql

-- Whether the loop of `stripComments` passes over the character, in a comment.
unfoldable pub in_comment : Mode → ℕ → Option ℕ → Bool
in_comment plain c next = c == b'-' && next_is next b'-' || c == b'/' && next_is next b'*'
in_comment line c next = not (c == b'\n')
in_comment block_open c next = true
in_comment block c next = true
in_comment block_close c next = true
in_comment (quoted q) c next = false
in_comment (escaped q) c next = false

unfoldable pub strip_from : Mode → Text → Text
strip_from mode [] = []
strip_from mode (c ∷ rest) =
    let out = strip_from (next_mode mode c (head? rest)) rest in
    if in_comment mode c (head? rest) then out else c ∷ out

unfoldable pub strip_comments : Text → Text
unfolding strip_from next_mode in_comment
strip_comments sql = strip_from plain sql
