-- ===== src/Sql/Mode.antt =====
-- The loops that the scanners of sql-statements.ts and dangerous-query.ts share.
use basemaster.Base.{ℕ, Bool, true, false, Option, none, some, ◌==◌}

pub data Mode : Type 0 where
  -- the main loop
  plain : Mode
  -- in a comment that runs to the end of its line
  line : Mode
  -- at the `*` of an opening `/*`, in the comment, and at the `/` of its closing `*/`
  block_open block block_close : Mode
  -- in a quotation, and at a character that the one before it keeps from closing it
  quoted escaped : ℕ → Mode

-- `sql[i + 1] === c`, with `undefined` behind the end
abbrev pub next_is : Option ℕ → ℕ → Bool
next_is none c = false
next_is (some d) c = d == c

abbrev pub is_plain : Mode → Bool
is_plain plain = true
is_plain _ = false

-- a `;` in the main loop, which ends a statement
abbrev pub is_end : Mode → ℕ → Bool
is_end plain c = c == b';'
is_end _ c = false
