-- ===== src/Sql/Cursor.antt =====
-- `statementAtCursor` of lib/sql-statements.ts.
pub mod Laws
use basemaster.Base.{
  ℕ, ◌&&◌, min, Bool, Option, some, List, [], ◌∷◌, length, find, leb, if◌then◌else◌,
}
use basemaster.Base.Text.{Text, has_ink}
use basemaster.Sql.Segments.{SqlSegment, split_sql_segments}

-- `seg.sql.trim().length > 0`
abbrev pub inked : SqlSegment → Bool
inked seg = has_ink seg.sql

-- The loop over the segments. `passed` holds those before this one, the last one first, which is
-- what `segments.slice(0, segments.indexOf(seg)).reverse()` gives; when the loop has ended it holds
-- them all, as the loop from the end goes over them.
unfoldable pub at_cursor : ℕ → List SqlSegment → List SqlSegment → Option SqlSegment
at_cursor c passed [] = find inked passed
at_cursor c passed (seg ∷ segs) =
    let later = at_cursor c (seg ∷ passed) segs in
    if leb seg.start c && leb c seg.end
    then (if inked seg then some seg else find inked passed)
    else later

-- The clamp of a cursor below 0 is left out: cursors are natural numbers.
unfoldable pub statement_at_cursor : Text → ℕ → Option SqlSegment
unfolding at_cursor
statement_at_cursor sql cursor = at_cursor (min cursor (length sql)) [] (split_sql_segments sql)
