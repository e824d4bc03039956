-- ===== src/Sql/Cursor/Laws.antt =====
-- Which statement the cursor is on.
use basemaster.Base.{
  ℕ, ◌+◌, ◌≤◌, ◌<◌, ◌&&◌, ◌≡◌, refl, ◌∙◌, min, Bool, Option, none, some, List, [], ◌∷◌, length,
  find, leb, arith, if◌then◌else◌,
}
use basemaster.Base.Text.{Text}
use basemaster.Sql.Segments.{SqlSegment, split_sql_segments}
use basemaster.Sql.Segments.Cover.{IsTiled, split_sql_segments-IsTiled}
use basemaster.Sql.Cursor.{inked, at_cursor, statement_at_cursor}

module _ {ℓ} {A : Type ℓ} where
  abbrev or_else : Option A → Option A → Option A
  or_else none b = b
  or_else (some a) b = some a

  or_else-none : (o : Option A) → or_else o none ≡ o
  or_else-none none = refl
  or_else-none (some a) = refl

  -- The last item that passes the test.
  abbrev pub find_last : (A → Bool) → List A → Option A
  find_last test [] = none
  find_last test (x ∷ xs) = or_else (find_last test xs) (if test x then some x else none)

-- A segment that is not blank and starts at the offset or before it.
abbrev pub starts_by : ℕ → SqlSegment → Bool
starts_by c seg = leb seg.start c && inked seg

find_last_of_lt :
    (sql : Text) (c start : ℕ) (segs : List SqlSegment)
    → IsTiled sql start segs
    → c < start
    → find_last (starts_by c) segs ≡ none
find_last_of_lt sql c start [] t h = refl
find_last_of_lt sql c start (seg ∷ segs) t h =
    ground (arith, find_last_of_lt sql c (seg.end + 1) segs t.5)

at_cursor-find_last :
    (sql : Text) (c start : ℕ) (passed segs : List SqlSegment)
    → IsTiled sql start segs
    → start ≤ c
    → at_cursor c passed segs ≡ or_else (find_last (starts_by c) segs) (find inked passed)
unfolding at_cursor
at_cursor-find_last sql c start passed [] t h = refl
at_cursor-find_last sql c start passed (seg ∷ segs) t h = ground (
  arith,
  find_last_of_lt sql c (seg.end + 1) segs t.5,
  at_cursor-find_last sql c (seg.end + 1) (seg ∷ passed) segs t.5,
)

-- `statementAtCursor` gives the last of the segments that are not blank and start at the cursor,
-- clamped to the text, or before it; and null if there is none.
pub statement_at_cursor-find_last :
    (sql : Text) (cursor : ℕ)
    → statement_at_cursor sql cursor
      ≡ find_last (starts_by (min cursor (length sql))) (split_sql_segments sql)
unfolding statement_at_cursor
statement_at_cursor-find_last sql cursor =
    let c = min cursor (length sql) in
    at_cursor-find_last sql c 0 [] (split_sql_segments sql) (split_sql_segments-IsTiled sql)
      (omega arith)
    ∙ or_else-none (find_last (starts_by c) (split_sql_segments sql))
