-- ===== src/Sql.antt =====
-- The three scanners of SQL text of src/lib: sql-statements.ts, dangerous-query.ts, sql-readonly.ts.
-- Each walks the text once. The loops of the source are modes of a scanner; the position of the
-- source's index is the text that is left, and every branch of a loop consumes one character, or
-- goes into a mode that consumes the second of two.
pub mod Mode
pub mod Segments
pub mod Cursor
pub mod Dangerous
pub mod Literals
pub mod ReadOnly
mod Tests
