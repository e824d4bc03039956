-- ===== src/FilterSql.antt =====
-- lib/build-table-sql.ts: the SELECT that shows what a page of a table shows.
pub mod Quote
pub mod Render
pub mod Reading
pub mod Nodes
mod Tests
