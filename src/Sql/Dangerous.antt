-- ===== src/Sql/Dangerous.antt =====
-- lib/dangerous-query.ts: statements that write a whole table for want of a WHERE.
pub mod Statements
pub mod Detect
pub mod Words
pub mod Risky
pub mod Agree
pub mod Guard
