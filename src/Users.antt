-- ===== src/Users.antt =====
-- The users and their privileges: components/users-view.tsx, but for its rendering.
mod Tests
pub mod Grants
