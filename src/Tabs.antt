-- ===== src/Tabs.antt =====
-- The tab bar and what is kept for each tab: state/tabs.ts, state/tab-state.ts and
-- state/table-draft.ts.
pub mod Kind
pub mod Runtime
pub mod Store
pub mod Draft
pub mod Invariant
pub mod Reach
pub mod Closing
mod Tests
