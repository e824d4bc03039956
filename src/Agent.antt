-- ===== src/Agent.antt =====
-- The AI agent: its store (state/ai-agent.ts) and the run of a question (lib/ai/runner.ts).
mod Tests
pub mod Store
pub mod History
pub mod Messages
pub mod Retry
pub mod Ask
