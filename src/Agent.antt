-- ===== src/Agent.antt =====
-- The agent loop (src/core.rs): its guard against repeated actions, and how a step ends.
pub mod Guard
pub mod Exit
