-- ===== src/Subagent.antt =====
-- Sub-agent jobs (src/subagent_runtime.rs): their states, how the end of a session becomes a state,
-- and the store of jobs; and the tools of a sub-agent (src/session/factory.rs).
pub mod State
pub mod Session
pub mod Toolset
pub mod Jobs
pub mod Debug
