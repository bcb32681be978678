-- ===== src/CodeMode.antt =====
-- src/code_mode: live JavaScript cells, their driver, and the service that hosts one per session.
-- JSON values are those of serde_json, which the code only stores and passes on: a type parameter.
pub mod Protocol
pub mod Response
pub mod Driver
pub mod Cell
pub mod Tracker
pub mod Service
pub mod Timers
