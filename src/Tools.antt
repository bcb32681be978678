-- ===== src/Tools.antt =====
-- What the components share of src/tools and src/trace.
pub mod Protocol
pub mod Envelope
pub mod Schedule
