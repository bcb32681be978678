-- ===== src/Skills.antt =====
-- Skills: their definitions, the tools that they may call, and their activation (src/skills).
pub mod Definition
pub mod Policy
pub mod Activation
pub mod Arguments
