-- ===== src/Subagent/Debug/Tests.antt =====
-- Fifteen debug events (src/subagent_runtime.rs).
use rust_claw_oc.Prelude.{String, none, List, [], ◌∷◌}
use rust_claw_oc.Subagent.Debug.{SubagentDebugEvent}

abbrev event : String → SubagentDebugEvent
event text = record { kind = "tool"; tool_name = none; text = text; at_unix_ms = 0 }

abbrev five : List SubagentDebugEvent
five = event "1" ∷ event "2" ∷ event "3" ∷ event "4" ∷ event "5" ∷ []
