-- ===== src/Agent/Exit.antt =====
-- How a step of the agent loop ends (src/core.rs, `RunExit`).
use rust_claw_oc.Prelude.{String}

pub data RunExit : Type 0 where
  finished recoverable_failed critically_failed autopilot_stalled energy_depleted : String → RunExit
  stopped_by_user yielded_to_user : RunExit

unfoldable pub label : RunExit → String
label (finished s) = "finished"
label stopped_by_user = "stopped_by_user"
label yielded_to_user = "yielded_to_user"
label (recoverable_failed s) = "recoverable_failed"
label (critically_failed s) = "critically_failed"
label (autopilot_stalled s) = "autopilot_stalled"
label (energy_depleted s) = "energy_depleted"
