-- ===== src/Subagent/Session/Tests.antt =====
-- A sub-agent that runs out of time (src/subagent_runtime.rs).
use rust_claw_oc.Prelude.{false, none, [], ◌∷◌}
use rust_claw_oc.Subagent.Session.{
  SubagentExecutionRequest, goal, SubagentRunPaths, elapsed, Collected, execute_subagent_session,
}
use rust_claw_oc.Subagent.Session.Ending.{IsSettled, execute_subagent_session-IsSettled}

abbrev request : SubagentExecutionRequest
request = record {
  initial_input = "go";
  display_goal = "go";
  context = "";
  timeout_sec = 60;
  max_steps = 5;
  allowed_tools = [];
  restrict_to_allowed_tools = false;
  allow_subagent_tool = false;
  origin = goal;
  effective_max_steps = none;
  effective_timeout_sec = none;
  call_chain_seed = record {
    inherited_context = none;
    inherited_budget = record { remaining_steps = none; remaining_timeout_sec = none };
    handoff_context = none;
  };
}

abbrev paths : SubagentRunPaths
paths = record { sub_session_id = "s"; transcript_path = "t"; event_log_path = "e" }

abbrev seen : Collected
seen = record {
  text = "";
  tool_outputs = "found" ∷ [];
  artifacts = [];
  finished_at = 7;
  cancelled = false;
}

execute_subagent_session-IsSettled_example :
    IsSettled request paths elapsed seen
      (execute_subagent_session request paths elapsed seen).0
      (execute_subagent_session request paths elapsed seen).1
execute_subagent_session-IsSettled_example =
    execute_subagent_session-IsSettled request paths elapsed seen
