-- ===== src/Subagent/Debug.antt =====
-- The debug snapshot of a job (src/subagent_runtime.rs).
pub mod Window
mod Tests
use rust_claw_oc.Prelude.{
  ℕ, ◌+◌, ◌-◌, String, Bool, Option, none, some, or_some, is_some, List, [], ◌∷◌, push, drop,
  length, concat, char_count, take_chars, ltb, if◌then◌else◌, str_eq,
}
use rust_claw_oc.Subagent.State.{SubagentJobState, finish_reason}

pub record SubagentDebugEvent : Type 0 where
  pub kind : String
  pub tool_name : Option String
  pub text : String
  pub at_unix_ms : ℕ

pub record SubagentDebugSnapshot : Type 0 where
  pub state_label : String
  pub failure_stage : Option String
  pub step_count : ℕ
  pub last_model_text : Option String
  pub last_thought_text : Option String
  pub last_tool_name : Option String
  pub last_tool_args_summary : Option String
  pub last_tool_result_summary : Option String
  pub last_error : Option String
  pub recent_events : List SubagentDebugEvent
  pub updated_at_unix_ms : ℕ

-- `SubagentDebugSnapshot::default`
unfoldable pub new_debug : ℕ → SubagentDebugSnapshot
new_debug now = record {
  state_label = "pending";
  failure_stage = none;
  step_count = 0;
  last_model_text = none;
  last_thought_text = none;
  last_tool_name = none;
  last_tool_args_summary = none;
  last_tool_result_summary = none;
  last_error = none;
  recent_events = [];
  updated_at_unix_ms = now;
}

abbrev pub max_recent_events : ℕ
max_recent_events = 12

unfoldable pub truncate_debug_text : String → ℕ → String
truncate_debug_text input max_chars =
    if ltb max_chars (char_count input)
    then concat (take_chars max_chars input ∷ "...(truncated)" ∷ [])
    else take_chars max_chars input

-- `push`, then `drain` of the excess.
abbrev pub push_recent : List SubagentDebugEvent → SubagentDebugEvent → List SubagentDebugEvent
push_recent events event =
    let all = push events event in
    if ltb max_recent_events (length all) then drop (length all - max_recent_events) all else all

unfoldable pub push_recent_debug_event :
    SubagentDebugEvent → SubagentDebugSnapshot → SubagentDebugSnapshot
push_recent_debug_event event debug = record debug {
  recent_events = push_recent debug.recent_events event;
}

unfoldable pub set_debug_state_label : String → ℕ → SubagentDebugSnapshot → SubagentDebugSnapshot
set_debug_state_label label now debug = record debug {
  state_label = label;
  updated_at_unix_ms = now;
}

abbrev error_event : String → Option String → ℕ → SubagentDebugEvent
error_event text tool_name now = record {
  kind = "error";
  tool_name = tool_name;
  text = text;
  at_unix_ms = now;
}

unfoldable pub record_debug_error :
    String → String → Option String → ℕ → SubagentDebugSnapshot → SubagentDebugSnapshot
unfolding truncate_debug_text push_recent_debug_event
record_debug_error failure_stage error tool_name now debug =
    record (push_recent_debug_event (error_event (truncate_debug_text error 240) tool_name now)
      debug) {
        failure_stage = some failure_stage;
        last_error = some (truncate_debug_text error 500);
        last_tool_name = or_some tool_name debug.last_tool_name;
        updated_at_unix_ms = now;
      }

unfoldable pub finalize_debug_state :
    SubagentJobState → ℕ → SubagentDebugSnapshot → SubagentDebugSnapshot
finalize_debug_state state now debug = record debug {
  state_label = finish_reason state;
  failure_stage = if str_eq (finish_reason state) "finished" then none else debug.failure_stage;
  updated_at_unix_ms = now;
}
