-- ===== src/CodeMode/Protocol.antt =====
-- src/code_mode/protocol.rs: what the JavaScript worker sends to the host.
use rust_claw_oc.Prelude.{ℕ, String, Bool, true, false, Option, Result}
use rust_claw_oc.Prelude.Dict.{Dict}

pub record RuntimeTerminalResult (V : Type 0) : Type 0 where
  pub return_value : Option V
  pub runtime_error : Option String
  pub cancellation_reason : Option String
  pub stored_values : Dict V

pub record ToolCallRequest : Type 0 where
  pub seq : ℕ
  pub request_id : String
  pub tool_name : String
  pub args_json : String

pub data RuntimeEvent (V : Type 0) : Type 0 where
  text : ℕ → String → RuntimeEvent V
  notification : ℕ → String → RuntimeEvent V
  flush : ℕ → Option V → RuntimeEvent V
  waiting_for_timer : ℕ → Option ℕ → RuntimeEvent V
  tool_call_requested : ToolCallRequest → RuntimeEvent V
  tool_call_done : ℕ → String → RuntimeEvent V
  worker_completed : Result String (RuntimeTerminalResult V) → RuntimeEvent V

abbrev pub is_visible_in_snapshot : {V : Type 0} → RuntimeEvent V → Bool
is_visible_in_snapshot (worker_completed r) = false
is_visible_in_snapshot (waiting_for_timer n t) = false
is_visible_in_snapshot (tool_call_requested r) = false
is_visible_in_snapshot (tool_call_done n i) = false
is_visible_in_snapshot _ = true
