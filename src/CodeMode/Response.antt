-- ===== src/CodeMode/Response.antt =====
-- src/code_mode/response.rs: what `exec` and `wait` report of a cell.
pub mod Render
mod Tests
use rust_claw_oc.Prelude.{ℕ, String, Bool, true, false, Option, List}

pub data ExecLifecycle : Type 0 where
  running completed failed cancelled : ExecLifecycle

pub data ExecProgressKind : Type 0 where
  explicit_flush auto_flush : ExecProgressKind

abbrev pub is_running : ExecLifecycle → Bool
is_running running = true
is_running _ = false

pub record ExecRunResult (V : Type 0) : Type 0 where
  pub cell_id : String
  pub output_text : String
  pub return_value : Option V
  pub flush_value : Option V
  pub lifecycle : ExecLifecycle
  pub progress_kind : Option ExecProgressKind
  pub flushed : Bool
  pub waiting_on_tool_request_id : Option String
  pub waiting_on_timer_ms : Option ℕ
  pub notifications : List String
  pub failure : Option String
  pub cancellation : Option String
  pub nested_tool_calls : ℕ
  pub truncated : Bool
