-- ===== src/CodeMode/Service/Steps.antt =====
-- The steps that callers and host tasks interleave, and what holds after any sequence of them
-- (src/code_mode/service.rs).
pub mod Change
pub mod Sessions
pub mod Superseded
use rust_claw_oc.Prelude.{ℕ, Bool, String, Option, List, [], ◌∷◌}
use rust_claw_oc.Tools.Protocol.{ToolError}
use rust_claw_oc.CodeMode.Response.{ExecRunResult}
use rust_claw_oc.CodeMode.Driver.{DriverUpdate}
use rust_claw_oc.CodeMode.Service.{
  Service, begin_cell, record_driver_update_in_session, record_cell_cancellation_in_session,
  read_cell_summary, publish_summary_update, record_host_error_in_session, abort_active_cell,
  update_host, request_cancel,
}
use rust_claw_oc.CodeMode.Service.Wait.{wait_start}

-- Every step of the service that changes its state, by any caller and any host task.
pub data ServiceStep (V : Type 0) : Type 0 where
  begin : String → Option String → ServiceStep V
  record_update : String → String → DriverUpdate V → ServiceStep V
  record_cancellation : String → String → String → ServiceStep V
  read_summary : String → String → Bool → ServiceStep V
  publish : String → String → ℕ → ExecRunResult V → ServiceStep V
  host_error : String → String → ToolError → ServiceStep V
  abort : String → String → ServiceStep V
  wait : String → Option String → ServiceStep V
  cancel_host : String → ℕ → ServiceStep V

module _ {V : Type 0} where
  unfoldable pub take_step : ServiceStep V → Service V → Service V
  take_step (begin session_id notice) w = (begin_cell session_id notice w).1
  take_step (record_update session_id cell_id u) w =
      (record_driver_update_in_session session_id cell_id u w).1
  take_step (record_cancellation session_id cell_id reason) w =
      (record_cell_cancellation_in_session session_id cell_id reason w).1
  take_step (read_summary session_id cell_id prefer) w =
      (read_cell_summary session_id cell_id prefer w).1
  take_step (publish session_id cell_id host summary) w =
      (publish_summary_update session_id cell_id host summary w).1
  take_step (host_error session_id cell_id e) w =
      (record_host_error_in_session session_id cell_id e w).1
  take_step (abort session_id reason) w = (abort_active_cell session_id reason w).1
  take_step (wait session_id requested) w = (wait_start session_id requested w).1
  take_step (cancel_host reason host) w = record w {
    hosts = update_host (request_cancel reason) host w.hosts;
  }

  unfoldable pub take_steps : List (ServiceStep V) → Service V → Service V
  unfolding take_step
  take_steps [] w = w
  take_steps (s ∷ ss) w = take_steps ss (take_step s w)

-- The service as `CodeModeService::default` makes it.
unfoldable pub initial_service : (V : Type 0) → Service V
initial_service V = record {
  sessions = [];
  hosts = λ h. record { revision = 0; cancel_requested = Option.none };
  next_host = 0;
}
