-- ===== src/CodeMode/Service/Host.antt =====
-- The background host of a cell: `run_cell_host` and `perform_cell_host_loop` of
-- src/code_mode/service.rs. One round of the loop is one function. It takes the lock of `sessions`
-- up to twice; `gap` are the steps that others take between the two.
pub mod Answer
pub mod Loop
pub mod Finish
pub mod Stale
use rust_claw_oc.Prelude.{
  ℕ, ◌+◌, ◌-◌, min, Bool, true, false, String, Option, none, some, or_some, List, [], ◌∷◌, concat,
  if◌then◌else◌, leb, Result, ok, err,
}
use rust_claw_oc.Prelude.Decimal.{show}
use rust_claw_oc.Tools.Protocol.{
  ToolError, TraceStatus, execution_failed, timeout, cancelled, display,
}
use rust_claw_oc.CodeMode.Response.{
  ExecLifecycle, ExecProgressKind, ExecRunResult, explicit_flush, auto_flush, is_running,
}
use rust_claw_oc.CodeMode.Driver.{CellStatus, DriverUpdate, progress, pending_tool, idle, terminal}
use rust_claw_oc.CodeMode.Cell.{CellSnapshot, to_exec_result, phase_lifecycle}
use rust_claw_oc.CodeMode.Tracker.{
  PublicationTracker, should_auto_flush_now, next_idle_timeout, mark_published, observe_events,
}
use rust_claw_oc.CodeMode.Service.{
  Service, update_host, request_cancel, record_driver_update_in_session,
  record_cell_cancellation_in_session, peek_cell_summary, publish_summary_update,
  record_host_error_in_session,
}
use rust_claw_oc.CodeMode.Service.Steps.{ServiceStep, take_steps}

-- `CellRuntimeBudget`, the deadline in milliseconds of the monotonic clock.
pub record CellRuntimeBudget : Type 0 where
  pub timeout_ms : ℕ
  pub deadline : ℕ

-- What the task holds. `initial` is what was sent to the caller of `execute`, once it was.
pub record HostTask (V : Type 0) : Type 0 where
  pub session_id : String
  pub cell_id : String
  pub host : ℕ
  pub tracker : PublicationTracker
  pub initial : Option (Result ToolError (ExecRunResult V))

-- The JSON attributes of the span: the error's text, with the failure and the cancellation of the
-- summary, is there only where the host failed.
pub data CellTraceAttrs : Type 0 where
  of_summary :
      String → ExecLifecycle → ℕ → Option (Option String × Option String × String) → CellTraceAttrs
  of_host_error : String → String → CellTraceAttrs

pub record CellTraceFinish : Type 0 where
  pub status : TraceStatus
  pub summary : Option String
  pub attrs : CellTraceAttrs

pub data Turn (V : Type 0) : Type 0 where
  go_on : HostTask V → Service V → Turn V
  exit : CellTraceFinish → HostTask V → Service V → Turn V

error_status : ToolError → TraceStatus
error_status timeout = TraceStatus.timed_out
error_status (cancelled r) = TraceStatus.cancelled
error_status _ = TraceStatus.error

unfoldable pub trace_finish_from_host_error : String → ToolError → CellTraceFinish
unfolding error_status
trace_finish_from_host_error cell_id error = record {
  status = error_status error;
  summary = some (display error);
  attrs = of_host_error cell_id (display error);
}

lifecycle_status : ExecLifecycle → TraceStatus
lifecycle_status ExecLifecycle.completed = TraceStatus.ok
lifecycle_status ExecLifecycle.running = TraceStatus.ok
lifecycle_status ExecLifecycle.failed = TraceStatus.error
lifecycle_status ExecLifecycle.cancelled = TraceStatus.cancelled

lifecycle_summary : ExecLifecycle → Option String → Option String → Option String
lifecycle_summary ExecLifecycle.completed failure cancellation = some "completed"
lifecycle_summary ExecLifecycle.failed failure cancellation = or_some failure (some "failed")
lifecycle_summary ExecLifecycle.cancelled failure cancellation =
    or_some cancellation (some "cancelled")
lifecycle_summary ExecLifecycle.running failure cancellation = none

abbrev deadline_reason : ℕ → String
deadline_reason cell_timeout_ms = concat (
    "Code mode cell exceeded its runtime limit of "
    ∷ show cell_timeout_ms
    ∷ "ms and was cancelled by the system."
    ∷ [])

module _ {V : Type 0} where
  unfoldable pub trace_finish_from_summary :
      String → ExecRunResult V → Option ToolError → CellTraceFinish
  unfolding lifecycle_status lifecycle_summary
  trace_finish_from_summary cell_id s host_error = record {
    status = lifecycle_status s.lifecycle;
    summary = lifecycle_summary s.lifecycle s.failure s.cancellation;
    attrs = of_summary cell_id s.lifecycle s.nested_tool_calls (elim host_error [
      | none ↦ none
      | some error ↦ some (s.failure, s.cancellation, display error)
    ]);
  }

  -- `tx.take()`: only the first result is sent.
  abbrev send_initial : Result ToolError (ExecRunResult V) → HostTask V → HostTask V
  send_initial result task = record task { initial = or_some task.initial (some result) }

  publish_initial : ExecRunResult V → HostTask V → HostTask V
  publish_initial summary task = send_initial (ok summary) task

  fail_initial : ToolError → HostTask V → HostTask V
  fail_initial error task = send_initial (err error) task

  fail_and_exit : ToolError → HostTask V → Service V → Turn V
  unfolding fail_initial
  fail_and_exit error task w =
      exit (trace_finish_from_host_error task.cell_id error) (fail_initial error task) w

  -- `publish_summary_and_unblock_initial`, and what follows it if it succeeds.
  publish_and_unblock :
      ExecRunResult V → HostTask V → Service V → (HostTask V → Service V → Turn V) → Turn V
  unfolding publish_initial fail_and_exit
  publish_and_unblock summary task w onward =
      let (published, w') =
        publish_summary_update task.session_id task.cell_id task.host summary w in
      elim published [
        | err e ↦ fail_and_exit e task w'
        | ok u ↦ onward (publish_initial summary task) w'
      ]

  -- The host of a cell whose driver failed. A failed publication is only logged.
  record_and_exit_host_error : ToolError → List (ServiceStep V) → HostTask V → Service V → Turn V
  unfolding publish_initial fail_and_exit
  record_and_exit_host_error error gap task w =
      let (summary, w') = record_host_error_in_session task.session_id task.cell_id error w in
      elim summary [
        | none ↦ fail_and_exit error task w'
        | some s ↦
            exit (trace_finish_from_summary task.cell_id s (some error)) (publish_initial s task)
              (publish_summary_update task.session_id task.cell_id task.host s
                (take_steps gap w')).1
      ]

  cancel_cell_for_runtime_deadline : ℕ → List (ServiceStep V) → HostTask V → Service V → Turn V
  unfolding publish_and_unblock fail_and_exit
  cancel_cell_for_runtime_deadline cell_timeout_ms gap task w =
      let reason = deadline_reason cell_timeout_ms in
      let asked = record w { hosts = update_host (request_cancel reason) task.host w.hosts } in
      let (recorded, w') =
        record_cell_cancellation_in_session task.session_id task.cell_id reason asked in
      elim recorded [
        | err e ↦ fail_and_exit e task w'
        | ok snapshot ↦
            let summary = to_exec_result snapshot none none in
            publish_and_unblock summary task (take_steps gap w')
              (λ task' w''. exit (trace_finish_from_summary task.cell_id summary none) task' w'')
      ]

  -- The driver met its timeout with no event.
  idle_turn : ℕ → List (ServiceStep V) → HostTask V → Service V → Turn V
  unfolding publish_and_unblock fail_and_exit
  idle_turn after gap task w =
      if should_auto_flush_now task.tracker after
      then (let (peeked, w') =
            peek_cell_summary task.session_id task.cell_id (some auto_flush) none w in
          elim peeked [
            | err e ↦ fail_and_exit e task w'
            | ok summary ↦
                publish_and_unblock summary
                  (record task { tracker = mark_published task.tracker after }) (take_steps gap w')
                  go_on
          ])
      else go_on task w

  -- `CellStatus::Progress`: publish at a flush of the cell's own, or at an automatic one.
  progress_turn : ℕ → Option (Option V) → CellSnapshot V → HostTask V → Service V → Turn V
  unfolding publish_and_unblock
  progress_turn after (some flush_value) snapshot task w =
      publish_and_unblock (to_exec_result snapshot (some explicit_flush) flush_value)
        (record task { tracker = mark_published task.tracker after }) w go_on
  progress_turn after none snapshot task w =
      if should_auto_flush_now task.tracker after
      then publish_and_unblock (to_exec_result snapshot (some auto_flush) none)
          (record task { tracker = mark_published task.tracker after }) w go_on
      else go_on task w

  -- `CellStatus::PendingTool`: the summary is published, and the caller goes on waiting.
  pending_tool_turn : CellSnapshot V → HostTask V → Service V → Turn V
  unfolding fail_and_exit
  pending_tool_turn snapshot task w =
      if is_running (phase_lifecycle snapshot.phase)
      then (let (published, w') =
            publish_summary_update task.session_id task.cell_id task.host
              (to_exec_result snapshot none none) w in
          elim published [ err e ↦ fail_and_exit e task w' | ok u ↦ go_on task w' ])
      else fail_and_exit
          (execution_failed "Code mode entered a terminal state while dispatching a nested tool.")
          task w

  terminal_turn : CellSnapshot V → HostTask V → Service V → Turn V
  unfolding publish_and_unblock
  terminal_turn snapshot task w =
      let summary = to_exec_result snapshot none none in
      publish_and_unblock summary task w
        (λ task' w'. exit (trace_finish_from_summary task.cell_id summary none) task' w')

  status_turn :
      CellStatus V → ℕ → Option (Option V) → CellSnapshot V → HostTask V → Service V → Turn V
  unfolding progress_turn pending_tool_turn terminal_turn
  status_turn progress after flushed snapshot task w = progress_turn after flushed snapshot task w
  status_turn pending_tool after flushed snapshot task w = pending_tool_turn snapshot task w
  status_turn (terminal result) after flushed snapshot task w = terminal_turn snapshot task w
  status_turn idle after flushed snapshot task w = go_on task w

  -- An update with a status other than idle.
  update_turn : ℕ → List (ServiceStep V) → DriverUpdate V → HostTask V → Service V → Turn V
  unfolding status_turn fail_and_exit
  update_turn after gap update task w =
      let (tracker, flushed) = observe_events task.tracker update.events in
      let task' = record task { tracker = tracker } in
      let (recorded, w') = record_driver_update_in_session task.session_id task.cell_id update w in
      elim recorded [
        | err e ↦ fail_and_exit e task' w'
        | ok snapshot ↦ status_turn update.status after flushed snapshot task' (take_steps gap w')
      ]

  abbrev pub is_idle : CellStatus V → Bool
  is_idle idle = true
  is_idle _ = false

  -- The timeout that a round gives to `next_update`, before the deadline.
  unfoldable pub turn_timeout : CellRuntimeBudget → HostTask V → ℕ → ℕ
  turn_timeout budget task now = elim (next_idle_timeout task.tracker now) [
    | some existing ↦ min existing (budget.deadline - now)
    | none ↦ budget.deadline - now
  ]

  driver_turn :
      Result ToolError (DriverUpdate V) → ℕ → List (ServiceStep V) → HostTask V → Service V → Turn V
  unfolding record_and_exit_host_error idle_turn update_turn
  driver_turn (err e) after gap task w = record_and_exit_host_error e gap task w
  driver_turn (ok update) after gap task w =
      if is_idle update.status
      then idle_turn after gap task w
      else update_turn after gap update task w

  -- One round: `now` is the time at its head, `after` the time when the driver has answered.
  unfoldable pub host_turn :
      CellRuntimeBudget
      → ℕ
      → ℕ
      → Result ToolError (DriverUpdate V)
      → List (ServiceStep V)
      → HostTask V
      → Service V
      → Turn V
  unfolding cancel_cell_for_runtime_deadline driver_turn
  host_turn budget now after driver_update gap task w =
      if leb budget.deadline now
      then cancel_cell_for_runtime_deadline budget.timeout_ms gap task w
      else driver_turn driver_update after gap task w

-- What one round of the loop meets: the two times, the driver's answer and the others' steps.
pub record Round (V : Type 0) : Type 0 where
  pub now : ℕ
  pub after : ℕ
  pub driver_update : Result ToolError (DriverUpdate V)
  pub gap : List (ServiceStep V)

module _ {V : Type 0} where
  -- The loop, over the rounds that it meets; between two rounds others take the steps of `between`.
  unfoldable pub host_loop :
      CellRuntimeBudget → List (Round V × List (ServiceStep V)) → HostTask V → Service V → Turn V
  unfolding host_turn
  host_loop budget [] task w = go_on task w
  host_loop budget ((r, between) ∷ rounds) task w =
      elim (host_turn budget r.now r.after r.driver_update r.gap task w) [
        | exit finish task' w' ↦ exit finish task' w'
        | go_on task' w' ↦ host_loop budget rounds task' (take_steps between w')
      ]
