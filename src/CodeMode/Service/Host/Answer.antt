-- ===== src/CodeMode/Service/Host/Answer.antt =====
-- The host answers the caller of `execute`, and stops (src/code_mode/service.rs).
use rust_claw_oc.Prelude.{
  ℕ, ◌≡◌, refl, ◌⊎◌, inl, inr, Option, none, some, or_some, List, leb, Result, ok, err,
  Result-cases, Option-cases, Bool-cases,
}
use rust_claw_oc.Tools.Protocol.{ToolError}
use rust_claw_oc.CodeMode.Response.{ExecRunResult, is_running, auto_flush}
use rust_claw_oc.CodeMode.Driver.{CellStatus, DriverUpdate, progress, pending_tool, idle, terminal}
use rust_claw_oc.CodeMode.Cell.{CellSnapshot, to_exec_result, phase_lifecycle}
use rust_claw_oc.CodeMode.Tracker.{should_auto_flush_now, mark_published, observe_events}
use rust_claw_oc.CodeMode.Service.{
  Service, update_host, request_cancel, record_driver_update_in_session,
  record_cell_cancellation_in_session, peek_cell_summary, publish_summary_update,
  record_host_error_in_session,
}
use rust_claw_oc.CodeMode.Service.Steps.{ServiceStep, take_steps}
use rust_claw_oc.CodeMode.Service.Host.{
  CellRuntimeBudget, HostTask, CellTraceFinish, Turn, go_on, exit, publish_initial, fail_and_exit,
  publish_and_unblock, record_and_exit_host_error, deadline_reason,
  cancel_cell_for_runtime_deadline, idle_turn, progress_turn, pending_tool_turn, terminal_turn,
  status_turn, update_turn, is_idle, driver_turn, host_turn,
}

module _ {V : Type 0} where
  abbrev pub Sends : Option (Result ToolError (ExecRunResult V)) → HostTask V → Type 0
  Sends sent task =
      (r : Result ToolError (ExecRunResult V)) × (task.initial ≡ or_some sent (some r))

  -- A turn that exits has answered: with what was sent before, if anything was. One that goes on may have.
  abbrev pub Answers : Option (Result ToolError (ExecRunResult V)) → Turn V → Type 0
  Answers sent (go_on task w) = (task.initial ≡ sent) ⊎ Sends sent task
  Answers sent (exit f task w) = Sends sent task

  fail_and_exit-Answers :
      (e : ToolError) (task : HostTask V) (w : Service V)
      → Answers task.initial (fail_and_exit e task w)
  unfolding fail_and_exit
  fail_and_exit-Answers e task w = (err e, refl)

  publish_and_unblock-Answers :
      (summary : ExecRunResult V) (task : HostTask V) (w : Service V)
      (onward : HostTask V → Service V → Turn V)
      → ((u : Service V) → Answers task.initial (onward (publish_initial summary task) u))
      → Answers task.initial (publish_and_unblock summary task w onward)
  unfolding publish_and_unblock
  publish_and_unblock-Answers summary task w onward h =
      let (published, u) =
        publish_summary_update task.session_id task.cell_id task.host summary w in
      elim (Result-cases published) [
        | inl (e, failed) ↦ rw (failed, publish_and_unblock) (fail_and_exit-Answers e task u)
        | inr (x, done) ↦ rw (done, publish_and_unblock) (h u)
      ]

  publish_initial-Sends :
      (summary : ExecRunResult V) (task : HostTask V)
      → Sends task.initial (publish_initial summary task)
  unfolding publish_initial
  publish_initial-Sends summary task = (ok summary, refl)

  -- To publish and go on, or to publish and exit.
  publish_go_on :
      (summary : ExecRunResult V) (task : HostTask V) (w : Service V)
      → Answers task.initial (publish_and_unblock summary task w go_on)
  publish_go_on summary task w =
      publish_and_unblock-Answers summary task w go_on
        (λ u. inr (publish_initial-Sends summary task))

  publish_exit :
      (summary : ExecRunResult V) (task : HostTask V) (w : Service V) (f : CellTraceFinish)
      → Answers task.initial (publish_and_unblock summary task w (λ t u. exit f t u))
  publish_exit summary task w f =
      publish_and_unblock-Answers summary task w (λ t u. exit f t u)
        (λ u. publish_initial-Sends summary task)

  host_error-Answers :
      (e : ToolError) (gap : List (ServiceStep V)) (task : HostTask V) (w : Service V)
      → Answers task.initial (record_and_exit_host_error e gap task w)
  unfolding record_and_exit_host_error
  host_error-Answers e gap task w =
      let (summary, u) = record_host_error_in_session task.session_id task.cell_id e w in
      elim (Option-cases summary) [
        | inl absent ↦ rw (absent, record_and_exit_host_error) (fail_and_exit-Answers e task u)
        | inr (s, recorded) ↦
            rw (recorded, record_and_exit_host_error) (publish_initial-Sends s task)
      ]

  deadline-Answers :
      (ms : ℕ) (gap : List (ServiceStep V)) (task : HostTask V) (w : Service V)
      → Answers task.initial (cancel_cell_for_runtime_deadline ms gap task w)
  unfolding cancel_cell_for_runtime_deadline
  deadline-Answers ms gap task w =
      let asked = record w {
        hosts = update_host (request_cancel (deadline_reason ms)) task.host w.hosts;
      } in
      let (recorded, u) =
        record_cell_cancellation_in_session task.session_id task.cell_id (deadline_reason ms)
          asked in
      elim (Result-cases recorded) [
        | inl (e, failed) ↦
            rw (failed, cancel_cell_for_runtime_deadline) (fail_and_exit-Answers e task u)
        | inr (snapshot, done) ↦
            rw (done, cancel_cell_for_runtime_deadline)
              (publish_exit (to_exec_result snapshot none none) task (take_steps gap u) _)
      ]

  idle-Answers :
      (after : ℕ) (gap : List (ServiceStep V)) (task : HostTask V) (w : Service V)
      → Answers task.initial (idle_turn after gap task w)
  unfolding idle_turn
  idle-Answers after gap task w =
      let (peeked, u) = peek_cell_summary task.session_id task.cell_id (some auto_flush) none w in
      elim (Bool-cases (should_auto_flush_now task.tracker after)) [
        | inr quiet ↦ rw (quiet, idle_turn) (inl refl)
        | inl due ↦ elim (Result-cases peeked) [
          | inl (e, failed) ↦ rw (due, failed, idle_turn) (fail_and_exit-Answers e task u)
          | inr (summary, seen) ↦
              rw (due, seen, idle_turn)
                (publish_go_on summary (record task { tracker = mark_published task.tracker after })
                  (take_steps gap u))
        ]
      ]

  progress-Answers :
      (after : ℕ) (flushed : Option (Option V)) (snapshot : CellSnapshot V) (task : HostTask V)
      (w : Service V)
      → Answers task.initial (progress_turn after flushed snapshot task w)
  unfolding progress_turn
  progress-Answers after (some value) snapshot task w = publish_go_on _ _ w
  progress-Answers after none snapshot task w =
      elim (Bool-cases (should_auto_flush_now task.tracker after)) [
        | inr quiet ↦ rw (quiet, progress_turn) (inl refl)
        | inl due ↦ rw (due, progress_turn) (publish_go_on _ _ w)
      ]

  pending_tool-Answers :
      (snapshot : CellSnapshot V) (task : HostTask V) (w : Service V)
      → Answers task.initial (pending_tool_turn snapshot task w)
  unfolding pending_tool_turn
  pending_tool-Answers snapshot task w =
      let (published, u) =
        publish_summary_update task.session_id task.cell_id task.host
          (to_exec_result snapshot none none) w in
      elim (Bool-cases (is_running (phase_lifecycle snapshot.phase))) [
        | inr over ↦ rw (over, pending_tool_turn) (fail_and_exit-Answers _ task w)
        | inl live ↦ elim (Result-cases published) [
          | inl (e, failed) ↦ rw (live, failed, pending_tool_turn) (fail_and_exit-Answers e task u)
          | inr (x, done) ↦ rw (live, done, pending_tool_turn) (inl refl)
        ]
      ]

  status-Answers :
      (st : CellStatus V) (after : ℕ) (flushed : Option (Option V)) (snapshot : CellSnapshot V)
      (task : HostTask V) (w : Service V)
      → Answers task.initial (status_turn st after flushed snapshot task w)
  unfolding status_turn
  status-Answers progress after flushed snapshot task w =
      progress-Answers after flushed snapshot task w
  status-Answers pending_tool after flushed snapshot task w = pending_tool-Answers snapshot task w
  status-Answers (terminal result) after flushed snapshot task w =
      unfold terminal_turn in publish_exit (to_exec_result snapshot none none) task w _
  status-Answers idle after flushed snapshot task w = inl refl

  update-Answers :
      (after : ℕ) (gap : List (ServiceStep V)) (update : DriverUpdate V) (task : HostTask V)
      (w : Service V)
      → Answers task.initial (update_turn after gap update task w)
  unfolding update_turn
  update-Answers after gap update task w =
      let task' = record task { tracker = (observe_events task.tracker update.events).0 } in
      let flushed = (observe_events task.tracker update.events).1 in
      let (recorded, u) = record_driver_update_in_session task.session_id task.cell_id update w in
      elim (Result-cases recorded) [
        | inl (e, failed) ↦ rw (failed, update_turn) (fail_and_exit-Answers e task' u)
        | inr (snapshot, done) ↦
            rw (done, update_turn)
              (status-Answers update.status after flushed snapshot task' (take_steps gap u))
      ]

  driver-Answers :
      (answer : Result ToolError (DriverUpdate V)) (after : ℕ) (gap : List (ServiceStep V))
      (task : HostTask V) (w : Service V)
      → Answers task.initial (driver_turn answer after gap task w)
  unfolding driver_turn
  driver-Answers (err e) after gap task w = host_error-Answers e gap task w
  driver-Answers (ok update) after gap task w = elim (Bool-cases (is_idle update.status)) [
    | inl quiet ↦ rw (quiet, driver_turn) (idle-Answers after gap task w)
    | inr busy ↦ rw (busy, driver_turn) (update-Answers after gap update task w)
  ]

  pub host_turn-Answers :
      (budget : CellRuntimeBudget) (now after : ℕ) (answer : Result ToolError (DriverUpdate V))
      (gap : List (ServiceStep V)) (task : HostTask V) (w : Service V)
      → Answers task.initial (host_turn budget now after answer gap task w)
  unfolding host_turn
  host_turn-Answers budget now after answer gap task w =
      elim (Bool-cases (leb budget.deadline now)) [
        | inl over ↦ rw (over, host_turn) (deadline-Answers budget.timeout_ms gap task w)
        | inr time ↦ rw (time, host_turn) (driver-Answers answer after gap task w)
      ]
