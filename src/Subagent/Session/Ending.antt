-- ===== src/Subagent/Session/Ending.antt =====
-- How the run of a sub-agent ends (src/subagent_runtime.rs).
use rust_claw_oc.Prelude.{
  ◌≡◌, ◌∙◌, sym, if◌then◌else◌, refl, Bool, true, false, not, String, Option, none, some, is_none,
  Result, ok, err, arith,
}
use rust_claw_oc.Tools.Protocol.{ToolError, TraceStatus}
use rust_claw_oc.Agent.Exit
use rust_claw_oc.Agent.Exit.{RunExit}
use rust_claw_oc.Subagent.State.{
  SubagentResult, SubagentJobState, completed, timed_out, is_terminal, into_result,
  finished_at_unix_ms,
}
use rust_claw_oc.Subagent.Session.{
  failed_outcome, cancelled_outcome, interrupted, timeout_summary, SubagentExecutionRequest,
  SubagentRunPaths, RunResult, exited, elapsed, Collected, FailureStage, SubagentRunOutcome,
  exit_outcome, elapsed_outcome, finish_failed, execute_subagent_session, collected_result,
}

abbrev pub is_completed : SubagentJobState → Bool
is_completed (completed t r) = true
is_completed _ = false

abbrev pub is_timed_out : SubagentJobState → Bool
is_timed_out (timed_out t p) = true
is_timed_out _ = false

abbrev pub is_ok_status : TraceStatus → Bool
is_ok_status TraceStatus.ok = true
is_ok_status _ = false

-- The agent finished its task.
abbrev pub is_finished : RunResult → Bool
is_finished (exited (Exit.finished summary)) = true
is_finished _ = false

-- No answer came in time, and nobody had cancelled the job by then.
abbrev pub is_out_of_time : RunResult → Collected → Bool
is_out_of_time elapsed seen = not seen.cancelled
is_out_of_time _ seen = false

abbrev pub ok_value : Result ToolError SubagentResult → Option SubagentResult
ok_value (ok r) = some r
ok_value (err e) = none

-- The outcome reports what was collected, and says success in all its places or in none.
pub record IsSettled (execution : SubagentExecutionRequest) (paths : SubagentRunPaths)
    (run : RunResult) (seen : Collected) (o : SubagentRunOutcome) (stage : FailureStage)
    : Type 0 where
  pub terminal : is_terminal o.state ≡ true
  pub time : finished_at_unix_ms o.state ≡ some seen.finished_at
  pub result :
      (summary : String) × (into_result o.state
        ≡ some (collected_result execution paths seen (is_finished run) summary))
  pub completed_iff : is_completed o.state ≡ is_finished run
  pub status_iff : is_ok_status o.trace_status ≡ is_finished run
  pub stage_iff : is_none stage ≡ is_finished run
  pub timed_out_iff : is_timed_out o.state ≡ is_out_of_time run seen

-- A run with a failure, which is neither a success nor a timeout.
failed_outcome-IsSettled :
    (execution : SubagentExecutionRequest) (paths : SubagentRunPaths) (run : RunResult)
    (seen : Collected) (status : TraceStatus) (error summary : String) (stage : String × String)
    → is_finished run ≡ false
    → is_out_of_time run seen ≡ false
    → is_ok_status status ≡ false
    → IsSettled execution paths run seen
        (failed_outcome execution paths seen status error summary)
        (some stage)
unfolding into_result
failed_outcome-IsSettled execution paths run seen status error summary stage a b c = record {
  terminal = refl;
  time = refl;
  result = (summary, rw a refl);
  completed_iff = sym a;
  status_iff = c ∙ sym a;
  stage_iff = sym a;
  timed_out_iff = sym b;
}

cancelled_outcome-IsSettled :
    (execution : SubagentExecutionRequest) (paths : SubagentRunPaths) (run : RunResult)
    (seen : Collected) (stage : String × String)
    → is_finished run ≡ false
    → is_out_of_time run seen ≡ false
    → IsSettled execution paths run seen (cancelled_outcome execution paths seen) (some stage)
unfolding into_result
cancelled_outcome-IsSettled execution paths run seen stage a b = record {
  terminal = refl;
  time = refl;
  result = (interrupted, rw a refl);
  completed_iff = sym a;
  status_iff = sym a;
  stage_iff = sym a;
  timed_out_iff = sym b;
}

elapsed_outcome-IsSettled :
    (execution : SubagentExecutionRequest) (paths : SubagentRunPaths) (seen : Collected)
    → IsSettled execution paths elapsed seen
        (elapsed_outcome execution paths seen).0
        (elapsed_outcome execution paths seen).1
unfolding elapsed_outcome into_result
elapsed_outcome-IsSettled execution paths seen = record {
  terminal = ground arith;
  time = ground arith;
  result = (if seen.cancelled then interrupted else timeout_summary execution, ground arith);
  completed_iff = ground arith;
  status_iff = ground arith;
  stage_iff = ground arith;
  timed_out_iff = ground arith;
}

-- However the agent's step ends, its outcome is a final state at the time when it ended, with a
-- result that holds what was collected; the state, the result, the trace and the failure stage
-- agree on success, which is there exactly if the agent finished its task; and the state is a
-- timeout exactly if no answer came in time and the job was not cancelled.
pub execute_subagent_session-IsSettled :
    (execution : SubagentExecutionRequest) (paths : SubagentRunPaths) (run : RunResult)
    (seen : Collected)
    → IsSettled execution paths run seen
        (execute_subagent_session execution paths run seen).0
        (execute_subagent_session execution paths run seen).1
unfolding execute_subagent_session exit_outcome finish_failed into_result
execute_subagent_session-IsSettled execution paths (exited (Exit.finished s)) seen = record {
  terminal = refl;
  time = refl;
  result = (s, refl);
  completed_iff = refl;
  status_iff = refl;
  stage_iff = refl;
  timed_out_iff = refl;
}
execute_subagent_session-IsSettled execution paths (exited Exit.stopped_by_user) seen =
    cancelled_outcome-IsSettled execution paths (exited Exit.stopped_by_user) seen
      ("cancelled", interrupted) refl refl
execute_subagent_session-IsSettled execution paths elapsed seen =
    elapsed_outcome-IsSettled execution paths seen
execute_subagent_session-IsSettled execution paths run seen =
    failed_outcome-IsSettled execution paths run seen _ _ _ _ refl refl refl
