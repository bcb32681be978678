-- ===== src/Subagent/Session.antt =====
-- The run of a sub-agent's session, from the end of the agent loop to the job's final state
-- (src/subagent_runtime.rs: `build_result`, `execute_subagent_session`, the end of `run_job`, and
-- `run_sync`). What the loop did and what the collector took from it are given.
pub mod Ending
mod Tests
use rust_claw_oc.Prelude.{
  ℕ, Bool, true, false, String, Option, none, some, List, [], ◌∷◌, Result, ok, err, concat,
  is_blank, trim, if◌then◌else◌,
}
use rust_claw_oc.Prelude.Decimal.{show}
use rust_claw_oc.Tools.Protocol.{ToolError, TraceStatus, execution_failed}
use rust_claw_oc.Agent.Exit
use rust_claw_oc.Agent.Exit.{RunExit}
use rust_claw_oc.CallChain.{CallChainSeed}
use rust_claw_oc.Subagent.State.{
  SubagentResult, SubagentJobState, completed, failed, cancelled, timed_out, into_result,
}

pub record SubagentSkillOrigin : Type 0 where
  pub name : String
  pub lineage : List String
  pub effective_tools : Option (List String)

pub data SubagentExecutionOrigin : Type 0 where
  goal : SubagentExecutionOrigin
  skill : SubagentSkillOrigin → SubagentExecutionOrigin

pub record SubagentExecutionRequest : Type 0 where
  pub initial_input : String
  pub display_goal : String
  pub context : String
  pub timeout_sec : ℕ
  pub max_steps : ℕ
  pub allowed_tools : List String
  pub restrict_to_allowed_tools : Bool
  pub allow_subagent_tool : Bool
  pub origin : SubagentExecutionOrigin
  pub effective_max_steps : Option ℕ
  pub effective_timeout_sec : Option ℕ
  pub call_chain_seed : CallChainSeed

abbrev pub origin_skill_name : SubagentExecutionOrigin → Option String
origin_skill_name goal = none
origin_skill_name (skill o) = some o.name

abbrev origin_lineage : SubagentExecutionOrigin → Option (List String)
origin_lineage goal = none
origin_lineage (skill o) = some o.lineage

abbrev origin_effective_tools : SubagentExecutionOrigin → Option (List String)
origin_effective_tools goal = none
origin_effective_tools (skill o) = o.effective_tools

pub record SubagentRunPaths : Type 0 where
  pub sub_session_id : String
  pub transcript_path : String
  pub event_log_path : String

unfoldable pub build_result :
    SubagentExecutionRequest
    → Bool
    → String
    → List String
    → List String
    → SubagentRunPaths
    → SubagentResult
build_result execution success summary findings artifacts paths = record {
  ok = success;
  summary = summary;
  findings = findings;
  artifacts = artifacts;
  sub_session_id = some paths.sub_session_id;
  transcript_path = some paths.transcript_path;
  event_log_path = some paths.event_log_path;
  skill_name = origin_skill_name execution.origin;
  lineage = origin_lineage execution.origin;
  effective_tools = origin_effective_tools execution.origin;
  effective_max_steps = execution.effective_max_steps;
  effective_timeout_sec = execution.effective_timeout_sec;
}

-- `tokio::time::timeout` around `agent_loop.step`: the exit, the error's text, or no answer in time.
pub data RunResult : Type 0 where
  exited : RunExit → RunResult
  step_failed : String → RunResult
  elapsed : RunResult

-- What is read once the step has ended: the collector's text, findings and artifacts, the time and
-- the flag of cancellation.
pub record Collected : Type 0 where
  pub text : String
  pub tool_outputs : List String
  pub artifacts : List String
  pub finished_at : ℕ
  pub cancelled : Bool

-- The stage and error that the collector records.
abbrev pub FailureStage : Type 0
FailureStage = Option (String × String)

pub record SubagentRunOutcome : Type 0 where
  pub state : SubagentJobState
  pub trace_status : TraceStatus

abbrev pub interrupted : String
interrupted = "Sub-agent execution was interrupted."

yielded_summary : SubagentExecutionRequest → Collected → String
yielded_summary execution seen = elim (origin_skill_name execution.origin) [
  | some name ↦ concat (
      "Delegated skill '" ∷ name
      ∷ "' attempted to wait for user input, which is not allowed in subagents." ∷ [])
  | none ↦
      if is_blank seen.text
      then "Sub-agent yielded without visible output."
      else concat ("Sub-agent yielded with output: " ∷ trim seen.text ∷ [])
]

-- The result with what was collected.
abbrev collected_result :
    SubagentExecutionRequest → SubagentRunPaths → Collected → Bool → String → SubagentResult
collected_result execution paths seen success summary =
    build_result execution success summary seen.tool_outputs seen.artifacts paths

abbrev failed_outcome :
    SubagentExecutionRequest
    → SubagentRunPaths
    → Collected
    → TraceStatus
    → String
    → String
    → SubagentRunOutcome
failed_outcome execution paths seen status error summary = record {
  state =
      failed seen.finished_at error (some (collected_result execution paths seen false summary));
  trace_status = status;
}

abbrev cancelled_outcome :
    SubagentExecutionRequest → SubagentRunPaths → Collected → SubagentRunOutcome
cancelled_outcome execution paths seen = record {
  state =
      cancelled seen.finished_at (some (collected_result execution paths seen false interrupted));
  trace_status = TraceStatus.cancelled;
}

finish_failed :
    SubagentExecutionRequest
    → SubagentRunPaths
    → Collected
    → String
    → SubagentRunOutcome × FailureStage
finish_failed execution paths seen summary = (
  failed_outcome execution paths seen TraceStatus.error summary summary,
  some ("finish", summary),
)

exit_outcome :
    SubagentExecutionRequest
    → SubagentRunPaths
    → Collected
    → RunExit
    → SubagentRunOutcome × FailureStage
unfolding yielded_summary finish_failed
exit_outcome execution paths seen (Exit.finished summary) = (
  record {
    state = completed seen.finished_at (collected_result execution paths seen true summary);
    trace_status = TraceStatus.ok;
  },
  none,
)
exit_outcome execution paths seen Exit.yielded_to_user =
    let summary = yielded_summary execution seen in
    (
      failed_outcome execution paths seen TraceStatus.yielded summary summary,
      some ("yielded_to_user", summary),
    )
exit_outcome execution paths seen (Exit.recoverable_failed summary) =
    finish_failed execution paths seen summary
exit_outcome execution paths seen (Exit.critically_failed summary) =
    finish_failed execution paths seen summary
exit_outcome execution paths seen (Exit.autopilot_stalled summary) =
    finish_failed execution paths seen summary
exit_outcome execution paths seen (Exit.energy_depleted summary) = (
  failed_outcome execution paths seen TraceStatus.error
      "Sub-agent ran out of energy (iteration limit reached)." summary,
  some ("energy_depleted", "Sub-agent ran out of energy."),
)
exit_outcome execution paths seen Exit.stopped_by_user =
    (cancelled_outcome execution paths seen, some ("cancelled", interrupted))

timeout_summary : SubagentExecutionRequest → String
timeout_summary execution = concat (
    "Sub-agent timed out after "
    ∷ show execution.timeout_sec
    ∷ "s while working on '"
    ∷ execution.display_goal
    ∷ "'."
    ∷ [])

elapsed_outcome :
    SubagentExecutionRequest → SubagentRunPaths → Collected → SubagentRunOutcome × FailureStage
unfolding timeout_summary
elapsed_outcome execution paths seen =
    if seen.cancelled
    then (cancelled_outcome execution paths seen, some ("cancelled", interrupted))
    else (let summary = timeout_summary execution in
        (
          record {
            state =
                timed_out seen.finished_at
                  (some (collected_result execution paths seen false summary));
            trace_status = TraceStatus.timed_out;
          },
          some ("timeout", summary),
        ))

unfoldable pub execute_subagent_session :
    SubagentExecutionRequest
    → SubagentRunPaths
    → RunResult
    → Collected
    → SubagentRunOutcome × FailureStage
unfolding exit_outcome elapsed_outcome
execute_subagent_session execution paths (exited e) seen = exit_outcome execution paths seen e
execute_subagent_session execution paths (step_failed error) seen = (
  failed_outcome execution paths seen TraceStatus.error error
      (concat ("Sub-agent error: " ∷ error ∷ [])),
  some ("llm_stream_read", error),
)
execute_subagent_session execution paths elapsed seen = elapsed_outcome execution paths seen

-- `run_job` on a session that could not be built.
unfoldable pub build_failed : ℕ → String → SubagentRunOutcome
build_failed now error = record { state = failed now error none; trace_status = TraceStatus.error }

-- The state of a job whose flag of cancellation is set at its end.
cancelled_state : ℕ → SubagentJobState → SubagentJobState
cancelled_state now (cancelled t p) = cancelled t p
cancelled_state now (completed t r) = cancelled t (some r)
cancelled_state now (failed t e (some r)) = cancelled t (some r)
cancelled_state now _ = cancelled now none

unfoldable pub override_cancelled : Bool → ℕ → SubagentRunOutcome → SubagentRunOutcome
unfolding cancelled_state
override_cancelled flag now outcome =
    if flag
    then record { state = cancelled_state now outcome.state; trace_status = TraceStatus.cancelled }
    else outcome

abbrev ok_or : {A : Type 0} → Option A → ToolError → Result ToolError A
ok_or none e = err e
ok_or (some a) e = ok a

-- What `run_sync` answers, from the final state.
unfoldable pub sync_result : SubagentJobState → Result ToolError SubagentResult
unfolding into_result
sync_result (completed t r) = ok r
sync_result (failed t e none) = err (execution_failed e)
sync_result state = ok_or (into_result state) (execution_failed "Sub-agent ended without a result.")
