-- ===== src/Subagent/State.antt =====
-- The states of a job and its result (src/subagent_runtime.rs, src/tools/subagent.rs). Times are
-- milliseconds since the epoch.
use rust_claw_oc.Prelude.{ℕ, Bool, true, false, String, Option, none, some, List, or_some}

pub record SubagentResult : Type 0 where
  pub ok : Bool
  pub summary : String
  pub findings : List String
  pub artifacts : List String
  pub sub_session_id : Option String
  pub transcript_path : Option String
  pub event_log_path : Option String
  pub skill_name : Option String
  pub lineage : Option (List String)
  pub effective_tools : Option (List String)
  pub effective_max_steps : Option ℕ
  pub effective_timeout_sec : Option ℕ

pub data SubagentJobState : Type 0 where
  pending : SubagentJobState
  running : ℕ → SubagentJobState
  completed : ℕ → SubagentResult → SubagentJobState
  failed : ℕ → String → Option SubagentResult → SubagentJobState
  cancelled : ℕ → Option SubagentResult → SubagentJobState
  timed_out : ℕ → Option SubagentResult → SubagentJobState

unfoldable pub finish_reason : SubagentJobState → String
finish_reason pending = "pending"
finish_reason (running t) = "running"
finish_reason (completed t r) = "finished"
finish_reason (failed t e p) = "failed"
finish_reason (cancelled t p) = "cancelled"
finish_reason (timed_out t p) = "timed_out"

abbrev pub is_terminal : SubagentJobState → Bool
is_terminal pending = false
is_terminal (running t) = false
is_terminal _ = true

abbrev summary_of : Option SubagentResult → Option String
summary_of none = none
summary_of (some r) = some r.summary

unfoldable pub summary : SubagentJobState → Option String
summary (completed t r) = some r.summary
summary (failed t e p) = or_some (summary_of p) (some e)
summary (cancelled t p) = summary_of p
summary (timed_out t p) = summary_of p
summary _ = none

unfoldable pub into_result : SubagentJobState → Option SubagentResult
into_result (completed t r) = some r
into_result (failed t e p) = p
into_result (cancelled t p) = p
into_result (timed_out t p) = p
into_result _ = none

abbrev pub finished_at_unix_ms : SubagentJobState → Option ℕ
finished_at_unix_ms (completed t r) = some t
finished_at_unix_ms (failed t e p) = some t
finished_at_unix_ms (cancelled t p) = some t
finished_at_unix_ms (timed_out t p) = some t
finished_at_unix_ms _ = none
