-- ===== src/Subagent/Jobs.antt =====
-- The store of sub-agent jobs (src/subagent_runtime.rs, `SubagentRuntime`). What runs under one lock
-- is one function. A handle is shared by `Arc` between the map of jobs and the tasks that run them:
-- `handles` has every handle ever made, and `jobs` the names that the map still has. A job has the
-- fresh name that its caller gives. Times are milliseconds since the epoch.
pub mod Steps
pub mod Expiry
mod Tests
use rust_claw_oc.Prelude.{
  ℕ, ◌+◌, ◌-◌, max, Bool, true, false, not, ◌&&◌, ◌||◌, String, Option, none, some, is_some,
  unwrap_or, List, [], ◌∷◌, push, keep, Result, ok, err, concat, if◌then◌else◌, ltb, leb, str_eq,
}
use rust_claw_oc.Prelude.Dict.{Dict, lookup, insert, remove}
use rust_claw_oc.Tools.Protocol.{ToolError, execution_failed}
use rust_claw_oc.Subagent.Debug.{
  SubagentDebugSnapshot, new_debug, set_debug_state_label, finalize_debug_state,
}
use rust_claw_oc.Subagent.State.{
  SubagentJobState, pending, running, completed, failed, cancelled, timed_out, SubagentResult,
  is_terminal, finish_reason, finished_at_unix_ms,
}

pub record SubagentJobMeta : Type 0 where
  pub job_id : String
  pub parent_session_id : String
  pub parent_reply_to : String
  pub sub_session_id : String
  pub goal : String
  pub context : String
  pub skill_name : Option String
  pub created_at_unix_ms : ℕ
  pub transcript_path : String
  pub event_log_path : String

pub record SubagentJobHandle : Type 0 where
  pub meta : SubagentJobMeta
  pub state : SubagentJobState
  pub debug : SubagentDebugSnapshot
  pub consumed_at_unix_ms : Option ℕ
  pub cancelled : Bool

unfoldable pub new_handle : ℕ → SubagentJobMeta → SubagentJobHandle
unfolding new_debug
new_handle now meta = record {
  meta = meta;
  state = pending;
  debug = new_debug now;
  consumed_at_unix_ms = none;
  cancelled = false;
}

pub record SubagentJobSnapshot : Type 0 where
  pub meta : SubagentJobMeta
  pub state : SubagentJobState
  pub consumed : Bool
  pub consumed_at_unix_ms : Option ℕ
  pub debug : SubagentDebugSnapshot

pub record SubagentNotification : Type 0 where
  pub job_id : String
  pub sub_session_id : String
  pub status : String
  pub summary : String

pub record SubagentRuntime : Type 0 where
  pub handles : Dict SubagentJobHandle
  pub jobs : List String
  pub notifications : Dict (List SubagentNotification)
  pub running_jobs : ℕ
  pub max_concurrent_jobs : ℕ

unfoldable pub new_runtime : ℕ → SubagentRuntime
new_runtime max_concurrent_jobs = record {
  handles = [];
  jobs = [];
  notifications = [];
  running_jobs = 0;
  max_concurrent_jobs = max max_concurrent_jobs 1;
}

abbrev pub unconsumed_terminal_job_ttl : ℕ
unconsumed_terminal_job_ttl = 1800000

abbrev pub consumed_terminal_job_ttl : ℕ
consumed_terminal_job_ttl = 300000

abbrev pub ttl : Option ℕ → ℕ
ttl none = unconsumed_terminal_job_ttl
ttl (some at) = consumed_terminal_job_ttl

abbrev pub handle_expired : ℕ → SubagentJobHandle → Bool
handle_expired now h = elim (finished_at_unix_ms h.state) [
  | none ↦ false
  | some finished ↦ leb (ttl h.consumed_at_unix_ms) (now - finished)
]

abbrev pub job_expired : ℕ → SubagentRuntime → String → Bool
job_expired now r job_id = elim (lookup job_id r.handles) [
  | none ↦ false
  | some h ↦ handle_expired now h
]

-- Where nobody holds the lock of a handle; a job whose lock is held is looked at the next time.
unfoldable pub cleanup_expired_jobs : ℕ → SubagentRuntime → SubagentRuntime
cleanup_expired_jobs now r = record r {
  jobs = keep (λ job_id. not (job_expired now r job_id)) r.jobs;
}

abbrev pub has_job : String → List String → Bool
has_job job_id [] = false
has_job job_id (j ∷ jobs) = str_eq j job_id || has_job job_id jobs

unfoldable pub get_job_handle : String → SubagentRuntime → Option SubagentJobHandle
get_job_handle job_id r = if has_job job_id r.jobs then lookup job_id r.handles else none

abbrev pub unknown_job : String → ToolError
unknown_job job_id = execution_failed (concat ("Unknown subagent job: " ∷ job_id ∷ []))

-- `spawn_job_with_limits` up to its first lock, and from there on.
unfoldable pub spawn_check : SubagentRuntime → Result ToolError (Unit {0})
spawn_check r =
    if leb r.max_concurrent_jobs r.running_jobs
    then err (
        execution_failed
          "Too many concurrent subagent jobs. Wait for existing jobs to finish before spawning more.")
    else ok tt

unfoldable pub spawn_insert : ℕ → SubagentJobMeta → SubagentRuntime → SubagentRuntime
unfolding new_handle
spawn_insert now meta r = record r {
  handles = insert meta.job_id (new_handle now meta) r.handles;
  jobs = push r.jobs meta.job_id;
  running_jobs = r.running_jobs + 1;
}

-- `RunningJobGuard::drop`
unfoldable pub drop_guard : SubagentRuntime → SubagentRuntime
drop_guard r = record r { running_jobs = r.running_jobs - 1 }

-- A task works on the handle that it holds, whether or not the map still has the job.
abbrev pub update_handle :
    String → (SubagentJobHandle → SubagentJobHandle) → SubagentRuntime → SubagentRuntime
update_handle job_id f r = elim (lookup job_id r.handles) [
  | none ↦ r
  | some h ↦ record r { handles = insert job_id (f h) r.handles }
]

-- The first lock of `run_job`.
unfoldable pub start_job : ℕ → String → SubagentRuntime → SubagentRuntime
start_job now job_id r = update_handle job_id (λ h. record h { state = running now }) r

-- The debug snapshot has a lock of its own: when a run starts, and when it ends.
abbrev pub with_label : String → ℕ → SubagentJobHandle → SubagentJobHandle
with_label label now h = record h { debug = set_debug_state_label label now h.debug }

unfoldable pub label_job : String → ℕ → String → SubagentRuntime → SubagentRuntime
label_job label now job_id r = update_handle job_id (with_label label now) r

abbrev pub finalized : ℕ → SubagentJobHandle → SubagentJobHandle
finalized now h = record h { debug = finalize_debug_state h.state now h.debug }

unfoldable pub finalize_job : ℕ → String → SubagentRuntime → SubagentRuntime
finalize_job now job_id r = update_handle job_id (finalized now) r

abbrev pub write_final : SubagentJobState → SubagentJobHandle → SubagentJobHandle
write_final final h = if is_terminal h.state then h else record h { state = final }

-- The write of `finish_job`.
unfoldable pub finish_write : SubagentJobState → String → SubagentRuntime → SubagentRuntime
finish_write final job_id r = update_handle job_id (write_final final) r

abbrev partial_summary : Option SubagentResult → String → String
partial_summary none default = default
partial_summary (some result) default = result.summary

unfoldable pub notification_summary : SubagentJobState → Option String
notification_summary (completed t result) = some result.summary
notification_summary (failed t error partial) = some (partial_summary partial error)
notification_summary (cancelled t partial) =
    some (partial_summary partial "Sub-agent execution was interrupted.")
notification_summary (timed_out t partial) = some (partial_summary partial "Sub-agent timed out.")
notification_summary _ = none

unfoldable pub notification_of : SubagentJobMeta → SubagentJobState → Option SubagentNotification
notification_of meta final = elim (notification_summary final) [
  | none ↦ none
  | some text ↦ some (record {
    job_id = meta.job_id;
    sub_session_id = meta.sub_session_id;
    status = finish_reason final;
    summary = text;
  })
]

abbrev pub queue_of : String → SubagentRuntime → List SubagentNotification
queue_of parent r = unwrap_or (lookup parent r.notifications) []

unfoldable pub enqueue_notification :
    SubagentJobMeta → SubagentJobState → SubagentRuntime → SubagentRuntime
unfolding notification_of
enqueue_notification meta final r = elim (notification_of meta final) [
  | none ↦ r
  | some n ↦ record r {
    notifications =
        insert meta.parent_session_id (push (queue_of meta.parent_session_id r) n) r.notifications;
  }
]

unfoldable pub take_notifications :
    String → SubagentRuntime → List SubagentNotification × SubagentRuntime
take_notifications parent r =
    (queue_of parent r, record r { notifications = remove parent r.notifications })

abbrev pub set_cancelled : ℕ → SubagentJobHandle → SubagentJobHandle
set_cancelled now h = write_final (cancelled now none) (record h { cancelled = true })

-- `cancel_job` after its cleanup, up to the notification: the flag and the state. What it then
-- announces is the second component.
unfoldable pub cancel_job :
    ℕ
    → String
    → SubagentRuntime
    → Result ToolError (Option (SubagentJobMeta × SubagentJobState)) × SubagentRuntime
unfolding get_job_handle
cancel_job now job_id r = elim (get_job_handle job_id r) [
  | none ↦ (err (unknown_job job_id), r)
  | some h ↦ (
    ok (if is_terminal h.state then none else some (h.meta, cancelled now none)),
    update_handle job_id (set_cancelled now) r,
  )
]

abbrev pub consume : ℕ → SubagentJobHandle → SubagentJobHandle
consume now h =
    if is_terminal h.state
    then record h { consumed_at_unix_ms = some (unwrap_or h.consumed_at_unix_ms now) }
    else h

abbrev snapshot_of : SubagentJobHandle → SubagentJobSnapshot
snapshot_of h = record {
  meta = h.meta;
  state = h.state;
  consumed = is_some h.consumed_at_unix_ms;
  consumed_at_unix_ms = h.consumed_at_unix_ms;
  debug = h.debug;
}

-- `get_job_snapshot` after its cleanup.
unfoldable pub get_job_snapshot :
    ℕ → String → Bool → SubagentRuntime → Result ToolError SubagentJobSnapshot × SubagentRuntime
unfolding get_job_handle
get_job_snapshot now job_id wants_consume r = elim (get_job_handle job_id r) [
  | none ↦ (err (unknown_job job_id), r)
  | some h ↦
      if wants_consume
      then (ok (snapshot_of (consume now h)), update_handle job_id (consume now) r)
      else (ok (snapshot_of h), r)
]
