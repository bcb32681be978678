-- ===== src/Subagent/Jobs/Tests.antt =====
-- A store with one cancelled job (src/subagent_runtime.rs).
use rust_claw_oc.Prelude.{◌≡◌, refl, ◌++◌, true, none, List, [], ◌∷◌}
use rust_claw_oc.Prelude.Dict.{lookup}
use rust_claw_oc.Subagent.State.{cancelled, timed_out}
use rust_claw_oc.Subagent.Debug.{new_debug}
use rust_claw_oc.Subagent.Jobs.{
  SubagentJobMeta, SubagentJobHandle, SubagentRuntime, cleanup_expired_jobs, get_job_handle,
  queue_of,
}
use rust_claw_oc.Subagent.Jobs.Expiry.{unexpired, cleanup_expired_jobs-unexpired}
use rust_claw_oc.Subagent.Jobs.Steps.{
  JobStep, finish, cancel, read, announce, take_queue, task_ended, take_job_steps, IsFinal,
  take_job_steps-IsFinal,
}
use rust_claw_oc.Subagent.Jobs.Steps.Queue.{announced, taken, take_job_steps-conserves}

abbrev meta : SubagentJobMeta
meta = record {
  job_id = "j";
  parent_session_id = "p";
  parent_reply_to = "p";
  sub_session_id = "j";
  goal = "go";
  context = "";
  skill_name = none;
  created_at_unix_ms = 1;
  transcript_path = "t";
  event_log_path = "e";
}

abbrev handle : SubagentJobHandle
handle = record {
  meta = meta;
  state = cancelled 1000 none;
  debug = new_debug 900;
  consumed_at_unix_ms = none;
  cancelled = true;
}

abbrev store : SubagentRuntime
store = record {
  handles = ("j", handle) ∷ [];
  jobs = "j" ∷ [];
  notifications = [];
  running_jobs = 1;
  max_concurrent_jobs = 3;
}

abbrev steps : List JobStep
steps =
    announce meta (cancelled 1000 none)
    ∷ finish (timed_out 1200 none) "j"
    ∷ read 1300 "j" true
    ∷ take_queue "p"
    ∷ cancel 1400 "j"
    ∷ task_ended
    ∷ announce meta (timed_out 1200 none)
    ∷ []

cleanup_expired_jobs-unexpired_example :
    get_job_handle "j" (cleanup_expired_jobs 1801000 store)
    ≡ unexpired 1801000 (get_job_handle "j" store)
cleanup_expired_jobs-unexpired_example = cleanup_expired_jobs-unexpired 1801000 "j" store

take_job_steps-IsFinal_example : IsFinal "j" (cancelled 1000 none) (take_job_steps steps store)
unfolding lookup
take_job_steps-IsFinal_example =
    take_job_steps-IsFinal steps "j" (cancelled 1000 none) store refl (handle, refl, refl, refl)

take_job_steps-conserves_example :
    taken "p" steps store ++ queue_of "p" (take_job_steps steps store)
    ≡ queue_of "p" store ++ announced "p" steps
take_job_steps-conserves_example = take_job_steps-conserves "p" steps store
