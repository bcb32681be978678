-- ===== src/Subagent/Jobs/Expiry.antt =====
-- How long the store keeps a job (src/subagent_runtime.rs, `cleanup_expired_jobs`).
use rust_claw_oc.Prelude.{
  ◌≡◌, refl, ap, ℕ, ◌+◌, Bool, false, not, ◌&&◌, String, Option, none, some, List, [], ◌∷◌, keep,
  if◌then◌else◌, leb, arith, eq_iff, str_eq, Bool-cases, Option-cases, inl, inr,
}
use rust_claw_oc.Prelude.Dict.{lookup}
use rust_claw_oc.Subagent.State.{finished_at_unix_ms}
use rust_claw_oc.Subagent.Jobs.{
  SubagentJobHandle, SubagentRuntime, handle_expired, job_expired, cleanup_expired_jobs, has_job,
  get_job_handle,
}

-- When the job may go: never while it runs, 5 minutes after its end once its result was read, and 30
-- minutes after its end otherwise.
abbrev pub expires_at : SubagentJobHandle → Option ℕ
expires_at h = elim (finished_at_unix_ms h.state) [
  | none ↦ none
  | some finished ↦
      some (finished + (elim h.consumed_at_unix_ms [ none ↦ 1800000 | some at ↦ 300000 ]))
]

abbrev is_past : ℕ → Option ℕ → Bool
is_past now none = false
is_past now (some t) = leb t now

abbrev pub unexpired : ℕ → Option SubagentJobHandle → Option SubagentJobHandle
unexpired now none = none
unexpired now (some h) = if is_past now (expires_at h) then none else some h

handle_expired_lem :
    (now : ℕ) (h : SubagentJobHandle) → handle_expired now h ≡ is_past now (expires_at h)
handle_expired_lem now h = ground arith

has_job-keep :
    (p : String → Bool) (id : String) (jobs : List String)
    → has_job id (keep p jobs) ≡ has_job id jobs && p id
has_job-keep p id [] = refl
has_job-keep p id (j ∷ jobs) = elim (Bool-cases (str_eq j id)) [
  | inl same ↦
      let equal : p j ≡ p id = ap p ((eq_iff j id).0 same) in ground (arith, has_job-keep p id jobs)
  | inr apart ↦ ground (arith, has_job-keep p id jobs)
]

-- A cleanup takes from the store exactly the jobs whose time is over, whoever asks for them by name:
-- a running job never, a finished one 30 minutes after its end, or 5 if its result was read.
pub cleanup_expired_jobs-unexpired :
    (now : ℕ) (id : String) (r : SubagentRuntime)
    → get_job_handle id (cleanup_expired_jobs now r) ≡ unexpired now (get_job_handle id r)
unfolding cleanup_expired_jobs get_job_handle
cleanup_expired_jobs-unexpired now id r = elim (Option-cases (lookup id r.handles)) [
  | inl gone ↦ ground (arith, gone, has_job-keep (λ j. not (job_expired now r j)) id r.jobs)
  | inr (h, found) ↦ ground (
    arith,
    found,
    handle_expired_lem now h,
    has_job-keep (λ j. not (job_expired now r j)) id r.jobs,
  )
]
