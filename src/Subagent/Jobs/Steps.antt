-- ===== src/Subagent/Jobs/Steps.antt =====
-- The steps that callers and tasks interleave on the store of jobs (src/subagent_runtime.rs).
pub mod Queue
use rust_claw_oc.Prelude.{
  ◌≡◌, ◌∙◌, refl, sym, ap, ℕ, Bool, true, false, not, ◌||◌, String, Option, none, some, List, [],
  ◌∷◌, ◌++◌, any, push, if◌then◌else◌, arith, eq_iff, str_eq, Bool-cases, Option-cases, inl, inr,
  unwrap_or,
}
use mathlib.Core.Path.{subst}
use mathlib.Core.List.{append_assoc, append-nil}
use rust_claw_oc.Prelude.Dict.{
  lookup, insert, remove, lookup-insert, lookup-insert_self, lookup-remove,
}
use rust_claw_oc.Subagent.State.{SubagentJobState, is_terminal, cancelled}
use rust_claw_oc.Subagent.Jobs.{
  label_job, finalize_job, with_label, finalized, SubagentJobMeta, SubagentJobHandle,
  SubagentNotification, SubagentRuntime, spawn_insert, drop_guard, start_job, finish_write,
  write_final, enqueue_notification, notification_of, take_notifications, cancel_job, set_cancelled,
  get_job_snapshot, consume, cleanup_expired_jobs, update_handle, queue_of, get_job_handle,
}

pub data JobStep : Type 0 where
  spawn : ℕ → SubagentJobMeta → JobStep
  start : ℕ → String → JobStep
  finish : SubagentJobState → String → JobStep
  cancel : ℕ → String → JobStep
  label : String → ℕ → String → JobStep
  finalize : ℕ → String → JobStep
  read : ℕ → String → Bool → JobStep
  announce : SubagentJobMeta → SubagentJobState → JobStep
  take_queue : String → JobStep
  cleanup : ℕ → JobStep
  task_ended : JobStep

unfoldable pub take_job_step : JobStep → SubagentRuntime → SubagentRuntime
take_job_step (spawn now meta) r = spawn_insert now meta r
take_job_step (start now id) r = start_job now id r
take_job_step (finish final id) r = finish_write final id r
take_job_step (cancel now id) r = (cancel_job now id r).1
take_job_step (label text now id) r = label_job text now id r
take_job_step (finalize now id) r = finalize_job now id r
take_job_step (read now id wants_consume) r = (get_job_snapshot now id wants_consume r).1
take_job_step (announce meta final) r = enqueue_notification meta final r
take_job_step (take_queue parent) r = (take_notifications parent r).1
take_job_step (cleanup now) r = cleanup_expired_jobs now r
take_job_step task_ended r = drop_guard r

unfoldable pub take_job_steps : List JobStep → SubagentRuntime → SubagentRuntime
unfolding take_job_step
take_job_steps [] r = r
take_job_steps (s ∷ steps) r = take_job_steps steps (take_job_step s r)

-- The steps that make the job anew or start its run.
abbrev pub begins : String → JobStep → Bool
begins id (spawn now meta) = str_eq meta.job_id id
begins id (start now job_id) = str_eq job_id id
begins id _ = false

-- Job `id` has a handle in the final state.
abbrev pub IsFinal : String → SubagentJobState → SubagentRuntime → Type 0
IsFinal id final r =
    (h : SubagentJobHandle) × (lookup id r.handles ≡ some h)
    × (h.state ≡ final)
    × (is_terminal final ≡ true)

abbrev mapped :
    (SubagentJobHandle → SubagentJobHandle) → Option SubagentJobHandle → Option SubagentJobHandle
mapped f none = none
mapped f (some h) = some (f h)

lookup-update_handle_self :
    (id : String) (f : SubagentJobHandle → SubagentJobHandle) (r : SubagentRuntime)
    → lookup id (update_handle id f r).handles ≡ mapped f (lookup id r.handles)
lookup-update_handle_self id f r = elim (Option-cases (lookup id r.handles)) [
  | inl gone ↦ rw (gone, update_handle) gone
  | inr (h, found) ↦ rw (found, update_handle) (lookup-insert_self id (f h) r.handles)
]

lookup-update_handle_other :
    (id job_id : String) (f : SubagentJobHandle → SubagentJobHandle) (r : SubagentRuntime)
    → str_eq job_id id ≡ false
    → lookup id (update_handle job_id f r).handles ≡ lookup id r.handles
lookup-update_handle_other id job_id f r apart = elim (Option-cases (lookup job_id r.handles)) [
  | inl gone ↦ rw (gone, update_handle) refl
  | inr (h, found) ↦
      rw (found, update_handle) (lookup-insert job_id id (f h) r.handles ∙ rw apart refl)
]

-- A change of handles that keeps a final state.
abbrev KeepsFinal : (SubagentJobHandle → SubagentJobHandle) → Type 0
KeepsFinal f = (h : SubagentJobHandle) → is_terminal h.state ≡ true → (f h).state ≡ h.state

update_handle-IsFinal :
    (id job_id : String) (final : SubagentJobState) (f : SubagentJobHandle → SubagentJobHandle)
    (r : SubagentRuntime)
    → KeepsFinal f
    → IsFinal id final r
    → IsFinal id final (update_handle job_id f r)
update_handle-IsFinal id job_id final f r keeps (h, found, here, over) =
    elim (Bool-cases (str_eq job_id id)) [
      | inl same ↦
          subst (λ j. IsFinal id final (update_handle j f r)) (sym ((eq_iff job_id id).0 same))
            (
              f h,
              lookup-update_handle_self id f r ∙ ap (mapped f) found,
              keeps h (ap is_terminal here ∙ over) ∙ here,
              over,
            )
      | inr apart ↦ (h, lookup-update_handle_other id job_id f r apart ∙ found, here, over)
    ]

write_final-keeps : (final : SubagentJobState) → KeepsFinal (write_final final)
write_final-keeps final h over = ground arith

consume-keeps : (now : ℕ) → KeepsFinal (consume now)
consume-keeps now h over = ground arith

take_job_step-IsFinal :
    (s : JobStep) (id : String) (final : SubagentJobState) (r : SubagentRuntime)
    → begins id s ≡ false
    → IsFinal id final r
    → IsFinal id final (take_job_step s r)
unfolding take_job_step spawn_insert label_job finalize_job start_job finish_write cancel_job
    get_job_snapshot enqueue_notification take_notifications cleanup_expired_jobs drop_guard
take_job_step-IsFinal (spawn now meta) id final r apart (h, found, here, over) =
    (h, lookup-insert meta.job_id id _ r.handles ∙ rw apart found, here, over)
take_job_step-IsFinal (start now job_id) id final r apart (h, found, here, over) =
    (h, lookup-update_handle_other id job_id _ r apart ∙ found, here, over)
take_job_step-IsFinal (finish state job_id) id final r apart final_now =
    update_handle-IsFinal id job_id final (write_final state) r (write_final-keeps state) final_now
take_job_step-IsFinal (label text now job_id) id final r apart final_now =
    update_handle-IsFinal id job_id final (with_label text now) r (λ h over. refl) final_now
take_job_step-IsFinal (finalize now job_id) id final r apart final_now =
    update_handle-IsFinal id job_id final (finalized now) r (λ h over. refl) final_now
take_job_step-IsFinal (cancel now job_id) id final r apart final_now =
    elim (Option-cases (get_job_handle job_id r)) [
      | inl gone ↦ rw (gone, take_job_step, cancel_job) final_now
      | inr (h, found) ↦
          rw (found, take_job_step, cancel_job)
            (update_handle-IsFinal id job_id final (set_cancelled now) r
              (λ g. write_final-keeps (cancelled now none) (record g { cancelled = true }))
              final_now)
    ]
take_job_step-IsFinal (read now job_id wants) id final r apart final_now =
    elim (Option-cases (get_job_handle job_id r)) [
      | inl gone ↦ rw (gone, take_job_step, get_job_snapshot) final_now
      | inr (h, found) ↦ elim (Bool-cases wants) [
        | inl on ↦
            rw (found, take_job_step, get_job_snapshot, on)
              (update_handle-IsFinal id job_id final (consume now) r (consume-keeps now) final_now)
        | inr off ↦ rw (found, take_job_step, get_job_snapshot, off) final_now
      ]
    ]
take_job_step-IsFinal (announce meta state) id final r apart final_now =
    elim (Option-cases (notification_of meta state)) [
      | inl quiet ↦ rw (quiet, take_job_step, enqueue_notification) final_now
      | inr (n, loud) ↦ rw (loud, take_job_step, enqueue_notification) final_now
    ]
take_job_step-IsFinal (take_queue parent) id final r apart final_now = final_now
take_job_step-IsFinal (cleanup now) id final r apart final_now = final_now
take_job_step-IsFinal task_ended id final r apart final_now = final_now

-- The final state of a job stays: whatever is finished, cancelled, read, announced, taken or cleaned
-- up afterwards, for this job and others, its handle keeps the state, as long as no step makes the
-- job anew or starts its run.
pub take_job_steps-IsFinal :
    (steps : List JobStep) (id : String) (final : SubagentJobState) (r : SubagentRuntime)
    → any (begins id) steps ≡ false
    → IsFinal id final r
    → IsFinal id final (take_job_steps steps r)
unfolding take_job_steps
take_job_steps-IsFinal [] id final r none_begin h = h
take_job_steps-IsFinal (s ∷ steps) id final r none_begin h =
    take_job_steps-IsFinal steps id final (take_job_step s r) (ground arith)
      (take_job_step-IsFinal s id final r (ground arith) h)
