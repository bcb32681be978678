-- ===== src/Subagent/Jobs/Steps/Queue.antt =====
-- The notifications of a parent session (src/subagent_runtime.rs).
use rust_claw_oc.Prelude.{
  ◌≡◌, ◌∙◌, refl, sym, ap, String, none, some, List, [], ◌∷◌, ◌++◌, push, if◌then◌else◌, eq_iff,
  str_eq, Bool-cases, Option-cases, inl, inr, unwrap_or,
}
use text.Mathlib.TextPositions.{eq_refl}
use mathlib.Core.Path.{subst}
use mathlib.Core.List.{append_assoc, append-nil}
use rust_claw_oc.Prelude.Dict.{lookup, insert, lookup-insert, lookup-insert_self, lookup-remove}
use rust_claw_oc.Subagent.State.{SubagentJobState}
use rust_claw_oc.Subagent.Jobs.{
  label_job, finalize_job, with_label, finalized, SubagentJobMeta, SubagentJobHandle,
  SubagentNotification, SubagentRuntime, spawn_insert, drop_guard, start_job, finish_write,
  write_final, enqueue_notification, notification_of, take_notifications, cancel_job, set_cancelled,
  get_job_snapshot, consume, cleanup_expired_jobs, update_handle, queue_of, get_job_handle,
}
use rust_claw_oc.Subagent.Jobs.Steps.{
  label, finalize, JobStep, spawn, start, finish, cancel, read, announce, take_queue, cleanup,
  task_ended, take_job_step, take_job_steps,
}

-- What the steps announce to a parent, in order, and what the parent takes.
abbrev announced_by : String → JobStep → List SubagentNotification
announced_by parent (announce meta final) = elim (notification_of meta final) [
  | none ↦ []
  | some n ↦ if str_eq meta.parent_session_id parent then n ∷ [] else []
]
announced_by parent _ = []

abbrev pub announced : String → List JobStep → List SubagentNotification
announced parent [] = []
announced parent (s ∷ steps) = announced_by parent s ++ announced parent steps

abbrev taken_by : String → JobStep → SubagentRuntime → List SubagentNotification
taken_by parent (take_queue other) r =
    if str_eq other parent then (take_notifications other r).0 else []
taken_by parent _ r = []

unfoldable pub taken : String → List JobStep → SubagentRuntime → List SubagentNotification
taken parent [] r = []
taken parent (s ∷ steps) r = taken_by parent s r ++ taken parent steps (take_job_step s r)

update_handle_queue :
    (job_id parent : String) (f : SubagentJobHandle → SubagentJobHandle) (r : SubagentRuntime)
    → queue_of parent (update_handle job_id f r) ≡ queue_of parent r
update_handle_queue job_id parent f r = elim (Option-cases (lookup job_id r.handles)) [
  | inl gone ↦ rw (gone, update_handle) refl
  | inr (h, found) ↦ rw (found, update_handle) refl
]

-- What a parent has taken and what waits for it is, after a step, what waited and what the step
-- announced.
abbrev Conserves : String → JobStep → SubagentRuntime → Type 0
Conserves parent s r =
    taken_by parent s r ++ queue_of parent (take_job_step s r)
    ≡ queue_of parent r ++ announced_by parent s

unchanged :
    (parent : String) (r u : SubagentRuntime)
    → queue_of parent u ≡ queue_of parent r
    → queue_of parent u ≡ queue_of parent r ++ []
unchanged parent r u e = e ∙ sym (append-nil (queue_of parent r))

queue_of-push :
    (parent to : String) (n : SubagentNotification) (r : SubagentRuntime)
    → unwrap_or (lookup parent (insert to (push (queue_of to r) n) r.notifications)) []
      ≡ queue_of parent r ++ (if str_eq to parent then n ∷ [] else [])
queue_of-push parent to n r = elim (Bool-cases (str_eq to parent)) [
  | inl same ↦
      subst
        (λ p.
          unwrap_or (lookup p (insert to (push (queue_of to r) n) r.notifications)) []
          ≡ queue_of p r ++ (if str_eq to p then n ∷ [] else []))
        ((eq_iff to parent).0 same)
        (rw (lookup-insert_self to (push (queue_of to r) n) r.notifications, eq_refl to) refl)
  | inr apart ↦
      rw (lookup-insert to parent (push (queue_of to r) n) r.notifications, apart)
        (sym (append-nil (queue_of parent r)))
]

announce-Conserves :
    (parent : String) (meta : SubagentJobMeta) (final : SubagentJobState) (r : SubagentRuntime)
    → Conserves parent (announce meta final) r
unfolding take_job_step enqueue_notification
announce-Conserves parent meta final r = elim (Option-cases (notification_of meta final)) [
  | inl quiet ↦
      rw (quiet, take_job_step, enqueue_notification, announced_by) (unchanged parent r r refl)
  | inr (n, loud) ↦
      rw (loud, take_job_step, enqueue_notification, announced_by)
        (queue_of-push parent meta.parent_session_id n r)
]

take_queue-Conserves :
    (parent other : String) (r : SubagentRuntime) → Conserves parent (take_queue other) r
unfolding take_job_step take_notifications
take_queue-Conserves parent other r = elim (Bool-cases (str_eq other parent)) [
  | inl same ↦
      subst (λ p. Conserves p (take_queue other) r) ((eq_iff other parent).0 same)
        (rw (lookup-remove other other r.notifications, eq_refl other) refl)
  | inr apart ↦
      rw (lookup-remove other parent r.notifications, apart) (sym (append-nil (queue_of parent r)))
]

take_job_step-Conserves :
    (parent : String) (s : JobStep) (r : SubagentRuntime) → Conserves parent s r
unfolding take_job_step spawn_insert label_job finalize_job start_job finish_write cancel_job
    get_job_snapshot cleanup_expired_jobs drop_guard
take_job_step-Conserves parent (spawn now meta) r =
    unchanged parent r (spawn_insert now meta r) refl
take_job_step-Conserves parent (label text now id) r =
    unchanged parent r (label_job text now id r)
      (update_handle_queue id parent (with_label text now) r)
take_job_step-Conserves parent (finalize now id) r =
    unchanged parent r (finalize_job now id r) (update_handle_queue id parent (finalized now) r)
take_job_step-Conserves parent (start now id) r =
    unchanged parent r (start_job now id r) (update_handle_queue id parent _ r)
take_job_step-Conserves parent (finish final id) r =
    unchanged parent r (finish_write final id r)
      (update_handle_queue id parent (write_final final) r)
take_job_step-Conserves parent (cancel now id) r =
    unchanged parent r (cancel_job now id r).1 (elim (Option-cases (get_job_handle id r)) [
      | inl gone ↦ rw (gone, cancel_job) refl
      | inr (h, found) ↦
          rw (found, cancel_job) (update_handle_queue id parent (set_cancelled now) r)
    ])
take_job_step-Conserves parent (read now id wants) r =
    unchanged parent r (get_job_snapshot now id wants r).1
      (elim (Option-cases (get_job_handle id r)) [
        | inl gone ↦ rw (gone, get_job_snapshot) refl
        | inr (h, found) ↦ elim (Bool-cases wants) [
          | inl on ↦
              rw (found, on, get_job_snapshot) (update_handle_queue id parent (consume now) r)
          | inr off ↦ rw (found, off, get_job_snapshot) refl
        ]
      ])
take_job_step-Conserves parent (announce meta final) r = announce-Conserves parent meta final r
take_job_step-Conserves parent (take_queue other) r = take_queue-Conserves parent other r
take_job_step-Conserves parent (cleanup now) r =
    unchanged parent r (cleanup_expired_jobs now r) refl
take_job_step-Conserves parent task_ended r = unchanged parent r (drop_guard r) refl

-- Notifications are neither lost nor doubled nor reordered between their announcement and a parent
-- that takes them: what the parent takes over any steps, followed by what still waits for it, is
-- what waited at first, followed by what the steps announced to it.
pub take_job_steps-conserves :
    (parent : String) (steps : List JobStep) (r : SubagentRuntime)
    → taken parent steps r ++ queue_of parent (take_job_steps steps r)
      ≡ queue_of parent r ++ announced parent steps
unfolding taken take_job_steps
take_job_steps-conserves parent [] r = sym (append-nil (queue_of parent r))
take_job_steps-conserves parent (s ∷ steps) r =
    let u = take_job_step s r in
    let first = taken_by parent s r in
    append_assoc first (taken parent steps u) (queue_of parent (take_job_steps steps u))
    ∙ ap (λ l. first ++ l) (take_job_steps-conserves parent steps u)
    ∙ sym (append_assoc first (queue_of parent u) (announced parent steps))
    ∙ ap (λ l. l ++ announced parent steps) (take_job_step-Conserves parent s r)
    ∙ append_assoc (queue_of parent r) (announced_by parent s) (announced parent steps)
