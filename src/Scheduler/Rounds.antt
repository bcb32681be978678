-- ===== src/Scheduler/Rounds.antt =====
-- What rounds of the loop run (src/scheduler.rs).
use rust_claw_oc.Prelude.{
  ℕ, ◌-◌, ◌/◌, ◌≤◌, ◌<◌, ◌≡◌, refl, ap, inl, inr, String, true, false, none, some, unwrap_or, List,
  [], ◌∷◌, map, keep, is_empty, All, ok, if◌then◌else◌, Bool-cases, arith,
}
use mathlib.Core.Path.{subst}
use text.Mathlib.TextPositions.{eq_refl}
use rust_claw_oc.Prelude.Dict.{Dict, lookup, remove, values, lookup-remove}
use rust_claw_oc.Scheduler.{
  ScheduledTask, Scheduler, Cron, Codec, reload, save, is_due, stamp, mark_due, remove_once,
  run_round, occurs,
}

remove_once-absent :
    (k : String) (ts : List ScheduledTask) (d : Dict ScheduledTask)
    → lookup k d ≡ none
    → lookup k (remove_once ts d) ≡ none
unfolding remove_once
remove_once-absent k [] d h = h
remove_once-absent k (t ∷ ts) d h = elim (Bool-cases t.run_once) [
  | inr often ↦ rw (often, remove_once) (remove_once-absent k ts d h)
  | inl once ↦
      let gone : lookup k (remove t.id d) ≡ none = ground (arith, lookup-remove t.id k d, h) in
      rw (once, remove_once) (remove_once-absent k ts (remove t.id d) gone)
]

-- A one-time task of the list is not in the schedule.
abbrev pub IsGone : Dict ScheduledTask → ScheduledTask → Type 0
IsGone d t = if t.run_once then lookup t.id d ≡ none else Unit

remove_once-IsGone :
    (ts : List ScheduledTask) (d : Dict ScheduledTask) → All (IsGone (remove_once ts d)) ts
unfolding remove_once
remove_once-IsGone [] d = tt
remove_once-IsGone (t ∷ ts) d = elim (Bool-cases t.run_once) [
  | inr often ↦
      let step : remove_once ts d ≡ remove_once (t ∷ ts) d = rw (often, remove_once) refl in
      let first : IsGone (remove_once ts d) t = rw often tt in
      subst (λ x. All (IsGone x) (t ∷ ts)) step (first, remove_once-IsGone ts d)
  | inl once ↦
      let left = remove_once ts (remove t.id d) in
      let step : left ≡ remove_once (t ∷ ts) d = rw (once, remove_once) refl in
      let gone : lookup t.id (remove t.id d) ≡ none =
        ground (arith, lookup-remove t.id t.id d, eq_refl t.id) in
      let first : IsGone left t = rw once (remove_once-absent t.id ts (remove t.id d) gone) in
      subst (λ x. All (IsGone x) (t ∷ ts)) step (first, remove_once-IsGone ts (remove t.id d))
]

module _ (cron : Cron) where
  mark_due-run :
      (now : ℕ) (d : Dict ScheduledTask)
      → (mark_due cron now d).1 ≡ map (stamp cron now) (keep (is_due cron now) (values d))
  unfolding mark_due
  mark_due-run now [] = refl
  mark_due-run now ((k, t) ∷ d) = elim (Bool-cases (is_due cron now t)) [
    | inl due ↦ rw (due, mark_due) (ap (λ l. stamp cron now t ∷ l) (mark_due-run now d))
    | inr idle ↦ rw (idle, mark_due) (mark_due-run now d)
  ]

empty-All : (P : ScheduledTask → Type 0) (ts : List ScheduledTask) → is_empty ts ≡ true → All P ts
empty-All P [] h = tt
empty-All P (t ∷ ts) h = absurd (ground (arith, h))

module _ (codec : Codec) (cron : Cron) where
  -- What a round writes, if a task runs.
  abbrev pub written : ℕ → Scheduler → Dict ScheduledTask
  written now s =
      let (tasks, run) = mark_due cron now (reload codec s).tasks in remove_once run tasks

  -- A round runs exactly the tasks that are due, in their order, each with the time of the round as
  -- its last; and if what it writes is read back, no one-time task that has run is in the schedule,
  -- as it is read from the file, any more.
  pub run_round_lem :
      (now : ℕ) (s : Scheduler)
      → codec.parse (codec.print (written now s)) ≡ some (written now s)
      → ((run_round codec cron (ok tt) now s).0
          ≡ map (stamp cron now) (keep (is_due cron now) (values (reload codec s).tasks)))
        × All
            (IsGone (reload codec (run_round codec cron (ok tt) now s).1).tasks)
            (run_round codec cron (ok tt) now s).0
  unfolding run_round save reload
  run_round_lem now s reads =
      let d = (reload codec s).tasks in
      let run = (mark_due cron now d).1 in
      let same : run ≡ map (stamp cron now) (keep (is_due cron now) (values d)) =
        mark_due-run cron now d in
      elim (Bool-cases (is_empty run)) [
        | inl none_due ↦ rw (none_due, run_round) (same, empty-All _ run none_due)
        | inr some_due ↦
            rw (some_due, run_round)
              (same, rw reads (remove_once-IsGone run (mark_due cron now d).0))
      ]

  due_at :
      (now o : ℕ) (t : ScheduledTask)
      → t.enabled ≡ true
      → cron.parse_error t.cron ≡ none
      → cron.next_after t.cron (now - 60) ≡ some o
      → o ≤ now
      → unwrap_or t.last_run 0 / 60 < now / 60
      → is_due cron now t ≡ true
  due_at now o t enabled valid next past before = rw (enabled, valid, occurs, next) (ground arith)

  -- A round of a schedule that holds one due, repeated task.
  round_of_one :
      (k : String) (t : ScheduledTask) (now : ℕ) (s : Scheduler)
      → (reload codec s).tasks ≡ (k, t) ∷ []
      → is_due cron now t ≡ true
      → t.run_once ≡ false
      → run_round codec cron (ok tt) now s ≡ (
        stamp cron now t ∷ [],
        record {
          tasks = (k, stamp cron now t) ∷ [];
          file = some (codec.print ((k, stamp cron now t) ∷ []));
        },
      )
  unfolding run_round save reload mark_due remove_once
  round_of_one k t now s tasks due often = rw (tasks, run_round) (rw due (rw often refl))

  -- An occurrence of a task can run twice. In a schedule that holds one task, repeated, enabled, with
  -- a cron expression that is valid, a round within a minute after the occurrence `o` runs it, if it
  -- has not run in that minute of the clock; and if what the round writes is read back, so does a
  -- later round that is still within a minute after `o` but in a later minute of the clock, though
  -- `o` is the first time that either round finds.
  pub run_round-twice :
      (k : String) (t : ScheduledTask) (o first second : ℕ) (s : Scheduler)
      → (reload codec s).tasks ≡ (k, t) ∷ []
      → codec.parse (codec.print ((k, stamp cron first t) ∷ []))
        ≡ some ((k, stamp cron first t) ∷ [])
      → t.enabled ≡ true
      → t.run_once ≡ false
      → cron.parse_error t.cron ≡ none
      → cron.next_after t.cron (first - 60) ≡ some o
      → cron.next_after t.cron (second - 60) ≡ some o
      → o ≤ first
      → unwrap_or t.last_run 0 / 60 < first / 60
      → first / 60 < second / 60
      → ((run_round codec cron (ok tt) first s).0 ≡ stamp cron first t ∷ [])
        × ((run_round codec cron (ok tt) second (run_round codec cron (ok tt) first s).1).0
            ≡ stamp cron second t ∷ [])
  unfolding run_round save reload mark_due remove_once
  run_round-twice k t o first second s tasks reads enabled often valid next next' past before
        after =
      let due = due_at first o t enabled valid next past before in
      let one = round_of_one k t first s tasks due often in
      let s' = (run_round codec cron (ok tt) first s).1 in
      let t' = stamp cron first t in
      let due' = due_at second o t' enabled valid next' (omega (arith, past, after)) after in
      let tasks' : (reload codec s').tasks ≡ (k, t') ∷ [] = rw one (rw reads refl) in
      (ap (λ r. r.0) one, ap (λ r. r.0) (round_of_one k t' second s' tasks' due' often))
