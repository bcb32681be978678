-- ===== src/Scheduler.antt =====
-- src/scheduler.rs: the scheduled tasks, their file, and one round of the loop. Times are seconds
-- since 1970, at least 60 of them. Parsing a cron expression and finding its next time are the
-- `cron` crate's, the file's JSON text is serde_json's.
pub mod Rounds
mod Tests
use Prim.Native.String.{compare}
use Prim.Native.Nat.{Ordering}
use rust_claw_oc.Prelude.{
  ℕ, ◌+◌, ◌-◌, ◌/◌, String, Bool, true, false, ◌&&◌, Option, none, some, List, [], ◌∷◌, is_empty,
  ltb, leb, if◌then◌else◌, concat, unwrap_or, Result, ok, err,
}
use rust_claw_oc.Prelude.Dict.{Dict, lookup, insert, remove, values}
use rust_claw_oc.Prelude.Sort.{sort_by}

pub record ScheduledTask : Type 0 where
  pub id : String
  pub cron : String
  pub goal : String
  pub session_id : String
  pub reply_to : String
  pub enabled : Bool
  pub run_once : Bool
  pub last_run : Option ℕ

-- `Schedule::from_str` with the text of its error, and `schedule.after(t).next()`: the first time
-- after `t`.
pub record Cron : Type 0 where
  pub parse_error : String → Option String
  pub next_after : String → ℕ → Option ℕ

pub record Codec : Type 0 where
  pub parse : String → Option (Dict ScheduledTask)
  pub print : Dict ScheduledTask → String

-- The tasks in memory, and the text of the file if there is one.
pub record Scheduler : Type 0 where
  pub tasks : Dict ScheduledTask
  pub file : Option String

abbrev pub IoResult : Type 0
IoResult = Result String (Unit {0})

module _ (codec : Codec) where
  abbrev parsed_or : Dict ScheduledTask → Option String → Dict ScheduledTask
  parsed_or tasks none = tasks
  parsed_or tasks (some content) = unwrap_or (codec.parse content) tasks

  unfoldable pub new_scheduler : Option String → Scheduler
  new_scheduler file = record { tasks = parsed_or [] file; file = file }

  unfoldable pub reload : Scheduler → Scheduler
  reload s = record s { tasks = parsed_or s.tasks s.file }

  -- `writable` says whether the file can be written now, else the error.
  unfoldable pub save : IoResult → Scheduler → IoResult × Scheduler
  save (err e) s = (err e, s)
  save (ok u) s = (ok u, record s { file = some (codec.print s.tasks) })

  unfoldable pub add_task : Cron → IoResult → ScheduledTask → Scheduler → IoResult × Scheduler
  unfolding reload save
  add_task cron writable task s = elim (cron.parse_error task.cron) [
    | some e ↦ (err (concat ("Invalid cron expression: " ∷ e ∷ [])), s)
    | none ↦
        let now = reload s in save writable (record now { tasks = insert task.id task now.tasks })
  ]

  unfoldable pub remove_task : IoResult → String → Scheduler → IoResult × Scheduler
  unfolding reload save
  remove_task writable id s =
      let now = reload s in
      elim (lookup id now.tasks) [
        | none ↦ (err "Task not found", now)
        | some task ↦ save writable (record now { tasks = remove id now.tasks })
      ]

  unfoldable pub toggle_task : IoResult → String → Bool → Scheduler → IoResult × Scheduler
  unfolding reload save
  toggle_task writable id enabled s =
      let now = reload s in
      elim (lookup id now.tasks) [
        | none ↦ (err "Task not found", now)
        | some task ↦
            save writable
              (record now { tasks = insert id (record task { enabled = enabled }) now.tasks })
      ]

  abbrev is_lt : Ordering → Bool
  is_lt Ordering.lt = true
  is_lt Ordering.eq = false
  is_lt Ordering.gt = false

  unfoldable pub list_tasks : Scheduler → List ScheduledTask × Scheduler
  unfolding reload sort_by
  list_tasks s =
      let now = reload s in (sort_by (λ a b. is_lt (compare a.id b.id)) (values now.tasks), now)

module _ (cron : Cron) where
  abbrev occurs : ℕ → String → Option String → Bool
  occurs now expression (some e) = false
  occurs now expression none = elim (cron.next_after expression (now - 60)) [
    | none ↦ false
    | some next ↦ leb next now
  ]

  -- Is there a time of the task in the last 60 seconds, and has it not run in this minute?
  abbrev pub is_due : ℕ → ScheduledTask → Bool
  is_due now task =
      task.enabled
      && occurs now task.cron (cron.parse_error task.cron)
      && ltb (unwrap_or task.last_run 0 / 60) (now / 60)

  abbrev pub stamp : ℕ → ScheduledTask → ScheduledTask
  stamp now task = record task { last_run = some now }

  -- The tasks with the new times of the due ones, and the due ones.
  unfoldable pub mark_due : ℕ → Dict ScheduledTask → Dict ScheduledTask × List ScheduledTask
  mark_due now [] = ([], [])
  mark_due now ((k, task) ∷ d) =
      let (rest, run) = mark_due now d in
      if is_due now task
      then ((k, stamp now task) ∷ rest, stamp now task ∷ run)
      else ((k, task) ∷ rest, run)

-- The one-time tasks that run are removed.
unfoldable pub remove_once : List ScheduledTask → Dict ScheduledTask → Dict ScheduledTask
remove_once [] d = d
remove_once (t ∷ ts) d = if t.run_once then remove_once ts (remove t.id d) else remove_once ts d

module _ (codec : Codec) (cron : Cron) where
  -- One round of `run_loop`: the tasks that it starts, and the new state. An error of `save` is
  -- dropped.
  unfoldable pub run_round : IoResult → ℕ → Scheduler → List ScheduledTask × Scheduler
  unfolding reload save mark_due remove_once
  run_round writable now s =
      let (tasks, run) = mark_due cron now (reload codec s).tasks in
      let marked = record s { tasks = tasks } in
      let (_, saved) = save codec writable (record marked { tasks = remove_once run tasks }) in
      if is_empty run then (run, marked) else (run, saved)

-- What the agent of the task's session is asked.
unfoldable pub injected_goal : ScheduledTask → String
injected_goal task = concat (
    "[SYSTEM: SCHEDULED EVENT TRIGGERED]\nThis is a scheduled task that has just been triggered. Execute the goal immediately and output the result. DO NOT create new scheduled tasks or reminders for this.\n\nTask Goal: "
    ∷ task.goal ∷ [])
