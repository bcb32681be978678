-- ===== src/Scheduler/Tests.antt =====
-- Tests of src/scheduler.rs.
use rust_claw_oc.Prelude.{
  ◌≡◌, refl, arith, true, false, none, some, [], ◌∷◌, map, keep, ok, err, ltb, if◌then◌else◌, All,
}
use rust_claw_oc.Prelude.Dict.{values, lookup, remove}
use rust_claw_oc.Scheduler.{
  ScheduledTask, Scheduler, Cron, Codec, reload, remove_task, list_tasks, is_due, stamp, mark_due,
  remove_once, run_round,
}
use rust_claw_oc.Scheduler.Rounds.{IsGone, run_round_lem, run_round-twice}

-- One time, 115 seconds after the start of 1970.
abbrev cron : Cron
cron = record { parse_error = λ e. none; next_after = λ e t. if ltb t 115 then some 115 else none }

abbrev daily : ScheduledTask
daily = record {
  id = "daily";
  cron = "55 1 0 1 1 ? 1970";
  goal = "report";
  session_id = "main";
  reply_to = "main";
  enabled = true;
  run_once = false;
  last_run = none;
}

abbrev reminder : ScheduledTask
reminder = record daily { id = "reminder"; run_once = true }

abbrev codec : Codec
codec = record { parse = λ s. some (("daily", stamp cron 118 daily) ∷ []); print = λ d. "tasks" }

abbrev two_tasks : Scheduler
two_tasks = record { tasks = ("daily", daily) ∷ ("reminder", reminder) ∷ []; file = none }

abbrev one_task : Scheduler
one_task = record { tasks = ("daily", daily) ∷ []; file = none }

remove_missing : (remove_task codec (ok tt) "weekly" one_task).0 ≡ err "Task not found"
unfolding remove_task reload lookup
remove_missing = refl

listed : (list_tasks codec two_tasks).0 ≡ daily ∷ reminder ∷ []
unfolding list_tasks reload
listed = refl

run_round_lem_example :
    ((run_round codec cron (ok tt) 118 two_tasks).0
      ≡ map (stamp cron 118) (keep (is_due cron 118) (values (reload codec two_tasks).tasks)))
    × All
        (IsGone (reload codec (run_round codec cron (ok tt) 118 two_tasks).1).tasks)
        (run_round codec cron (ok tt) 118 two_tasks).0
unfolding reload mark_due remove_once remove
run_round_lem_example = run_round_lem codec cron 118 two_tasks refl

run_round-twice_example :
    ((run_round codec cron (ok tt) 118 one_task).0 ≡ stamp cron 118 daily ∷ [])
    × ((run_round codec cron (ok tt) 148 (run_round codec cron (ok tt) 118 one_task).1).0
        ≡ stamp cron 148 daily ∷ [])
unfolding reload
run_round-twice_example =
    run_round-twice codec cron "daily" daily 115 118 148 one_task refl refl refl refl refl refl refl
      (omega arith) (omega arith) (omega arith)
