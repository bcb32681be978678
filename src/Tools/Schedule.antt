-- ===== src/Tools/Schedule.antt =====
-- src/tools/scheduler.rs: the tool that manages the scheduled tasks. The local time after a delay is
-- chrono's; a delay too long for it, at which the code panics, is not modelled.
pub mod Delay
mod Tests
use Prim.Native.Char.{Char, code}
use rust_claw_oc.Prelude.{
  ℕ, zero, ◌+◌, ◌-◌, ◌*◌, ◌%◌, ◌^◌, String, Bool, true, false, ◌&&◌, Option, none, some, unwrap_or,
  List, [], ◌∷◌, ltb, leb, ◌==◌, str_eq, if◌then◌else◌, concat, Result, ok, err,
}
use rust_claw_oc.Prelude.Decimal.{show}
use rust_claw_oc.Prelude.Decimal.Parse.{parse_u64}
use rust_claw_oc.Scheduler.{
  ScheduledTask, Scheduler, Cron, Codec, IoResult, add_task, remove_task, toggle_task, list_tasks,
}
use rust_claw_oc.Tools.Protocol.{ToolError, invalid_arguments, execution_failed}

pub record ManageScheduleArgs : Type 0 where
  pub action : String
  pub id : Option String
  pub cron : Option String
  pub goal : Option String
  pub session_id : Option String
  pub delay : Option String
  pub enabled : Option Bool

pub record LocalTime : Type 0 where
  pub second : ℕ
  pub minute : ℕ
  pub hour : ℕ
  pub day : ℕ
  pub month : ℕ
  pub year : ℕ

ends_with : ℕ → String → Bool
ends_with c String.[] = false
ends_with c (String.◌∷◌ d String.[]) = code d == c
ends_with c (String.◌∷◌ d (String.◌∷◌ e s)) = ends_with c (String.◌∷◌ e s)

trim_end_matches : ℕ → String → String
trim_end_matches c String.[] = String.[]
trim_end_matches c (String.◌∷◌ d s) =
    let rest = trim_end_matches c s in
    if code d == c && str_eq rest "" then String.[] else String.◌∷◌ d rest

-- "10s", "5m" or "1h" in seconds; a number that cannot be read is 0, and the product wraps.
unfoldable pub delay_seconds : String → Option ℕ
unfolding ends_with trim_end_matches parse_u64
delay_seconds delay =
    if ends_with 115 delay
    then some (unwrap_or (parse_u64 (trim_end_matches 115 delay)) 0)
    else if ends_with 109 delay
    then some (unwrap_or (parse_u64 (trim_end_matches 109 delay)) 0 * 60 % 2 ^ 64)
    else if ends_with 104 delay
    then some (unwrap_or (parse_u64 (trim_end_matches 104 delay)) 0 * 3600 % 2 ^ 64)
    else none

-- `sec min hour day month dow year`
abbrev pub cron_of : LocalTime → String
cron_of t = concat (
    show t.second
    ∷ " "
    ∷ show t.minute
    ∷ " "
    ∷ show t.hour
    ∷ " "
    ∷ show t.day
    ∷ " "
    ∷ show t.month
    ∷ " ? "
    ∷ show t.year
    ∷ [])

-- `after` is the local time this many seconds from now. The answer also says whether the task runs
-- once.
abbrev requested_cron :
    (ℕ → LocalTime) → Option String → Option String → Result ToolError (String × Bool)
requested_cron after (some delay) cron = elim (delay_seconds delay) [
  | none ↦ err (invalid_arguments "Format delay as '10s', '5m', or '1h'")
  | some seconds ↦ ok (cron_of (after seconds), true)
]
requested_cron after none (some cron) = ok (cron, false)
requested_cron after none none = err (invalid_arguments "cron or delay is required for add")

-- `chat_id` is the variable TELEGRAM_CHAT_ID.
abbrev reply_target : Option String → String → String
reply_target none reply_to = reply_to
reply_target (some chat_id) reply_to =
    if str_eq reply_to "cli" then concat ("telegram:" ∷ chat_id ∷ []) else reply_to

abbrev new_task :
    (ℕ → LocalTime) → Option String → String → ManageScheduleArgs → Result ToolError ScheduledTask
new_task after chat_id reply_to args = elim args.id [
  | none ↦ err (invalid_arguments "id is required for add")
  | some id ↦ elim args.goal [
    | none ↦ err (invalid_arguments "goal is required for add")
    | some goal ↦ elim (requested_cron after args.delay args.cron) [
      | err e ↦ err e
      | ok requested ↦ ok (record {
        id = id;
        cron = requested.0;
        goal = goal;
        session_id = unwrap_or args.session_id (concat ("cron_" ∷ id ∷ []));
        reply_to = reply_target chat_id reply_to;
        enabled = true;
        run_once = requested.1;
        last_run = none;
      })
    ]
  ]
]

-- The tool's answer to what the scheduler returns.
abbrev answer : String → IoResult × Scheduler → Result ToolError String × Scheduler
answer text (ok u, s) = (ok text, s)
answer text (err e, s) = (err (execution_failed e), s)

abbrev show_bool : Bool → String
show_bool true = "true"
show_bool false = "false"

module _ (codec : Codec) (cron : Cron) (to_json : List ScheduledTask → String) where
  abbrev run_add :
      IoResult → Result ToolError ScheduledTask → Scheduler → Result ToolError String × Scheduler
  run_add writable (err e) s = (err e, s)
  run_add writable (ok task) s =
      answer
        (concat
          ("Task '" ∷ task.id ∷ "' added successfully. Run once: " ∷ show_bool task.run_once ∷ []))
        (add_task codec cron writable task s)

  abbrev run_remove : IoResult → Option String → Scheduler → Result ToolError String × Scheduler
  run_remove writable none s = (err (invalid_arguments "id is required for remove"), s)
  run_remove writable (some id) s =
      answer (concat ("Task '" ∷ id ∷ "' removed successfully." ∷ []))
        (remove_task codec writable id s)

  abbrev run_toggle :
      IoResult → Option String → Option Bool → Scheduler → Result ToolError String × Scheduler
  run_toggle writable none enabled s = (err (invalid_arguments "id is required for toggle"), s)
  run_toggle writable (some id) none s =
      (err (invalid_arguments "enabled is required for toggle"), s)
  run_toggle writable (some id) (some enabled) s =
      answer
        (concat
          ("Task '" ∷ id ∷ "' is now " ∷ (if enabled then "enabled" else "disabled") ∷ "." ∷ []))
        (toggle_task codec writable id enabled s)

  abbrev run_list : Scheduler → Result ToolError String × Scheduler
  run_list s = let (tasks, s') = list_tasks codec s in (ok (to_json tasks), s')

  -- The arguments, or the error of reading them.
  unfoldable pub execute :
      (ℕ → LocalTime)
      → Option String
      → String
      → IoResult
      → Result String ManageScheduleArgs
      → Scheduler
      → Result ToolError String × Scheduler
  execute after chat_id reply_to writable (err e) s = (err (invalid_arguments e), s)
  execute after chat_id reply_to writable (ok args) s =
      if str_eq args.action "add"
      then run_add writable (new_task after chat_id reply_to args) s
      else if str_eq args.action "remove"
      then run_remove writable args.id s
      else if str_eq args.action "toggle"
      then run_toggle writable args.id args.enabled s
      else if str_eq args.action "list"
      then run_list s
      else (err (invalid_arguments (concat ("Unknown action: " ∷ args.action ∷ []))), s)
