-- ===== src/CodeMode/Service/Tests.antt =====
-- One session with one cell, its host, and what becomes of it (src/code_mode/service.rs).
use rust_claw_oc.Prelude.{
  concat, err, ◌≡◌, ◌≢◌, refl, ℕ, true, none, some, List, [], ◌∷◌, ◌++◌, ok, arith,
}
use rust_claw_oc.Tools.Protocol.{execution_failed}
use rust_claw_oc.CodeMode.Service.{
  record_driver_update_in_session, publish_summary_update, Service, SessionState, cell_name,
  begin_cell, start_cell, begin_after, abort_active_cell,
}
use rust_claw_oc.CodeMode.Service.Wait.{wait_start, wait_finish, watch}
use rust_claw_oc.CodeMode.Service.Host.Stale.{wait_finish-loses_end}
use rust_claw_oc.Prelude.Dict.{lookup, insert}
use rust_claw_oc.CodeMode.Protocol.{RuntimeTerminalResult, text}
use rust_claw_oc.CodeMode.Driver.{DriverUpdate, progress}
use rust_claw_oc.CodeMode.Cell.{ActiveCellHandle, new_cell, record_driver_update}
use rust_claw_oc.CodeMode.Tracker.{new_tracker}
use rust_claw_oc.CodeMode.Service.Steps.{
  ServiceStep, begin, record_update, abort, take_step, take_steps, initial_service,
}
use rust_claw_oc.CodeMode.Service.Steps.Change.{Change, take_step-Change}
use rust_claw_oc.CodeMode.Service.Steps.Sessions.{IsValid, take_steps-IsValid, wait_start-watch}
use rust_claw_oc.CodeMode.Service.Steps.Superseded.{
  IsPowerless, abort_active_cell-IsPowerless, begin_cell-fresh,
}
use rust_claw_oc.CodeMode.Service.Host.{
  CellRuntimeBudget, HostTask, CellTraceFinish, exit, Round, host_turn, host_loop,
}
use rust_claw_oc.CodeMode.Service.Host.Answer.{Sends}
use rust_claw_oc.CodeMode.Service.Host.Loop.{host_loop-stops}
use rust_claw_oc.CodeMode.Service.Host.Finish.{ends, report, host_turn-finishes}

abbrev says : DriverUpdate ℕ
says = record { events = text 1 "a" ∷ []; status = progress }

-- A caller begins a cell in session "s".
abbrev opening : List (ServiceStep ℕ)
opening = begin "s" none ∷ []

abbrev opened : Service ℕ
opened = take_steps opening (initial_service ℕ)

abbrev cell : ActiveCellHandle ℕ
cell = new_cell (cell_name 0) none

abbrev session : SessionState ℕ
session = record {
  next_cell_seq = 1;
  stored_values = [];
  active_cell = some cell;
  host_handle = some 0;
}

abbrev task : HostTask ℕ
task = record {
  session_id = "s";
  cell_id = cell_name 0;
  host = 0;
  tracker = new_tracker none 0;
  initial = none;
}

opened_session : lookup "s" opened.sessions ≡ some session
unfolding take_steps take_step begin_cell start_cell begin_after lookup insert initial_service
opened_session = refl

take_steps-IsValid_example :
    IsValid (take_steps (begin "s" none ∷ abort "s" "stop" ∷ []) (initial_service ℕ))
take_steps-IsValid_example = take_steps-IsValid (begin "s" none ∷ abort "s" "stop" ∷ [])

take_step-Change_example : Change opened (take_step (record_update "s" (cell_name 0) says) opened)
take_step-Change_example = take_step-Change (record_update "s" (cell_name 0) says) opened

abort_active_cell-IsPowerless_example :
    IsPowerless "s"
      (cell_name 0)
      (take_steps (begin "s" none ∷ []) (abort_active_cell "s" "stop" opened).1)
unfolding new_cell
abort_active_cell-IsPowerless_example =
    abort_active_cell-IsPowerless opening (begin "s" none ∷ []) "s" "stop" session cell
      opened_session refl

wait_start-watch_example :
    (host : ℕ) × (some 0 ≡ some host)
    × (wait_start "s" none opened
        ≡ (ok (watch cell.cell_id host (opened.hosts host).revision), opened))
unfolding new_cell
wait_start-watch_example =
    wait_start-watch opening "s" none session cell opened_session refl refl refl

-- The second cell begins when the first was aborted.
abbrev reopened : Service ℕ
reopened = (begin_cell "s" none (take_steps (abort "s" "stop" ∷ []) opened)).1

begin_cell-fresh_example : cell_name 0 ≢ cell_name 1
unfolding take_steps take_step begin_cell start_cell begin_after lookup insert initial_service
    abort_active_cell
begin_cell-fresh_example =
    begin_cell-fresh (initial_service ℕ) opened reopened (abort "s" "stop" ∷ []) "s" none none
      (cell_name 0) (cell_name 1) 0 1 refl refl

abbrev budget : CellRuntimeBudget
budget = record { timeout_ms = 1000; deadline = 1000 }

abbrev late : Round ℕ
late = record { now = 1001; after = 1002; driver_update = ok says; gap = [] }

host_loop-stops_example :
    (f : CellTraceFinish) × (task' : HostTask ℕ) × (w' : Service ℕ) × (host_loop budget
        ([] ++ (late, []) ∷ [])
        task
        opened
      ≡ exit f task' w')
    × Sends none task'
host_loop-stops_example = host_loop-stops budget [] [] late [] task opened (omega arith)

abbrev result : RuntimeTerminalResult ℕ
result = record {
  return_value = some 5;
  runtime_error = none;
  cancellation_reason = none;
  stored_values = ("k", 5) ∷ [];
}

host_turn-finishes_example :
    (f : CellTraceFinish) × (task' : HostTask ℕ) × (w' : Service ℕ) × (host_turn budget 3 4
        (ok (ends (text 1 "a" ∷ []) result))
        []
        task
        opened
      ≡ exit f task' w')
    × (task'.initial
        ≡ some (ok (report (record_driver_update cell (ends (text 1 "a" ∷ []) result)))))
    × ((wait_finish "s" (cell_name 0) true w').0
        ≡ ok (report (record_driver_update cell (ends (text 1 "a" ∷ []) result))))
    × (lookup "s" (wait_finish "s" (cell_name 0) true w').1.sessions
        ≡ some (record session {
          active_cell = none;
          host_handle = none;
          stored_values = ("k", 5) ∷ [];
        }))
unfolding new_cell
host_turn-finishes_example =
    host_turn-finishes budget 3 4 (text 1 "a" ∷ []) result task opened session cell (omega arith)
      (opened_session, refl, refl) refl

-- The cell has published once, and its session is the only one.
abbrev flushed_cell : ActiveCellHandle ℕ
flushed_cell = record cell { last_publication = some (report cell) }

abbrev flushed_session : SessionState ℕ
flushed_session = record session { active_cell = some flushed_cell }

abbrev flushed_service : Service ℕ
flushed_service = record opened { sessions = ("s", flushed_session) ∷ [] }

abbrev end_recorded : Service ℕ
end_recorded =
    (record_driver_update_in_session "s" (cell_name 0) (ends (text 2 "b" ∷ []) result)
      flushed_service).1

wait_finish-loses_end_example :
    ((wait_finish "s" (cell_name 0) true end_recorded).0 ≡ ok (report cell))
    × (lookup "s" (wait_finish "s" (cell_name 0) true end_recorded).1.sessions
        ≡ some (record session {
          active_cell = none;
          host_handle = none;
          stored_values = ("k", 5) ∷ [];
        }))
    × ((publish_summary_update "s"
          (cell_name 0)
          0
          (report (record_driver_update flushed_cell (ends (text 2 "b" ∷ []) result)))
          (wait_finish "s" (cell_name 0) true end_recorded).1).0
        ≡ err (
            execution_failed
              (concat ("No active code-mode cell `" ∷ cell_name 0 ∷ "` found." ∷ []))))
unfolding new_cell lookup
wait_finish-loses_end_example =
    wait_finish-loses_end "s" (cell_name 0) 0 (text 2 "b" ∷ []) result flushed_service
      flushed_session flushed_cell (report cell) (refl, refl, refl) refl refl
