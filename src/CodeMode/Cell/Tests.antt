-- ===== src/CodeMode/Cell/Tests.antt =====
-- A cell with one tool call, and its report (src/code_mode/cell.rs).
use rust_claw_oc.Prelude.{◌≡◌, ◌≤◌, ℕ, some, List, [], ◌∷◌, ◌++◌, reverse}
use rust_claw_oc.CodeMode.Protocol.{RuntimeEvent, text, tool_call_requested}
use rust_claw_oc.CodeMode.Response.{explicit_flush}
use rust_claw_oc.CodeMode.Driver.{DriverUpdate, pending_tool}
use rust_claw_oc.CodeMode.Cell.{
  ActiveCellHandle, new_cell, snapshot, to_exec_result, record_driver_update, recent_visible_events,
  recent_event_budget_chars,
}
use rust_claw_oc.CodeMode.Cell.Recent.{
  visible, total_chars, Overflows, recent_visible_events_window,
}
use rust_claw_oc.CodeMode.Cell.Report.{IsConsistent, to_exec_result-IsConsistent}

abbrev cell : ActiveCellHandle ℕ
cell = new_cell "cell-0" (some "started")

abbrev asks : DriverUpdate ℕ
asks = record {
  events =
      text 1 "a"
      ∷ tool_call_requested
          (record { seq = 2; request_id = "r"; tool_name = "bash"; args_json = "" })
      ∷ [];
  status = pending_tool;
}

to_exec_result-IsConsistent_example :
    IsConsistent
      (to_exec_result (snapshot (record_driver_update cell asks)) (some explicit_flush) (some 3))
to_exec_result-IsConsistent_example =
    to_exec_result-IsConsistent (snapshot (record_driver_update cell asks)) (some explicit_flush)
      (some 3)

recent_visible_events_window_example :
    (older : List (RuntimeEvent ℕ)) × (visible (record_driver_update cell asks).events
      ≡ reverse older ++ recent_visible_events (record_driver_update cell asks))
    × (total_chars (recent_visible_events (record_driver_update cell asks))
        ≤ recent_event_budget_chars)
    × Overflows recent_event_budget_chars
        (total_chars (recent_visible_events (record_driver_update cell asks)))
        older
recent_visible_events_window_example = recent_visible_events_window (record_driver_update cell asks)
