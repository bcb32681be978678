-- ===== src/CodeMode/Cell.antt =====
-- src/code_mode/cell.rs: the session's record of one cell, its phase, and what it reports.
pub mod Recent
pub mod Report
mod Tests
use rust_claw_oc.Prelude.{
  ℕ, ◌+◌, ◌-◌, String, ◌≡◌, Bool, true, false, not, ◌&&◌, Option, none, some, is_some, List, [],
  ◌∷◌, ◌++◌, push, map, reverse, length, keep, ltb, if◌then◌else◌, concat, char_count, str_eq,
  Result, ok, err,
}
use rust_claw_oc.CodeMode.Protocol.{
  RuntimeEvent, RuntimeTerminalResult, ToolCallRequest, text, notification, flush,
  waiting_for_timer, tool_call_requested, tool_call_done, worker_completed, is_visible_in_snapshot,
}
use rust_claw_oc.CodeMode.Response.{
  ExecLifecycle, ExecProgressKind, ExecRunResult, explicit_flush, auto_flush,
}
use rust_claw_oc.CodeMode.Driver.{CellStatus, DriverUpdate, terminal}

pub data CellPhase (V : Type 0) : Type 0 where
  running : CellPhase V
  waiting_on_tool : String → CellPhase V
  waiting_on_timer : Option ℕ → CellPhase V
  completed : Option V → CellPhase V
  failed : String → CellPhase V
  cancelled : String → CellPhase V

pub record ActiveCellHandle (V : Type 0) : Type 0 where
  pub cell_id : String
  pub phase : CellPhase V
  pub events : List (RuntimeEvent V)
  pub last_publication : Option (ExecRunResult V)

pub record CellSnapshot (V : Type 0) : Type 0 where
  pub cell_id : String
  pub phase : CellPhase V
  pub recent_events : List (RuntimeEvent V)
  pub nested_tool_calls : ℕ

abbrev pub recent_event_budget_chars : ℕ
recent_event_budget_chars = 8000

add_line : String → String → String
add_line output line =
    if not (str_eq output "") && not (str_eq line "")
    then concat (output ∷ "\n" ∷ line ∷ [])
    else concat (output ∷ line ∷ [])

module _ {V : Type 0} where
  unfoldable pub new_cell : String → Option String → ActiveCellHandle V
  new_cell cell_id initial_notification = record {
    cell_id = cell_id;
    phase = running;
    events = elim initial_notification [ none ↦ [] | some message ↦ notification 0 message ∷ [] ];
    last_publication = none;
  }

  abbrev pub is_terminal_phase : CellPhase V → Bool
  is_terminal_phase (completed v) = true
  is_terminal_phase (failed e) = true
  is_terminal_phase (cancelled r) = true
  is_terminal_phase _ = false

  abbrev pub is_terminal : ActiveCellHandle V → Bool
  is_terminal c = is_terminal_phase c.phase

  unfoldable pub transition_to_failure : ActiveCellHandle V → String → ActiveCellHandle V
  transition_to_failure c error = record c { phase = failed error }

  unfoldable pub transition_to_cancelled : ActiveCellHandle V → String → ActiveCellHandle V
  transition_to_cancelled c reason = record c { phase = cancelled reason }

  abbrev pub is_tool_call_requested : RuntimeEvent V → Bool
  is_tool_call_requested (tool_call_requested r) = true
  is_tool_call_requested _ = false

  unfoldable pub nested_tool_call_count : ActiveCellHandle V → ℕ
  nested_tool_call_count c = length (keep is_tool_call_requested c.events)

  -- The characters that an event costs of the snapshot's budget.
  abbrev pub event_chars : RuntimeEvent V → ℕ
  event_chars (text n s) = char_count s
  event_chars (notification n s) = char_count s
  event_chars _ = char_count ""

  -- The loop of `recent_visible_events`, newest event first.
  unfoldable pub recent_from : ℕ → List (RuntimeEvent V) → List (RuntimeEvent V)
  recent_from budget [] = []
  recent_from budget (e ∷ es) =
      let skip = recent_from budget es in
      let more = recent_from (budget - event_chars e) es in
      if is_visible_in_snapshot e
      then (if ltb budget (event_chars e) then [] else e ∷ more)
      else skip

  unfoldable pub recent_visible_events : ActiveCellHandle V → List (RuntimeEvent V)
  unfolding recent_from
  recent_visible_events c = reverse (recent_from recent_event_budget_chars (reverse c.events))

  unfoldable pub snapshot : ActiveCellHandle V → CellSnapshot V
  unfolding recent_visible_events nested_tool_call_count
  snapshot c = record {
    cell_id = c.cell_id;
    phase = c.phase;
    recent_events = recent_visible_events c;
    nested_tool_calls = nested_tool_call_count c;
  }

  -- Text, notifications and flushes end a wait and leave any other phase alone.
  resume : CellPhase V → CellPhase V
  resume (waiting_on_tool i) = running
  resume (waiting_on_timer t) = running
  resume p = p

  unfoldable pub update_phase_from_event : CellPhase V → RuntimeEvent V → CellPhase V
  unfolding resume
  update_phase_from_event p (text n s) = resume p
  update_phase_from_event p (notification n s) = resume p
  update_phase_from_event p (flush n v) = resume p
  update_phase_from_event p (tool_call_requested request) = waiting_on_tool request.request_id
  update_phase_from_event p (tool_call_done n i) = running
  update_phase_from_event p (waiting_for_timer n after) = waiting_on_timer after
  update_phase_from_event p (worker_completed r) = p

  abbrev pub record_event : ActiveCellHandle V → RuntimeEvent V → ActiveCellHandle V
  record_event c e = record c {
    phase = update_phase_from_event c.phase e;
    events = push c.events e;
  }

  unfoldable pub record_event_batch :
      ActiveCellHandle V → List (RuntimeEvent V) → ActiveCellHandle V
  unfolding update_phase_from_event
  record_event_batch c [] = c
  record_event_batch c (e ∷ es) = record_event_batch (record_event c e) es

  unfoldable pub terminal_phase : RuntimeTerminalResult V → CellPhase V
  terminal_phase result = elim result.runtime_error [
    | some error ↦ failed error
    | none ↦ elim result.cancellation_reason [
      | some reason ↦ cancelled reason
      | none ↦ completed result.return_value
    ]
  ]

  record_status : CellStatus V → ActiveCellHandle V → ActiveCellHandle V
  unfolding terminal_phase
  record_status (terminal result) c = record c { phase = terminal_phase result }
  record_status _ c = c

  unfoldable pub record_driver_update : ActiveCellHandle V → DriverUpdate V → ActiveCellHandle V
  unfolding record_event_batch record_status
  record_driver_update c u = record_status u.status (record_event_batch c u.events)

  unfoldable pub aggregate_from :
      String → List String → List (RuntimeEvent V) → String × List String
  unfolding add_line
  aggregate_from output notifications [] = (output, notifications)
  aggregate_from output notifications (text n s ∷ es) =
      aggregate_from (add_line output s) notifications es
  aggregate_from output notifications (notification n m ∷ es) =
      aggregate_from output (push notifications m) es
  aggregate_from output notifications (_ ∷ es) = aggregate_from output notifications es

  unfoldable pub aggregate_events : List (RuntimeEvent V) → String × List String
  unfolding aggregate_from
  aggregate_events es = aggregate_from "" [] es

  abbrev pub phase_lifecycle : CellPhase V → ExecLifecycle
  phase_lifecycle (completed v) = ExecLifecycle.completed
  phase_lifecycle (failed e) = ExecLifecycle.failed
  phase_lifecycle (cancelled r) = ExecLifecycle.cancelled
  phase_lifecycle _ = ExecLifecycle.running

  abbrev pub waiting_on_tool_request_id : CellPhase V → Option String
  waiting_on_tool_request_id (waiting_on_tool i) = some i
  waiting_on_tool_request_id _ = none

  abbrev pub waiting_on_timer_ms : CellPhase V → Option ℕ
  waiting_on_timer_ms (waiting_on_timer t) = t
  waiting_on_timer_ms _ = none

  -- The return value, the failure and the cancellation that a phase stands for.
  abbrev phase_outcome : CellPhase V → Option V × Option String × Option String
  phase_outcome (completed v) = (v, none, none)
  phase_outcome (failed e) = (none, some e, none)
  phase_outcome (cancelled r) = (none, none, some r)
  phase_outcome _ = (none, none, none)

  abbrev pub flushed_value : Option ExecProgressKind → Option V → Option V
  flushed_value (some explicit_flush) v = v
  flushed_value _ v = none

  unfoldable pub to_exec_result :
      CellSnapshot V → Option ExecProgressKind → Option V → ExecRunResult V
  to_exec_result s progress_kind flush_value =
      let (output_text, notifications) = aggregate_events s.recent_events in
      let (return_value, failure, cancellation) = phase_outcome s.phase in
      record {
        cell_id = s.cell_id;
        output_text = output_text;
        return_value = return_value;
        flush_value = flushed_value progress_kind flush_value;
        lifecycle = phase_lifecycle s.phase;
        progress_kind = progress_kind;
        flushed = is_some progress_kind;
        waiting_on_tool_request_id = waiting_on_tool_request_id s.phase;
        waiting_on_timer_ms = waiting_on_timer_ms s.phase;
        notifications = notifications;
        failure = failure;
        cancellation = cancellation;
        nested_tool_calls = s.nested_tool_calls;
        truncated = false;
      }
