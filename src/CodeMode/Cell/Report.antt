-- ===== src/CodeMode/Cell/Report.antt =====
-- How a cell's phase follows its events, and what its report says (src/code_mode/cell.rs).
use mathlib.Core.List.{append_assoc, append-nil}
use rust_claw_oc.Prelude.{
  ◌+◌, ◌≡◌, refl, sym, ap, ◌∙◌, Bool, true, false, not, ◌&&◌, Option, some, is_some, List, [], ◌∷◌,
  ◌++◌, length, length-append, keep, keep-append, arith,
}
use rust_claw_oc.CodeMode.Protocol.{RuntimeEvent}
use rust_claw_oc.CodeMode.Response.{
  ExecLifecycle, ExecProgressKind, ExecRunResult, explicit_flush, is_running,
}
use rust_claw_oc.CodeMode.Driver.{CellStatus, DriverUpdate, terminal}
use rust_claw_oc.CodeMode.Cell.{
  CellPhase, ActiveCellHandle, CellSnapshot, is_terminal, is_terminal_phase, nested_tool_call_count,
  is_tool_call_requested, update_phase_from_event, record_event_batch, record_event,
  record_driver_update, snapshot, to_exec_result,
}

abbrev is_failed : ExecLifecycle → Bool
is_failed ExecLifecycle.failed = true
is_failed _ = false

abbrev is_cancelled : ExecLifecycle → Bool
is_cancelled ExecLifecycle.cancelled = true
is_cancelled _ = false

abbrev is_completed : ExecLifecycle → Bool
is_completed ExecLifecycle.completed = true
is_completed _ = false

abbrev is_explicit : Option ExecProgressKind → Bool
is_explicit (some explicit_flush) = true
is_explicit _ = false

-- A report that contradicts itself nowhere.
pub record IsConsistent {V : Type 0} (r : ExecRunResult V) : Type 0 where
  pub failure_iff : is_some r.failure ≡ is_failed r.lifecycle
  pub cancellation_iff : is_some r.cancellation ≡ is_cancelled r.lifecycle
  pub value_completed : is_some r.return_value && not (is_completed r.lifecycle) ≡ false
  pub value_flushed : is_some r.flush_value && not (is_explicit r.progress_kind) ≡ false
  pub flushed_iff : r.flushed ≡ is_some r.progress_kind
  pub tool_running : is_some r.waiting_on_tool_request_id && not (is_running r.lifecycle) ≡ false
  pub timer_running : is_some r.waiting_on_timer_ms && not (is_running r.lifecycle) ≡ false
  pub one_wait : is_some r.waiting_on_tool_request_id && is_some r.waiting_on_timer_ms ≡ false

module _ {V : Type 0} where
  -- Every report of a cell is consistent: a failure exactly when it failed, a cancellation exactly
  -- when it was cancelled, a return value only when it completed, a flush value only on an explicit
  -- flush, and at most one kind of wait, and that only while it runs.
  pub to_exec_result-IsConsistent :
      (s : CellSnapshot V) (kind : Option ExecProgressKind) (value : Option V)
      → IsConsistent (to_exec_result s kind value)
  unfolding to_exec_result
  to_exec_result-IsConsistent s kind value = ground arith

  abbrev pub is_terminal_status : CellStatus V → Bool
  is_terminal_status (terminal r) = true
  is_terminal_status _ = false

  update_phase_from_event-live :
      (p : CellPhase V) (e : RuntimeEvent V)
      → is_terminal_phase p ≡ false
      → is_terminal_phase (update_phase_from_event p e) ≡ false
  unfolding update_phase_from_event
  update_phase_from_event-live p e h = ground arith

  record_event_batch-live :
      (c : ActiveCellHandle V) (es : List (RuntimeEvent V))
      → is_terminal c ≡ false
      → is_terminal (record_event_batch c es) ≡ false
  unfolding record_event_batch
  record_event_batch-live c [] h = h
  record_event_batch-live c (e ∷ es) h =
      record_event_batch-live (record_event c e) es (update_phase_from_event-live c.phase e h)

  -- The events, the name and the publication after a batch.
  record_event_batch_fields :
      (c : ActiveCellHandle V) (es : List (RuntimeEvent V))
      → ((record_event_batch c es).events ≡ c.events ++ es)
        × ((record_event_batch c es).cell_id ≡ c.cell_id)
        × ((record_event_batch c es).last_publication ≡ c.last_publication)
  unfolding record_event_batch
  record_event_batch_fields c [] = (sym (append-nil c.events), refl, refl)
  record_event_batch_fields c (e ∷ es) =
      let (all, name, published) = record_event_batch_fields (record_event c e) es in
      (all ∙ append_assoc c.events (e ∷ []) es, name, published)

  -- An update appends exactly its events, and keeps the cell's name and last publication.
  pub record_driver_update_fields :
      (c : ActiveCellHandle V) (u : DriverUpdate V)
      → ((record_driver_update c u).events ≡ c.events ++ u.events)
        × ((record_driver_update c u).cell_id ≡ c.cell_id)
        × ((record_driver_update c u).last_publication ≡ c.last_publication)
  unfolding record_driver_update
  record_driver_update_fields c u = ground (arith, record_event_batch_fields c u.events)

  -- A cell that was not terminal is terminal after an update exactly if the update's status is.
  pub is_terminal-record_driver_update :
      (c : ActiveCellHandle V) (u : DriverUpdate V)
      → is_terminal c ≡ false
      → is_terminal (record_driver_update c u) ≡ is_terminal_status u.status
  unfolding record_driver_update
  is_terminal-record_driver_update c u h = ground (arith, record_event_batch-live c u.events h)

  -- A report says `running` exactly while the cell is not terminal, and counts the nested tool
  -- calls of the whole life of the cell: those before the update and those of the update.
  report_after_update :
      (c : ActiveCellHandle V) (u : DriverUpdate V) (kind : Option ExecProgressKind)
      (value : Option V)
      → (is_running (to_exec_result (snapshot (record_driver_update c u)) kind value).lifecycle
          ≡ not (is_terminal (record_driver_update c u)))
        × ((to_exec_result (snapshot (record_driver_update c u)) kind value).nested_tool_calls
            ≡ nested_tool_call_count c + length (keep is_tool_call_requested u.events))
  unfolding to_exec_result snapshot nested_tool_call_count
  report_after_update c u kind value = (
    ground arith,
    ap (λ l. length (keep is_tool_call_requested l)) (record_driver_update_fields c u).0
        ∙ ap length (keep-append is_tool_call_requested c.events u.events)
        ∙ length-append (keep is_tool_call_requested c.events)
            (keep is_tool_call_requested u.events),
  )
