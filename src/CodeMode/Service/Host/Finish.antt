-- ===== src/CodeMode/Service/Host/Finish.antt =====
-- A cell that finishes, from its last update to the caller that waits (src/code_mode/service.rs).
use rust_claw_oc.CodeMode.Protocol.{RuntimeEvent, RuntimeTerminalResult}
use rust_claw_oc.CodeMode.Service.{
  clear_cell, record_driver_update_in_session, Service, SessionState, on_active_cell,
  require_active_cell, store_terminal, record_update_with, publish_summary_update, note_published,
  set_publication, read_and_clear, read_cell_summary, update_host, bump_revision,
}
use rust_claw_oc.CodeMode.Service.Wait.{wait_finish}
use rust_claw_oc.CodeMode.Service.Host.{
  CellTraceFinish, CellRuntimeBudget, HostTask, exit, publish_initial, publish_and_unblock,
  terminal_turn, status_turn, update_turn, driver_turn, host_turn, trace_finish_from_summary,
}
use rust_claw_oc.Prelude.{
  ap, ◌<◌, leb, List, false, or_some, [], ◌≡◌, ◌∙◌, refl, ℕ, true, String, some, none, ok, arith,
  eq_iff,
}
use rust_claw_oc.CodeMode.Cell.Report.{
  is_terminal-record_driver_update, record_driver_update_fields,
}
use rust_claw_oc.CodeMode.Tracker.{observe_events}
use rust_claw_oc.CodeMode.Service.Steps.{take_steps}
use rust_claw_oc.Prelude.Dict.{lookup, insert, lookup-insert_self}
use rust_claw_oc.CodeMode.Response.{ExecRunResult}
use rust_claw_oc.CodeMode.Driver.{DriverUpdate, terminal}
use rust_claw_oc.CodeMode.Cell.{
  ActiveCellHandle, record_driver_update, is_terminal, snapshot, to_exec_result,
}

module _ {V : Type 0} where
  -- Session `id` has the cell, under that name.
  abbrev pub IsActive : String → String → SessionState V → ActiveCellHandle V → Service V → Type 0
  IsActive id name s cell w =
      (lookup id w.sessions ≡ some s) × (s.active_cell ≡ some cell) × (cell.cell_id ≡ name)

  require_active_cell-found :
      (s : SessionState V) (cell : ActiveCellHandle V) (name : String)
      → s.active_cell ≡ some cell
      → cell.cell_id ≡ name
      → require_active_cell s name ≡ ok cell
  unfolding require_active_cell
  require_active_cell-found s cell name active named = ground (arith, eq_iff cell.cell_id name)

  pub on_active_cell-found :
      {A : Type 0} (id name : String) (f : SessionState V → ActiveCellHandle V → A × SessionState V)
      (w : Service V) (s : SessionState V) (cell : ActiveCellHandle V)
      → IsActive id name s cell w
      → on_active_cell id name f w
        ≡ (ok (f s cell).0, record w { sessions = insert id (f s cell).1 w.sessions })
  unfolding on_active_cell
  on_active_cell-found id name f w s cell (found, active, named) =
      rw (found, require_active_cell-found s cell name active named, on_active_cell)

  -- What `record_driver_update_in_session` leaves of the session.
  abbrev pub updated : DriverUpdate V → SessionState V → ActiveCellHandle V → SessionState V
  updated u s cell = (record_update_with u s cell).1

  -- The update that ends a cell.
  abbrev pub ends : List (RuntimeEvent V) → RuntimeTerminalResult V → DriverUpdate V
  ends es result = record { events = es; status = terminal result }

  pub updated-IsActive :
      (id name : String) (es : List (RuntimeEvent V)) (result : RuntimeTerminalResult V)
      (s : SessionState V) (cell : ActiveCellHandle V) (w : Service V)
      → cell.cell_id ≡ name
      → IsActive id name
          (updated (ends es result) s cell)
          (record_driver_update cell (ends es result))
          (record w { sessions = insert id (updated (ends es result) s cell) w.sessions })
  unfolding record_update_with store_terminal
  updated-IsActive id name es result s cell w named = (
    lookup-insert_self id (updated (ends es result) s cell) w.sessions,
    refl,
    (record_driver_update_fields cell (ends es result)).1 ∙ named,
  )

  -- The report of a cell, as `finish` publishes it.
  abbrev pub report : ActiveCellHandle V → ExecRunResult V
  report cell = to_exec_result (snapshot cell) none none

  abbrev pub with_publication : ExecRunResult V → ActiveCellHandle V → ActiveCellHandle V
  with_publication summary cell = record cell { last_publication = some summary }

  abbrev published_session : ExecRunResult V → SessionState V → ActiveCellHandle V → SessionState V
  published_session summary s cell = record s { active_cell = some (with_publication summary cell) }

  abbrev published :
      String → ℕ → ExecRunResult V → Service V → SessionState V → ActiveCellHandle V → Service V
  published id host summary w s cell = record w {
    sessions = insert id (published_session summary s cell) w.sessions;
    hosts = update_host bump_revision host w.hosts;
  }

  publish_summary_update-found :
      (id name : String) (host : ℕ) (summary : ExecRunResult V) (w : Service V) (s : SessionState V)
      (cell : ActiveCellHandle V)
      → IsActive id name s cell w
      → publish_summary_update id name host summary w ≡ (ok tt, published id host summary w s cell)
  unfolding publish_summary_update note_published set_publication
  publish_summary_update-found id name host summary w s cell active =
      rw
        (
          on_active_cell-found id name (set_publication summary) w s cell active,
          publish_summary_update,
        )
        refl

  published-IsActive :
      (id name : String) (host : ℕ) (summary : ExecRunResult V) (w : Service V) (s : SessionState V)
      (cell : ActiveCellHandle V)
      → cell.cell_id ≡ name
      → IsActive id name
          (published_session summary s cell)
          (with_publication summary cell)
          (published id host summary w s cell)
  published-IsActive id name host summary w s cell named =
      (lookup-insert_self id (published_session summary s cell) w.sessions, refl, named)

  pub wait_finish-found :
      (id name : String) (summary : ExecRunResult V) (w : Service V) (s : SessionState V)
      (cell : ActiveCellHandle V)
      → IsActive id name s (with_publication summary cell) w
      → is_terminal cell ≡ true
      → wait_finish id name true w
        ≡ (ok summary, record w { sessions = insert id (clear_cell s) w.sessions })
  unfolding wait_finish read_cell_summary read_and_clear
  wait_finish-found id name summary w s cell active over =
      rw
        (
          on_active_cell-found id name (read_and_clear true) w s (with_publication summary cell)
              active,
          over,
          wait_finish,
          read_cell_summary,
          read_and_clear,
        )
        refl

  terminal_turn-found :
      (task : HostTask V) (w : Service V) (s : SessionState V) (cell : ActiveCellHandle V)
      → IsActive task.session_id task.cell_id s cell w
      → terminal_turn (snapshot cell) task w
        ≡ exit
            (trace_finish_from_summary task.cell_id (report cell) none)
            (publish_initial (report cell) task)
            (published task.session_id task.host (report cell) w s cell)
  unfolding terminal_turn publish_and_unblock
  terminal_turn-found task w s cell active =
      let done =
        publish_summary_update-found task.session_id task.cell_id task.host (report cell) w s cell
          active in
      rw (done, terminal_turn, publish_and_unblock) (rw done refl)

  -- The service when the update is recorded.
  abbrev pub recorded :
      String → DriverUpdate V → SessionState V → ActiveCellHandle V → Service V → Service V
  recorded id u s cell w = record w { sessions = insert id (updated u s cell) w.sessions }

  abbrev tracked : DriverUpdate V → HostTask V → HostTask V
  tracked u task = record task { tracker = (observe_events task.tracker u.events).0 }

  update_turn-found :
      (after : ℕ) (es : List (RuntimeEvent V)) (result : RuntimeTerminalResult V)
      (task : HostTask V) (w : Service V) (s : SessionState V) (cell : ActiveCellHandle V)
      → IsActive task.session_id task.cell_id s cell w
      → update_turn after [] (ends es result) task w
        ≡ exit
            (trace_finish_from_summary task.cell_id
              (report (record_driver_update cell (ends es result)))
              none)
            (publish_initial
              (report (record_driver_update cell (ends es result)))
              (tracked (ends es result) task))
            (published task.session_id task.host
              (report (record_driver_update cell (ends es result)))
              (recorded task.session_id (ends es result) s cell w)
              (updated (ends es result) s cell)
              (record_driver_update cell (ends es result)))
  unfolding update_turn record_driver_update_in_session record_update_with status_turn take_steps
  update_turn-found after es result task w s cell active =
      let u = ends es result in
      let found =
        on_active_cell-found task.session_id task.cell_id (record_update_with u) w s cell active in
      let last =
        terminal_turn-found (tracked u task) (recorded task.session_id u s cell w)
          (updated u s cell) (record_driver_update cell u)
          (updated-IsActive task.session_id task.cell_id es result s cell w active.2) in
      rw (found, update_turn, record_driver_update_in_session) (rw found last)

  -- A live cell whose driver ends it before the deadline is reported, if nobody else takes a step in
  -- between: the host exits, the caller of `execute` has an answer, and the caller that then reads
  -- gets the report of the cell after that last update. The session then has no cell and no host,
  -- and the values that the cell stored.
  pub host_turn-finishes :
      (budget : CellRuntimeBudget) (now after : ℕ) (es : List (RuntimeEvent V))
      (result : RuntimeTerminalResult V) (task : HostTask V) (w : Service V) (s : SessionState V)
      (cell : ActiveCellHandle V)
      → now < budget.deadline
      → IsActive task.session_id task.cell_id s cell w
      → is_terminal cell ≡ false
      → (f : CellTraceFinish) × (task' : HostTask V) × (w' : Service V) × (host_turn budget now
            after
            (ok (ends es result))
            []
            task
            w
          ≡ exit f task' w')
        × (task'.initial
            ≡ or_some task.initial
                (some (ok (report (record_driver_update cell (ends es result))))))
        × ((wait_finish task.session_id task.cell_id true w').0
            ≡ ok (report (record_driver_update cell (ends es result))))
        × (lookup task.session_id (wait_finish task.session_id task.cell_id true w').1.sessions
            ≡ some (record s {
              active_cell = none;
              host_handle = none;
              stored_values = result.stored_values;
            }))
  unfolding host_turn driver_turn publish_initial store_terminal record_update_with
  host_turn-finishes budget now after es result task w s cell early active live =
      let u = ends es result in
      let cell' = record_driver_update cell u in
      let s' = updated u s cell in
      let w1 = recorded task.session_id u s cell w in
      let w2 = published task.session_id task.host (report cell') w1 s' cell' in
      let open_still : leb budget.deadline now ≡ false = ground arith in
      let turn = update_turn-found after es result task w s cell active in
      let over = is_terminal-record_driver_update cell u live in
      let active' =
        published-IsActive task.session_id task.cell_id task.host (report cell') w1 s' cell'
          (updated-IsActive task.session_id task.cell_id es result s cell w active.2).2 in
      let read =
        wait_finish-found task.session_id task.cell_id (report cell') w2
          (published_session (report cell') s' cell') cell' active' over in
      (
        trace_finish_from_summary task.cell_id (report cell') none,
        publish_initial (report cell') (tracked u task),
        w2,
        rw (open_still, host_turn, driver_turn) turn,
        refl,
        ap (λ r. r.0) read,
        ap (λ r. lookup task.session_id r.1.sessions) read
            ∙ lookup-insert_self task.session_id
                (clear_cell (published_session (report cell') s' cell')) w2.sessions,
      )
