-- ===== src/CodeMode/Service.antt =====
-- src/code_mode/service.rs: the sessions, and the steps that run under the lock of `sessions`.
-- A step that the code makes between two awaits is one function on the whole state, so that
-- concurrent callers and background hosts are sequences of such steps.
pub mod Steps
pub mod Host
pub mod Wait
mod Tests
use rust_claw_oc.Prelude.{
  ℕ, zero, suc, ◌+◌, ◌≡◌, Bool, true, false, not, String, Option, none, some, List, [], ◌∷◌, concat,
  str_eq, if◌then◌else◌, ◌==◌, Result, ok, err, unwrap_or,
}
use rust_claw_oc.Prelude.Decimal.{show}
use rust_claw_oc.Prelude.Dict.{Dict, lookup, insert}
use rust_claw_oc.Tools.Protocol.{ToolError, execution_failed, display}
use rust_claw_oc.CodeMode.Protocol.{RuntimeTerminalResult}
use rust_claw_oc.CodeMode.Response.{ExecProgressKind, ExecRunResult}
use rust_claw_oc.CodeMode.Driver.{CellStatus, DriverUpdate, terminal}
use rust_claw_oc.CodeMode.Cell.{
  ActiveCellHandle, CellSnapshot, new_cell, is_terminal, transition_to_failure,
  transition_to_cancelled, snapshot, record_driver_update, to_exec_result,
}

-- `CellHostHandle` with its driver's control. Handles are shared by `Arc`: the state holds them in
-- a table, and sessions and host tasks hold their places in it.
pub record CellHostHandle : Type 0 where
  pub revision : ℕ
  pub cancel_requested : Option String

pub record SessionState (V : Type 0) : Type 0 where
  pub next_cell_seq : ℕ
  pub stored_values : Dict V
  pub active_cell : Option (ActiveCellHandle V)
  pub host_handle : Option ℕ

pub record Service (V : Type 0) : Type 0 where
  pub sessions : Dict (SessionState V)
  pub hosts : ℕ → CellHostHandle
  pub next_host : ℕ

abbrev pub Step : Type 0 → Type 0 → Type 0
Step V A = Service V → Result ToolError A × Service V

abbrev pub no_session : ToolError
no_session = execution_failed "No code-mode session found for this session."

abbrev pub cell_name : ℕ → String
cell_name seq = concat ("cell-" ∷ show seq ∷ [])

abbrev pub update_host :
    (CellHostHandle → CellHostHandle) → ℕ → (ℕ → CellHostHandle) → ℕ → CellHostHandle
update_host f host hosts h = if host == h then f (hosts h) else hosts h

-- `driver_control.request_cancel`
abbrev pub request_cancel : String → CellHostHandle → CellHostHandle
request_cancel reason h = record h { cancel_requested = some reason }

-- `CellHostHandle::publish_update`
abbrev pub bump_revision : CellHostHandle → CellHostHandle
bump_revision h = record h { revision = h.revision + 1 }

abbrev ok_value : {A : Type 0} → Result ToolError A → Option A
ok_value (ok a) = some a
ok_value (err e) = none

module _ {V : Type 0} where
  abbrev pub empty_session : SessionState V
  empty_session = record {
    next_cell_seq = 0;
    stored_values = [];
    active_cell = none;
    host_handle = none;
  }

  unfoldable pub require_active_cell :
      SessionState V → String → Result ToolError (ActiveCellHandle V)
  require_active_cell session cell_id = elim session.active_cell [
    | none ↦
        err (execution_failed (concat ("No active code-mode cell `" ∷ cell_id ∷ "` found." ∷ [])))
    | some cell ↦
        if str_eq cell.cell_id cell_id
        then ok cell
        else err (
            execution_failed (
              concat (
                "Code mode cell `" ∷ cell_id ∷ "` was superseded by `" ∷ cell.cell_id ∷ "`." ∷ [])))
  ]

  abbrev started_session : Option String → ℕ → SessionState V → SessionState V
  started_session timeout_notice host session = record session {
    next_cell_seq = session.next_cell_seq + 1;
    active_cell = some (new_cell (cell_name session.next_cell_seq) timeout_notice);
    host_handle = some host;
  }

  -- The cell starts in its session, and its host is a new handle.
  start_cell : String → Option String → SessionState V → Service V → (String × ℕ) × Service V
  start_cell session_id timeout_notice session w = (
    (cell_name session.next_cell_seq, w.next_host),
    record {
      sessions = insert session_id (started_session timeout_notice w.next_host session) w.sessions;
      hosts =
          update_host (λ _. record { revision = 0; cancel_requested = none }) w.next_host w.hosts;
      next_host = suc w.next_host;
    },
  )

  -- A finished cell makes room for the new one, a live one does not.
  begin_after : Option (ActiveCellHandle V) → (String × ℕ) × Service V → Step V (String × ℕ)
  begin_after none started w = (ok started.0, started.1)
  begin_after (some cell) started w = if is_terminal cell then (ok started.0, started.1) else (
    err (
        execution_failed (
          concat (
            "Code mode cell `" ∷ cell.cell_id ∷ "` is still active. Call `wait` until it completes."
            ∷ []))),
    w,
  )

  -- The block of `execute` that holds the lock.
  unfoldable pub begin_cell : String → Option String → Step V (String × ℕ)
  unfolding start_cell begin_after
  begin_cell session_id timeout_notice w =
      let session = unwrap_or (lookup session_id w.sessions) empty_session in
      begin_after session.active_cell (start_cell session_id timeout_notice session w) w

  -- Steps on the named cell of a session, which must be the active one.
  pub on_active_cell :
      {A : Type 0}
      → String
      → String
      → (SessionState V → ActiveCellHandle V → A × SessionState V)
      → Step V A
  unfolding require_active_cell
  on_active_cell session_id cell_id f w = elim (lookup session_id w.sessions) [
    | none ↦ (err no_session, w)
    | some session ↦ elim (require_active_cell session cell_id) [
      | err e ↦ (err e, w)
      | ok cell ↦ (
        ok (f session cell).0,
        record w { sessions = insert session_id (f session cell).1 w.sessions },
      )
    ]
  ]

  store_terminal : CellStatus V → SessionState V → SessionState V
  store_terminal (terminal result) session = record session { stored_values = result.stored_values }
  store_terminal _ session = session

  pub record_update_with :
      DriverUpdate V → SessionState V → ActiveCellHandle V → CellSnapshot V × SessionState V
  unfolding store_terminal
  record_update_with update session cell =
      let cell' = record_driver_update cell update in
      (snapshot cell', store_terminal update.status (record session { active_cell = some cell' }))

  unfoldable pub record_driver_update_in_session :
      String → String → DriverUpdate V → Step V (CellSnapshot V)
  unfolding on_active_cell record_update_with
  record_driver_update_in_session session_id cell_id update =
      on_active_cell session_id cell_id (record_update_with update)

  set_cancelled : String → SessionState V → ActiveCellHandle V → CellSnapshot V × SessionState V
  set_cancelled reason session cell =
      let cell' = transition_to_cancelled cell reason in
      (snapshot cell', record session { active_cell = some cell' })

  unfoldable pub record_cell_cancellation_in_session :
      String → String → String → Step V (CellSnapshot V)
  unfolding on_active_cell set_cancelled
  record_cell_cancellation_in_session session_id cell_id reason =
      on_active_cell session_id cell_id (set_cancelled reason)

  unfoldable pub peek_cell_summary :
      String → String → Option ExecProgressKind → Option V → Step V (ExecRunResult V)
  unfolding on_active_cell
  peek_cell_summary session_id cell_id progress_kind flush_value =
      on_active_cell session_id cell_id
        λ session cell. (to_exec_result (snapshot cell) progress_kind flush_value, session)

  abbrev pub clear_cell : SessionState V → SessionState V
  clear_cell session = record session { active_cell = none; host_handle = none }

  read_and_clear : Bool → SessionState V → ActiveCellHandle V → ExecRunResult V × SessionState V
  read_and_clear prefer_publication session cell =
      let current = to_exec_result (snapshot cell) none none in
      (
        if prefer_publication then unwrap_or cell.last_publication current else current,
        if is_terminal cell then clear_cell session else session,
      )

  unfoldable pub read_cell_summary : String → String → Bool → Step V (ExecRunResult V)
  unfolding on_active_cell read_and_clear
  read_cell_summary session_id cell_id prefer_publication =
      on_active_cell session_id cell_id (read_and_clear prefer_publication)

  note_published :
      ℕ → Result ToolError (Unit {0}) → Service V → Result ToolError (Unit {0}) × Service V
  note_published host (err e) w = (err e, w)
  note_published host (ok u) w =
      (ok tt, record w { hosts = update_host bump_revision host w.hosts })

  set_publication :
      ExecRunResult V → SessionState V → ActiveCellHandle V → Unit {0} × SessionState V
  set_publication summary session cell =
      (tt, record session { active_cell = some (record cell { last_publication = some summary }) })

  -- `publish_update` of the host follows the write under the same lock.
  unfoldable pub publish_summary_update : String → String → ℕ → ExecRunResult V → Step V (Unit {0})
  unfolding on_active_cell note_published set_publication
  publish_summary_update session_id cell_id host summary w =
      let (published, w') = on_active_cell session_id cell_id (set_publication summary) w in
      note_published host published w'

  set_failure : ToolError → SessionState V → ActiveCellHandle V → ExecRunResult V × SessionState V
  set_failure error session cell =
      let cell' = transition_to_failure cell (display error) in
      (to_exec_result (snapshot cell') none none, record session { active_cell = some cell' })

  -- Here an absent session or another cell is no error.
  unfoldable pub record_host_error_in_session :
      String → String → ToolError → Service V → Option (ExecRunResult V) × Service V
  unfolding on_active_cell set_failure
  record_host_error_in_session session_id cell_id error w =
      let (recorded, w') = on_active_cell session_id cell_id (set_failure error) w in
      (ok_value recorded, w')

  unfoldable pub abort_active_cell : String → String → Service V → Bool × Service V
  abort_active_cell session_id reason w = elim (lookup session_id w.sessions) [
    | none ↦ (false, w)
    | some session ↦
        let sessions' = insert session_id (clear_cell session) w.sessions in
        elim session.host_handle [
          | none ↦ (false, record w { sessions = sessions' })
          | some host ↦ (
            true,
            record w {
              sessions = sessions';
              hosts = update_host (request_cancel reason) host w.hosts;
            },
          )
        ]
  ]
