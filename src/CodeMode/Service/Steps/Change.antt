-- ===== src/CodeMode/Service/Steps/Change.antt =====
-- The three kinds of change that any step makes to the sessions (src/code_mode/service.rs).
use mathlib.Core.Path.{subst}
use rust_claw_oc.Prelude.{
  sym, ℕ, suc, ◌+◌, ◌≡◌, refl, ap, inl, inr, Bool, true, String, Option, none, some, Option-cases,
  eq_iff, Result, ok, err, arith, Bool-cases, unwrap_or, Result-cases,
}
use rust_claw_oc.Prelude.Dict.{lookup, insert}
use rust_claw_oc.Tools.Protocol.{ToolError}
use rust_claw_oc.CodeMode.Response.{ExecRunResult}
use rust_claw_oc.CodeMode.Driver.{CellStatus, DriverUpdate}
use rust_claw_oc.CodeMode.Cell.{
  ActiveCellHandle, new_cell, is_terminal, record_driver_update, transition_to_failure,
  transition_to_cancelled,
}
use rust_claw_oc.CodeMode.Cell.Report.{record_driver_update_fields}
use rust_claw_oc.CodeMode.Service.{
  Service, SessionState, cell_name, empty_session, clear_cell, begin_cell, start_cell, begin_after,
  on_active_cell, require_active_cell, store_terminal, record_update_with, set_publication,
  set_cancelled, set_failure, read_and_clear, note_published, record_driver_update_in_session,
  record_cell_cancellation_in_session, read_cell_summary, publish_summary_update,
  record_host_error_in_session, abort_active_cell,
}
use rust_claw_oc.CodeMode.Service.Wait.{wait_start, watch_host, wait_on_cell, is_requested}
use rust_claw_oc.CodeMode.Service.Steps.{
  ServiceStep, begin, record_update, record_cancellation, read_summary, publish, host_error, abort,
  wait, cancel_host, take_step,
}

module _ {V : Type 0} where
  -- A step on a session keeps its cell under the same name and host, or clears both.
  pub data Edit (s t : SessionState V) : Type 0 where
    kept :
        (cell cell' : ActiveCellHandle V)
        → s.active_cell ≡ some cell
        → t.active_cell ≡ some cell'
        → cell'.cell_id ≡ cell.cell_id
        → t.host_handle ≡ s.host_handle
        → t.next_cell_seq ≡ s.next_cell_seq
        → Edit s t
    cleared :
        t.active_cell ≡ none → t.host_handle ≡ none → t.next_cell_seq ≡ s.next_cell_seq → Edit s t

  -- No live cell stands in the way of a new one.
  abbrev pub IsFree : Option (ActiveCellHandle V) → Type 0
  IsFree none = Unit
  IsFree (some cell) = is_terminal cell ≡ true

  pub data Change (w u : Service V) : Type 0 where
    untouched : u.sessions ≡ w.sessions → u.next_host ≡ w.next_host → Change w u
    edited :
        (id : String) (s t : SessionState V)
        → lookup id w.sessions ≡ some s
        → Edit s t
        → u.sessions ≡ insert id t w.sessions
        → u.next_host ≡ w.next_host
        → Change w u
    began :
        (id : String) (s t : SessionState V)
        → unwrap_or (lookup id w.sessions) empty_session ≡ s
        → IsFree s.active_cell
        → (cell : ActiveCellHandle V) → t.active_cell ≡ some cell
        → cell.cell_id ≡ cell_name s.next_cell_seq
        → t.host_handle ≡ some w.next_host
        → t.next_cell_seq ≡ s.next_cell_seq + 1
        → u.sessions ≡ insert id t w.sessions
        → u.next_host ≡ suc w.next_host
        → Change w u

  pub require_active_cell-ok :
      (s : SessionState V) (cell_id : String) (cell : ActiveCellHandle V)
      → require_active_cell s cell_id ≡ ok cell
      → (s.active_cell ≡ some cell) × (cell.cell_id ≡ cell_id)
  unfolding require_active_cell
  require_active_cell-ok s cell_id cell h = ground (arith, eq_iff cell.cell_id cell_id)

  on_active_cell-Change :
      {A : Type 0} (session_id cell_id : String)
      (f : SessionState V → ActiveCellHandle V → A × SessionState V) (w : Service V)
      → ((s : SessionState V) (cell : ActiveCellHandle V)
          → s.active_cell ≡ some cell
          → Edit s (f s cell).1)
      → Change w (on_active_cell session_id cell_id f w).1
  unfolding on_active_cell
  on_active_cell-Change session_id cell_id f w edit =
      elim (Option-cases (lookup session_id w.sessions)) [
        | inl absent ↦ rw (absent, on_active_cell) (untouched refl refl)
        | inr (s, present) ↦ elim (Result-cases (require_active_cell s cell_id)) [
          | inl (e, refused) ↦ rw (present, refused, on_active_cell) (untouched refl refl)
          | inr (cell, found) ↦
              rw (present, found, on_active_cell)
                (edited session_id s (f s cell).1 present
                  (edit s cell (require_active_cell-ok s cell_id cell found).0) refl refl)
        ]
      ]

  -- The changes of the host table do not show in the sessions.
  Change-hosts : (w u : Service V) (hosts : _) → Change w u → Change w (record u { hosts = hosts })
  Change-hosts w u hosts (untouched a b) = untouched a b
  Change-hosts w u hosts (edited id s t l e a b) = edited id s t l e a b
  Change-hosts w u hosts (began id s t l free cell c n h q a b) =
      began id s t l free cell c n h q a b

  -- An edit of the cell alone, under its name.
  same_cell :
      (s t : SessionState V) (cell cell' : ActiveCellHandle V)
      → s.active_cell ≡ some cell
      → cell'.cell_id ≡ cell.cell_id
      → t.active_cell ≡ some cell'
      → t.host_handle ≡ s.host_handle
      → t.next_cell_seq ≡ s.next_cell_seq
      → Edit s t
  same_cell s t cell cell' a n c h q = kept cell cell' a c n h q

  store_terminal-same :
      (st : CellStatus V) (s : SessionState V)
      → ((store_terminal st s).active_cell ≡ s.active_cell)
        × ((store_terminal st s).host_handle ≡ s.host_handle)
        × ((store_terminal st s).next_cell_seq ≡ s.next_cell_seq)
  unfolding store_terminal
  store_terminal-same st s = ground arith

  record_update_with-Edit :
      (u : DriverUpdate V) (s : SessionState V) (cell : ActiveCellHandle V)
      → s.active_cell ≡ some cell
      → Edit s (record_update_with u s cell).1
  unfolding record_update_with
  record_update_with-Edit u s cell a =
      let new = record_driver_update cell u in
      let (same, host, seq) = store_terminal-same u.status (record s { active_cell = some new }) in
      same_cell s _ cell new a (record_driver_update_fields cell u).1 same host seq

  read_and_clear-Edit :
      (prefer : Bool) (s : SessionState V) (cell : ActiveCellHandle V)
      → s.active_cell ≡ some cell
      → Edit s (read_and_clear prefer s cell).1
  unfolding read_and_clear
  read_and_clear-Edit prefer s cell a = elim (Bool-cases (is_terminal cell)) [
    | inl done ↦ rw done (cleared refl refl refl)
    | inr live ↦ rw live (same_cell s s cell cell a refl a refl refl)
  ]

  note_published-Change :
      (host : ℕ) (r : Result ToolError (Unit {0})) (w u : Service V)
      → Change w u
      → Change w (note_published host r u).1
  unfolding note_published
  note_published-Change host (err e) w u c = c
  note_published-Change host (ok x) w u c = Change-hosts w u _ c

  publish-Change :
      (session_id cell_id : String) (host : ℕ) (summary : ExecRunResult V) (w : Service V)
      → Change w (publish_summary_update session_id cell_id host summary w).1
  unfolding publish_summary_update
  publish-Change session_id cell_id host summary w =
      let (published, u) = on_active_cell session_id cell_id (set_publication summary) w in
      note_published-Change host published w u (
        on_active_cell-Change session_id cell_id (set_publication summary) w
          (λ s cell a. same_cell s _ cell _ a refl refl refl refl))

  abort-Change :
      (session_id reason : String) (w : Service V)
      → Change w (abort_active_cell session_id reason w).1
  unfolding abort_active_cell
  abort-Change session_id reason w = elim (Option-cases (lookup session_id w.sessions)) [
    | inl absent ↦ rw (absent, abort_active_cell) (untouched refl refl)
    | inr (s, present) ↦ elim (Option-cases s.host_handle) [
      | inl e ↦
          rw (present, e, abort_active_cell)
            (edited session_id s (clear_cell s) present (cleared refl refl refl) refl refl)
      | inr (host, e) ↦
          rw (present, e, abort_active_cell)
            (edited session_id s (clear_cell s) present (cleared refl refl refl) refl refl)
    ]
  ]

  watch_host-unchanged :
      (host : Option ℕ) (cell : ActiveCellHandle V) (w : Service V) → (watch_host host cell w).1 ≡ w
  unfolding watch_host
  watch_host-unchanged none cell w = refl
  watch_host-unchanged (some host) cell w = refl

  wait_on_cell-Change :
      (session_id : String) (requested : Option String) (s : SessionState V)
      (cell : ActiveCellHandle V) (w : Service V)
      → lookup session_id w.sessions ≡ some s
      → Change w (wait_on_cell session_id requested s cell w).1
  unfolding wait_on_cell
  wait_on_cell-Change session_id requested s cell w present =
      elim (Bool-cases (is_requested requested cell.cell_id)) [
        | inr other ↦ rw other (untouched refl refl)
        | inl asked ↦ elim (Bool-cases (is_terminal cell)) [
          | inl done ↦
              rw (asked, done)
                (edited session_id s (clear_cell s) present (cleared refl refl refl) refl refl)
          | inr live ↦
              rw (asked, live)
                (let e = watch_host-unchanged s.host_handle cell w in
                  untouched (ap (λ (v : Service V). v.sessions) e)
                    (ap (λ (v : Service V). v.next_host) e))
        ]
      ]

  wait-Change :
      (session_id : String) (requested : Option String) (w : Service V)
      → Change w (wait_start session_id requested w).1
  unfolding wait_start
  wait-Change session_id requested w = elim (Option-cases (lookup session_id w.sessions)) [
    | inl absent ↦ rw (absent, wait_start) (untouched refl refl)
    | inr (s, present) ↦ elim (Option-cases s.active_cell) [
      | inl e ↦ rw (present, e, wait_start) (untouched refl refl)
      | inr (cell, e) ↦
          rw (present, e, wait_start) (wait_on_cell-Change session_id requested s cell w present)
    ]
  ]

  start_cell-Change :
      (session_id : String) (notice : Option String) (s : SessionState V) (w : Service V)
      → unwrap_or (lookup session_id w.sessions) empty_session ≡ s
      → IsFree s.active_cell
      → Change w (start_cell session_id notice s w).1
  unfolding start_cell
  start_cell-Change session_id notice s w e free =
      began session_id s _ e free (new_cell (cell_name s.next_cell_seq) notice) refl
        (unfold new_cell in refl) refl refl refl refl

  begin_after-Change :
      (session_id : String) (notice : Option String) (s : SessionState V)
      (o : Option (ActiveCellHandle V)) (w : Service V)
      → unwrap_or (lookup session_id w.sessions) empty_session ≡ s
      → s.active_cell ≡ o
      → Change w (begin_after o (start_cell session_id notice s w) w).1
  unfolding begin_after
  begin_after-Change session_id notice s none w e a =
      start_cell-Change session_id notice s w e (subst IsFree (sym a) tt)
  begin_after-Change session_id notice s (some cell) w e a = elim (Bool-cases (is_terminal cell)) [
    | inl done ↦ rw done (start_cell-Change session_id notice s w e (subst IsFree (sym a) done))
    | inr live ↦ rw live (untouched refl refl)
  ]

  begin-Change :
      (session_id : String) (notice : Option String) (w : Service V)
      → Change w (begin_cell session_id notice w).1
  begin-Change session_id notice w =
      let s = unwrap_or (lookup session_id w.sessions) empty_session in
      unfold begin_cell in begin_after-Change session_id notice s s.active_cell w refl refl

  -- Every step of every caller and host changes one session at most: it leaves the sessions alone;
  -- or it edits the cell of one session, which keeps its name and host, or clears it; or it begins a
  -- cell in a session with no live one, under the next name and with the next host.
  pub take_step-Change : (step : ServiceStep V) (w : Service V) → Change w (take_step step w)
  unfolding take_step
  take_step-Change (begin session_id notice) w = begin-Change session_id notice w
  take_step-Change (record_update session_id cell_id u) w =
      unfold record_driver_update_in_session in
      on_active_cell-Change session_id cell_id (record_update_with u) w (record_update_with-Edit u)
  take_step-Change (record_cancellation session_id cell_id reason) w =
      unfold record_cell_cancellation_in_session transition_to_cancelled in
      on_active_cell-Change session_id cell_id (set_cancelled reason) w
        (λ s cell a. same_cell s _ cell _ a refl refl refl refl)
  take_step-Change (read_summary session_id cell_id prefer) w =
      unfold read_cell_summary in
      on_active_cell-Change session_id cell_id (read_and_clear prefer) w
        (read_and_clear-Edit prefer)
  take_step-Change (publish session_id cell_id host summary) w =
      publish-Change session_id cell_id host summary w
  take_step-Change (host_error session_id cell_id e) w =
      unfold record_host_error_in_session transition_to_failure in
      on_active_cell-Change session_id cell_id (set_failure e) w
        (λ s cell a. same_cell s _ cell _ a refl refl refl refl)
  take_step-Change (abort session_id reason) w = abort-Change session_id reason w
  take_step-Change (wait session_id requested) w = wait-Change session_id requested w
  take_step-Change (cancel_host reason host) w = untouched refl refl
