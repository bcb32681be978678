-- ===== src/CodeMode/Service/Wait.antt =====
-- A caller that waits on a cell: `wait_with_request` of src/code_mode/service.rs, before and after it
-- awaits the host.
use rust_claw_oc.Prelude.{
  ℕ, Bool, true, String, Option, none, some, [], ◌∷◌, concat, str_eq, if◌then◌else◌, ok, err,
  unwrap_or,
}
use rust_claw_oc.Prelude.Dict.{lookup, insert}
use rust_claw_oc.Tools.Protocol.{execution_failed}
use rust_claw_oc.CodeMode.Response.{ExecRunResult}
use rust_claw_oc.CodeMode.Cell.{ActiveCellHandle, is_terminal, snapshot, to_exec_result}
use rust_claw_oc.CodeMode.Service.{SessionState, Step, no_session, clear_cell, read_cell_summary}

-- What `wait_with_request` finds first: a finished cell, or a host to watch from a revision on.
pub data WaitStart (V : Type 0) : Type 0 where
  finished : ExecRunResult V → WaitStart V
  watch : String → ℕ → ℕ → WaitStart V

abbrev pub is_requested : Option String → String → Bool
is_requested none cell_id = true
is_requested (some requested) cell_id = str_eq requested cell_id

module _ {V : Type 0} where
  unfoldable pub watch_host : Option ℕ → ActiveCellHandle V → Step V (WaitStart V)
  watch_host none cell w =
      (err (execution_failed "Active cell has no background host. This is an internal error."), w)
  watch_host (some host) cell w = (ok (watch cell.cell_id host (w.hosts host).revision), w)

  unfoldable pub wait_on_cell :
      String → Option String → SessionState V → ActiveCellHandle V → Step V (WaitStart V)
  unfolding watch_host
  wait_on_cell session_id requested session cell w =
      if is_requested requested cell.cell_id
      then (if is_terminal cell
          then (
            ok (finished (to_exec_result (snapshot cell) none none)),
            record w { sessions = insert session_id (clear_cell session) w.sessions },
          )
          else watch_host session.host_handle cell w)
      else (
        err (
            execution_failed (
              concat (
                "Cell ID mismatch: requested `"
                ∷ unwrap_or requested ""
                ∷ "` but active cell is `"
                ∷ cell.cell_id
                ∷ "`."
                ∷ []))),
        w,
      )

  -- The part of `wait_with_request` before it awaits the host.
  unfoldable pub wait_start : String → Option String → Step V (WaitStart V)
  unfolding wait_on_cell
  wait_start session_id requested w = elim (lookup session_id w.sessions) [
    | none ↦ (err no_session, w)
    | some session ↦ elim session.active_cell [
      | none ↦ (err (execution_failed "No active code-mode cell to wait on. Call `exec` first."), w)
      | some cell ↦ wait_on_cell session_id requested session cell w
    ]
  ]

  -- The part after: `updated` says whether the host's revision moved before the timeout.
  unfoldable pub wait_finish : String → String → Bool → Step V (ExecRunResult V)
  unfolding read_cell_summary
  wait_finish session_id cell_id updated = read_cell_summary session_id cell_id updated
