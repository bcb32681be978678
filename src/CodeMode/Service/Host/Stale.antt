-- ===== src/CodeMode/Service/Host/Stale.antt =====
-- A caller that reads between the last update of a cell and its publication (src/code_mode/service.rs).
use rust_claw_oc.Prelude.{
  ◌≡◌, ◌∙◌, refl, ap, ℕ, true, false, String, some, none, List, ok, err, ◌∷◌, [], concat,
}
use rust_claw_oc.Prelude.Dict.{lookup, insert, lookup-insert_self}
use rust_claw_oc.Tools.Protocol.{execution_failed}
use rust_claw_oc.CodeMode.Protocol.{RuntimeEvent, RuntimeTerminalResult}
use rust_claw_oc.CodeMode.Response.{ExecRunResult}
use rust_claw_oc.CodeMode.Cell.{ActiveCellHandle, is_terminal, record_driver_update}
use rust_claw_oc.CodeMode.Cell.Report.{
  record_driver_update_fields, is_terminal-record_driver_update,
}
use rust_claw_oc.CodeMode.Service.{
  Service, SessionState, on_active_cell, require_active_cell, record_update_with, store_terminal,
  record_driver_update_in_session, publish_summary_update, note_published, clear_cell,
}
use rust_claw_oc.CodeMode.Service.Wait.{wait_finish}
use rust_claw_oc.CodeMode.Service.Host.Finish.{
  IsActive, on_active_cell-found, updated, ends, updated-IsActive, report, with_publication,
  wait_finish-found, recorded,
}

module _ {V : Type 0} where
  publish_summary_update-gone :
      (id name : String) (host : ℕ) (summary : ExecRunResult V) (w : Service V) (s : SessionState V)
      → lookup id w.sessions ≡ some s
      → s.active_cell ≡ none
      → (publish_summary_update id name host summary w).0
        ≡ err (execution_failed (concat ("No active code-mode cell `" ∷ name ∷ "` found." ∷ [])))
  unfolding publish_summary_update on_active_cell require_active_cell note_published
  publish_summary_update-gone id name host summary w s found gone =
      rw (found, publish_summary_update, on_active_cell) (rw (gone, require_active_cell) refl)

  -- The end of a cell can be lost. If a caller that was woken by an earlier publication `old` reads
  -- after the last update of the cell is recorded and before it is published, then the caller gets
  -- `old`, the session has no cell any more, and the publication of the end fails.
  pub wait_finish-loses_end :
      (id name : String) (host : ℕ) (es : List (RuntimeEvent V)) (result : RuntimeTerminalResult V)
      (w : Service V) (s : SessionState V) (cell : ActiveCellHandle V) (old : ExecRunResult V)
      → IsActive id name s cell w
      → is_terminal cell ≡ false
      → cell.last_publication ≡ some old
      → ((wait_finish id name true (record_driver_update_in_session id name (ends es result) w).1).0
          ≡ ok old)
        × (lookup id
              (wait_finish id name true
                (record_driver_update_in_session id name (ends es result) w).1).1.sessions
            ≡ some (record s {
              active_cell = none;
              host_handle = none;
              stored_values = result.stored_values;
            }))
        × ((publish_summary_update id name host
              (report (record_driver_update cell (ends es result)))
              (wait_finish id name true
                (record_driver_update_in_session id name (ends es result) w).1).1).0
            ≡ err
                (execution_failed (concat ("No active code-mode cell `" ∷ name ∷ "` found." ∷ []))))
  unfolding record_driver_update_in_session record_update_with store_terminal
  wait_finish-loses_end id name host es result w s cell old active live published =
      let u = ends es result in
      let cell' = record_driver_update cell u in
      let s' = updated u s cell in
      let w1 = recorded id u s cell w in
      let done : (record_driver_update_in_session id name u w).1 ≡ w1 =
        ap (λ r. r.1) (on_active_cell-found id name (record_update_with u) w s cell active) in
      let (found, here, named) = updated-IsActive id name es result s cell w active.2 in
      let same : cell' ≡ with_publication old cell' =
        ap (λ o. record cell' { last_publication = o })
          ((record_driver_update_fields cell u).2 ∙ published) in
      let over : is_terminal cell' ≡ true = is_terminal-record_driver_update cell u live in
      let read : wait_finish id name true w1
          ≡ (ok old, record w1 { sessions = insert id (clear_cell s') w1.sessions }) =
        wait_finish-found id name old w1 s' cell' (found, here ∙ ap (λ c. some c) same, named)
          over in
      let after : lookup id (wait_finish id name true w1).1.sessions ≡ some (clear_cell s') =
        ap (λ r. lookup id r.1.sessions) read ∙ lookup-insert_self id (clear_cell s') w1.sessions in
      rw done (
        ap (λ r. r.0) read,
        after,
        publish_summary_update-gone id name host (report cell') (wait_finish id name true w1).1
            (clear_cell s') after refl,
      )
