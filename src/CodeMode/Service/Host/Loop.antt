-- ===== src/CodeMode/Service/Host/Loop.antt =====
-- The whole life of a host task (src/code_mode/service.rs, `perform_cell_host_loop`).
use mathlib.Core.Path.{subst}
use rust_claw_oc.Prelude.{
  ℕ, ◌≤◌, ◌≡◌, refl, ap, ◌∙◌, ◌⊎◌, inl, inr, true, Option, none, some, or_some, List, [], ◌∷◌, ◌++◌,
  leb, Result, Result-cases, arith,
}
use rust_claw_oc.Tools.Protocol.{ToolError}
use rust_claw_oc.CodeMode.Response.{ExecRunResult}
use rust_claw_oc.CodeMode.Cell.{to_exec_result}
use rust_claw_oc.CodeMode.Service.{
  Service, update_host, request_cancel, record_cell_cancellation_in_session, publish_summary_update,
}
use rust_claw_oc.CodeMode.Service.Steps.{ServiceStep, take_steps}
use rust_claw_oc.CodeMode.Service.Host.{
  CellRuntimeBudget, HostTask, CellTraceFinish, Turn, go_on, exit, fail_and_exit,
  publish_and_unblock, deadline_reason, cancel_cell_for_runtime_deadline, host_turn, Round,
  host_loop,
}
use rust_claw_oc.CodeMode.Service.Host.Answer.{Sends, Answers, host_turn-Answers}

module _ {V : Type 0} where
  Turn-cases :
      (t : Turn V)
      → ((task : HostTask V) × (w : Service V) × (t ≡ go_on task w))
        ⊎ ((f : CellTraceFinish) × (task : HostTask V) × (w : Service V) × (t ≡ exit f task w))
  Turn-cases (go_on task w) = inl (task, w, refl)
  Turn-cases (exit f task w) = inr (f, task, w, refl)

  Sends-later :
      (sent x later : Option (Result ToolError (ExecRunResult V)))
      → (x ≡ sent) ⊎ ((q : Result ToolError (ExecRunResult V)) × (x ≡ or_some sent (some q)))
      → (r : Result ToolError (ExecRunResult V)) → later ≡ or_some x (some r)
      → (q : Result ToolError (ExecRunResult V)) × (later ≡ or_some sent (some q))
  Sends-later none none later h r e = (r, e)
  Sends-later none (some y) later h r e = (y, e)
  Sends-later (some s) x later (inl p) r e = (r, e ∙ ap (λ o. or_some o (some r)) p)
  Sends-later (some s) x later (inr (q, p)) r e = (r, e ∙ ap (λ o. or_some o (some r)) p)

  Answers-later :
      (sent x : Option (Result ToolError (ExecRunResult V)))
      → (x ≡ sent) ⊎ ((q : Result ToolError (ExecRunResult V)) × (x ≡ or_some sent (some q)))
      → (t : Turn V) → Answers x t
      → Answers sent t
  Answers-later sent x h (go_on task w) (inl e) = rw e h
  Answers-later sent x h (go_on task w) (inr (r, e)) = inr (Sends-later sent x task.initial h r e)
  Answers-later sent x h (exit f task w) (r, e) = Sends-later sent x task.initial h r e

  host_loop-Answers :
      (budget : CellRuntimeBudget) (rounds : List (Round V × List (ServiceStep V)))
      (task : HostTask V) (w : Service V)
      → Answers task.initial (host_loop budget rounds task w)
  unfolding host_loop
  host_loop-Answers budget [] task w = inl refl
  host_loop-Answers budget ((r, between) ∷ rounds) task w =
      let now = host_turn-Answers budget r.now r.after r.driver_update r.gap task w in
      let later = λ (t : HostTask V) (u : Service V).
        host_loop-Answers budget rounds t (take_steps between u) in
      elim (Turn-cases (host_turn budget r.now r.after r.driver_update r.gap task w)) [
        | inr (g, t, u, e) ↦ rw (e, host_loop) (subst (Answers task.initial) e now)
        | inl (t, u, e) ↦
            rw (e, host_loop)
              (Answers-later task.initial t.initial (subst (Answers task.initial) e now)
                (host_loop budget rounds t (take_steps between u)) (later t u))
      ]

  abbrev Exits : Turn V → Type 0
  Exits turn =
      (f : CellTraceFinish) × (task : HostTask V) × (w : Service V) × (turn ≡ exit f task w)

  publish_exit-Exits :
      (summary : ExecRunResult V) (task : HostTask V) (w : Service V) (f : CellTraceFinish)
      → Exits (publish_and_unblock summary task w (λ t u. exit f t u))
  unfolding publish_and_unblock fail_and_exit
  publish_exit-Exits summary task w f =
      elim (Result-cases
        (publish_summary_update task.session_id task.cell_id task.host summary w).0) [
          | inl (e, failed) ↦ rw (failed, publish_and_unblock) (_, _, _, refl)
          | inr (x, done) ↦ rw (done, publish_and_unblock) (_, _, _, refl)
        ]

  deadline-Exits :
      (ms : ℕ) (gap : List (ServiceStep V)) (task : HostTask V) (w : Service V)
      → Exits (cancel_cell_for_runtime_deadline ms gap task w)
  unfolding cancel_cell_for_runtime_deadline fail_and_exit
  deadline-Exits ms gap task w =
      let asked = record w {
        hosts = update_host (request_cancel (deadline_reason ms)) task.host w.hosts;
      } in
      let (recorded, u) =
        record_cell_cancellation_in_session task.session_id task.cell_id (deadline_reason ms)
          asked in
      elim (Result-cases recorded) [
        | inl (e, failed) ↦ rw (failed, cancel_cell_for_runtime_deadline) (_, _, _, refl)
        | inr (snapshot, done) ↦
            rw (done, cancel_cell_for_runtime_deadline)
              (publish_exit-Exits (to_exec_result snapshot none none) task (take_steps gap u) _)
      ]

  host_loop-Exits :
      (budget : CellRuntimeBudget) (before after : List (Round V × List (ServiceStep V)))
      (r : Round V) (between : List (ServiceStep V)) (task : HostTask V) (w : Service V)
      → budget.deadline ≤ r.now
      → Exits (host_loop budget (before ++ (r, between) ∷ after) task w)
  unfolding host_loop host_turn
  host_loop-Exits budget [] after r between task w late =
      let over : leb budget.deadline r.now ≡ true = ground arith in
      let (f, t, u, e) = deadline-Exits budget.timeout_ms r.gap task w in
      rw (over, host_loop, host_turn) (rw (e, host_loop) (f, t, u, refl))
  host_loop-Exits budget ((q, gap) ∷ before) after r between task w late =
      let later = λ (t : HostTask V) (u : Service V).
        host_loop-Exits budget before after r between t u late in
      elim (Turn-cases (host_turn budget q.now q.after q.driver_update q.gap task w)) [
        | inr (g, t, u, e) ↦ rw (e, host_loop) (g, t, u, refl)
        | inl (t, u, e) ↦ rw (e, host_loop) (later t (take_steps gap u))
      ]

  -- The host of a cell stops at its deadline: once a round begins at the deadline or later, the
  -- loop has ended, whatever the driver answered and others did, and the caller of `execute` has
  -- its answer: the result that was sent before, if there was one, and otherwise a new one.
  pub host_loop-stops :
      (budget : CellRuntimeBudget) (before after : List (Round V × List (ServiceStep V)))
      (r : Round V) (between : List (ServiceStep V)) (task : HostTask V) (w : Service V)
      → budget.deadline ≤ r.now
      → (f : CellTraceFinish) × (task' : HostTask V) × (w' : Service V) × (host_loop budget
            (before ++ (r, between) ∷ after)
            task
            w
          ≡ exit f task' w')
        × Sends task.initial task'
  host_loop-stops budget before after r between task w late =
      let rounds = before ++ (r, between) ∷ after in
      let (f, t, u, e) = host_loop-Exits budget before after r between task w late in
      (f, t, u, e, subst (Answers task.initial) e (host_loop-Answers budget rounds task w))
