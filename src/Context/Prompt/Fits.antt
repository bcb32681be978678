-- ===== src/Context/Prompt/Fits.antt =====
-- A request to the provider fits in its window (src/context/prompt.rs).
use rust_claw_oc.Prelude.{◌+◌, ◌≤◌, ◌≡◌, ◌∙◌, ap, none, [], arith}
use rust_claw_oc.Context.{Crates, sum_tokens}
use rust_claw_oc.Context.Budget.{
  response_token_reserve, effective_history_budget, effective_history_budget_bounds,
}
use rust_claw_oc.Context.History.Selection.{build_history_with_token_budget-HistoryWindow}
use rust_claw_oc.Context.TaskState.{TaskStateSnapshot}
use rust_claw_oc.Context.Assembler.{Scores, assemble_prompt}
use rust_claw_oc.Context.Assembler.Allocation.{assemble_prompt-within}
use rust_claw_oc.Context.Prompt.{
  AgentContext, Workspace, current_messages, with_memory, sources, system_budget, build_llm_payload,
}

module _ {V : Type 0} {Score : Type 0} (crates : Crates V) (scores : Scores Score) where
  -- If the context holds neither evidence nor retrieved memory, and the current turn and the reserve
  -- for the answer fit in the window, the tokens that the report counts for the history, the current
  -- turn and the system prompt leave room for that reserve.
  pub build_llm_payload-fits :
      (ws : Workspace) (task_state : TaskStateSnapshot) (ctx : AgentContext V Score)
      → ctx.retrieved_memory ≡ none
      → ctx.active_evidence ≡ []
      → sum_tokens crates (current_messages crates ctx.current_turn)
          + response_token_reserve ctx.max_history_tokens
        ≤ ctx.max_history_tokens
      → (build_llm_payload crates scores ws task_state ctx).2.total_prompt_tokens
          + response_token_reserve ctx.max_history_tokens
        ≤ ctx.max_history_tokens
  unfolding build_llm_payload
  build_llm_payload-fits ws task_state ctx no_memory no_evidence room =
      let current = sum_tokens crates (current_messages crates ctx.current_turn) in
      let reserve = response_token_reserve ctx.max_history_tokens in
      let report =
        (assemble_prompt scores (system_budget crates scores ctx) ws.files ws.now
          (sources crates scores ws task_state ctx)).1 in
      let system =
        (assemble_prompt-within scores (system_budget crates scores ctx) ws.files ws.now
          (sources crates scores ws task_state ctx)
          (ap (λ m. with_memory scores ws m ctx.active_evidence) no_memory ∙ no_evidence)).0 in
      let budget = effective_history_budget ctx.max_history_tokens report.used_tokens current in
      let window =
        build_history_with_token_budget-HistoryWindow crates ctx.dialogue_history budget in
      let fits =
        (effective_history_budget_bounds ctx.max_history_tokens report.used_tokens current
          (omega (arith, system, room))).0 in
      omega (arith, fits, window.5, room)
