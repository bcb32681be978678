-- ===== src/Context/Budget.antt =====
-- src/context/history.rs: how many tokens the history may cost, and how many turns to compact.
use rust_claw_oc.Prelude.{
  ℕ, ◌+◌, ◌-◌, ◌*◌, ◌/◌, ◌^◌, ◌≤◌, ◌&&◌, List, [], ◌∷◌, length, min, ltb, leb, if◌then◌else◌, arith,
}
use rust_claw_oc.Context.{Crates, Turn, turn_token_estimate}

-- `clamp(low, high)`
abbrev clamp : ℕ → ℕ → ℕ → ℕ
clamp low high n = if ltb n low then low else if ltb high n then high else n

unfoldable pub response_token_reserve : ℕ → ℕ
response_token_reserve max_tokens =
    if ltb max_tokens 8192 then max_tokens / 10 else clamp 4096 32000 (max_tokens / 10)

-- `saturating_mul` of a `usize`
abbrev saturating_mul : ℕ → ℕ → ℕ
saturating_mul a b = min (a * b) (2 ^ 64 - 1)

unfoldable pub effective_history_budget : ℕ → ℕ → ℕ → ℕ
unfolding response_token_reserve
effective_history_budget max_tokens system_tokens current_turn_tokens =
    min (saturating_mul max_tokens 85 / 100)
      (max_tokens - system_tokens - current_turn_tokens - response_token_reserve max_tokens)

module _ {V : Type 0} (crates : Crates V) where
  -- The loop over the turns, oldest first, with what it has selected.
  unfoldable pub select_oldest : ℕ → ℕ → ℕ → ℕ → List (Turn V) → ℕ
  select_oldest target_tokens min_turns selected tokens [] = selected
  select_oldest target_tokens min_turns selected tokens (t ∷ ts) =
      let tokens' = tokens + turn_token_estimate crates t in
      let rest = select_oldest target_tokens min_turns (selected + 1) tokens' ts in
      if leb min_turns (selected + 1) && leb target_tokens tokens' then selected + 1 else rest

  unfoldable pub oldest_turns_for_compaction : List (Turn V) → ℕ → ℕ → ℕ
  unfolding select_oldest
  oldest_turns_for_compaction history target_tokens min_turns =
      min (select_oldest target_tokens min_turns 0 0 history) (length history)

-- A tenth of the window, but no more than 32000 tokens, and below 8192 tokens no more than a tenth.
pub response_token_reserve_bounds :
    (max_tokens : ℕ)
    → (min (max_tokens / 10) 32000 ≤ response_token_reserve max_tokens)
      × (response_token_reserve max_tokens ≤ max_tokens)
unfolding response_token_reserve
response_token_reserve_bounds max_tokens = (ground arith, ground arith)

-- If the system prompt, the current turn and the reserve for the answer fit in the window, the
-- history fits beside them; it takes at most 85 % of the window; and the reserve is at least a
-- tenth of the window or 32000 tokens.
pub effective_history_budget_bounds :
    (max_tokens system_tokens current_turn_tokens : ℕ)
    → system_tokens + current_turn_tokens + response_token_reserve max_tokens ≤ max_tokens
    → (effective_history_budget max_tokens system_tokens current_turn_tokens
          + system_tokens
          + current_turn_tokens
          + response_token_reserve max_tokens
        ≤ max_tokens)
      × (100 * effective_history_budget max_tokens system_tokens current_turn_tokens
          ≤ 85 * max_tokens)
      × (min (max_tokens / 10) 32000 ≤ response_token_reserve max_tokens)
unfolding effective_history_budget
effective_history_budget_bounds max_tokens system_tokens current_turn_tokens h =
    (omega (arith, h), omega arith, (response_token_reserve_bounds max_tokens).0)
