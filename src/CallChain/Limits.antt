-- ===== src/CallChain/Limits.antt =====
-- The limits of a delegated run (src/call_chain.rs, `effective_limits`).
use rust_claw_oc.Prelude.{ℕ, ◌≤◌, ◌/◌, max, Option, none, some, arith, unwrap_or}
use rust_claw_oc.CallChain.{
  CallChainBudget, effective_limits, effective_max_steps, effective_timeout_sec,
}

-- At most `m` where the budget is set.
abbrev pub AtMost : ℕ → Option ℕ → Type 0
AtMost n none = Unit
AtMost n (some m) = n ≤ max m 1

abbrev pub half : Option ℕ → Option ℕ
half none = none
half (some m) = some (m / 2)

steps_bounds :
    (remaining requested : Option ℕ) (default : ℕ)
    → (1 ≤ effective_max_steps remaining requested default)
      × AtMost (effective_max_steps remaining requested default) (half remaining)
      × AtMost (effective_max_steps remaining requested default) requested
unfolding effective_max_steps
steps_bounds none none d = (omega arith, tt, tt)
steps_bounds none (some r) d = (omega arith, tt, omega arith)
steps_bounds (some p) none d = (omega arith, omega arith, tt)
steps_bounds (some p) (some r) d = (omega arith, omega arith, omega arith)

timeout_bounds :
    (remaining requested : Option ℕ) (default : ℕ)
    → (1 ≤ effective_timeout_sec remaining requested default)
      × AtMost (effective_timeout_sec remaining requested default) remaining
      × AtMost
          (effective_timeout_sec remaining requested default)
          (some (unwrap_or requested default))
unfolding effective_timeout_sec
timeout_bounds none none d = (omega arith, tt, omega arith)
timeout_bounds none (some r) d = (omega arith, tt, omega arith)
timeout_bounds (some p) none d = (omega arith, omega arith, omega arith)
timeout_bounds (some p) (some r) d = (omega arith, omega arith, omega arith)

-- A delegated run gets at least one step and one second; at most half of the steps that its parent
-- has left and no more than all its time; and no more of either than was asked for, where a bound
-- of 0 counts as 1.
pub effective_limits_bounds :
    (budget : CallChainBudget) (steps timeout : Option ℕ) (default_steps default_timeout : ℕ)
    → (1 ≤ (effective_limits budget steps timeout default_steps default_timeout).0)
      × (1 ≤ (effective_limits budget steps timeout default_steps default_timeout).1)
      × AtMost
          (effective_limits budget steps timeout default_steps default_timeout).0
          (half budget.remaining_steps)
      × AtMost (effective_limits budget steps timeout default_steps default_timeout).0 steps
      × AtMost
          (effective_limits budget steps timeout default_steps default_timeout).1
          budget.remaining_timeout_sec
      × AtMost
          (effective_limits budget steps timeout default_steps default_timeout).1
          (some (unwrap_or timeout default_timeout))
unfolding effective_limits
effective_limits_bounds budget steps timeout default_steps default_timeout =
    let (one, half_left, asked) = steps_bounds budget.remaining_steps steps default_steps in
    let (one', left, asked') =
      timeout_bounds budget.remaining_timeout_sec timeout default_timeout in
    (one, one', half_left, asked, left, asked')
