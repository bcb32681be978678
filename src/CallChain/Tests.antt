-- ===== src/CallChain/Tests.antt =====
-- A chain of two skills, and the limits of the second (src/call_chain.rs).
use rust_claw_oc.Prelude.{◌≡◌, ◌≤◌, true, none, some, List, [], ◌∷◌}
use rust_claw_oc.CallChain.{
  CallChainBudget, effective_limits, new_root, lineage_names, contains_skill, current_depth,
  total_calls_used,
}
use rust_claw_oc.CallChain.Limits.{effective_limits_bounds}
use rust_claw_oc.CallChain.Lineage.{Call, IsLinkedFrom, append_frames, append_frames-IsLinked}

abbrev budget : CallChainBudget
budget = record { remaining_steps = some 12; remaining_timeout_sec = some 30 }

effective_limits_bounds_example :
    (1 ≤ (effective_limits budget (some 10) (some 60) 5 60).0)
    × (1 ≤ (effective_limits budget (some 10) (some 60) 5 60).1)
    × ((effective_limits budget (some 10) (some 60) 5 60).0 ≤ 6)
    × ((effective_limits budget (some 10) (some 60) 5 60).0 ≤ 10)
    × ((effective_limits budget (some 10) (some 60) 5 60).1 ≤ 30)
    × ((effective_limits budget (some 10) (some 60) 5 60).1 ≤ 60)
effective_limits_bounds_example = effective_limits_bounds budget (some 10) (some 60) 5 60

abbrev calls : List Call
calls = ("1", "alpha", some "hello") ∷ ("2", "beta", none) ∷ []

append_frames-IsLinked_example :
    IsLinkedFrom 0 none (append_frames (λ s. s) calls (new_root 0 "root")).lineage
    × (lineage_names (append_frames (λ s. s) calls (new_root 0 "root")) ≡ "alpha" ∷ "beta" ∷ [])
    × (contains_skill (append_frames (λ s. s) calls (new_root 0 "root")) "beta" ≡ true)
    × (current_depth (append_frames (λ s. s) calls (new_root 0 "root")) ≡ 2)
    × (total_calls_used (λ n. n) (append_frames (λ s. s) calls (new_root 0 "root")) ≡ 0)
append_frames-IsLinked_example = append_frames-IsLinked (λ s. s) calls 0 "root" "beta" (λ n. n)
