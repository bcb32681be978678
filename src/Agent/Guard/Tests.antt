-- ===== src/Agent/Guard/Tests.antt =====
-- The guard on one failing call, seven times (src/core.rs).
use rust_claw_oc.Prelude.{◌≡◌, ◌⊎◌, ◌%◌, true, is_some, List, [], ◌∷◌, length}
use rust_claw_oc.Agent.Guard.{new_guard, action_key, record_action_outcome}
use rust_claw_oc.Agent.Guard.Repeats.{
  Action, record_actions, signals_from, ends_twice, record_actions_signals, record_actions-notices,
}

abbrev call : Action
call = ("bash", "{}", true)

abbrev calls : List Action
calls = call ∷ call ∷ call ∷ call ∷ call ∷ call ∷ call ∷ []

record_actions_signals_example :
    ((record_actions calls new_guard).0
      ≡ signals_from 0 (length (record_actions calls new_guard).0))
    × ((record_actions calls new_guard).1.reflection_strike
        ≡ length (record_actions calls new_guard).0 % 256)
record_actions_signals_example = record_actions_signals calls

record_actions-notices_example :
    (is_some (record_action_outcome "bash" "{}" true (record_actions calls new_guard).1).0
      ≡ ends_twice (action_key "bash" "{}" true) (record_actions calls new_guard).1.action_history)
    × (is_some (record_action_outcome "bash" "{}" true (record_actions calls new_guard).1).0 ≡ true
        ⊎ is_some
            (record_action_outcome "bash" "{}" true
              (record_action_outcome "bash" "{}" true (record_actions calls new_guard).1).1).0
          ≡ true
        ⊎ is_some
            (record_action_outcome "bash" "{}" true
              (record_action_outcome "bash" "{}" true
                (record_action_outcome "bash" "{}" true (record_actions calls new_guard).1).1).1).0
          ≡ true)
record_actions-notices_example = record_actions-notices calls "bash" "{}" true
