-- ===== src/Agent/Guard.antt =====
-- `ExecutionGuardState` of src/core.rs. The arguments of a call come as the text that serde_json
-- prints. The strikes are a `u8`.
pub mod Repeats
mod Tests
use rust_claw_oc.Prelude.{
  ℕ, ◌+◌, ◌%◌, ◌^◌, Bool, true, false, not, ◌&&◌, String, Option, none, some, List, [], ◌∷◌, length,
  drop, push, any, concat, str_eq, ltb, leb, ◌==◌, if◌then◌else◌,
}

pub data ExecutionGuardSignal : Type 0 where
  reflection_warning autopilot_meltdown : ExecutionGuardSignal

unfoldable pub signal : ExecutionGuardSignal → String
signal reflection_warning = "reflection_warning"
signal autopilot_meltdown = "autopilot_meltdown"

pub record ExecutionGuardState : Type 0 where
  pub action_history : List String
  pub reflection_strike : ℕ

abbrev pub new_guard : ExecutionGuardState
new_guard = record { action_history = []; reflection_strike = 0 }

abbrev pub show_bool : Bool → String
show_bool true = "true"
show_bool false = "false"

abbrev pub action_key : String → String → Bool → String
action_key call_name call_args is_error =
    concat (call_name ∷ ":" ∷ call_args ∷ ":" ∷ show_bool is_error ∷ [])

-- `pop_front`
abbrev pop_front : List String → List String
pop_front xs = drop 1 xs

-- The history after the action, which keeps the last three.
abbrev remember : String → List String → List String
remember key history =
    if ltb 3 (length (push history key)) then pop_front (push history key) else push history key

-- Are there three actions, all of them this one?
abbrev is_stuck : String → List String → Bool
is_stuck key history = length history == 3 && not (any (λ k. not (str_eq k key)) history)

strike : ExecutionGuardState → Option ExecutionGuardSignal × ExecutionGuardState
strike guard =
    let strikes = (guard.reflection_strike + 1) % 2 ^ 8 in
    (
      some (if leb 2 strikes then autopilot_meltdown else reflection_warning),
      record { action_history = []; reflection_strike = strikes },
    )

record_key : String → ExecutionGuardState → Option ExecutionGuardSignal × ExecutionGuardState
unfolding strike
record_key key guard =
    let history = remember key guard.action_history in
    if is_stuck key history then strike guard else (none, record guard { action_history = history })

unfoldable pub record_action_outcome :
    String → String → Bool → ExecutionGuardState → Option ExecutionGuardSignal × ExecutionGuardState
unfolding record_key
record_action_outcome call_name call_args is_error guard =
    record_key (action_key call_name call_args is_error) guard
