-- ===== src/Agent/Guard/Repeats.antt =====
-- When the guard speaks (src/core.rs, `record_action_outcome`).
use rust_claw_oc.Prelude.{
  refl, ap, inl, inr, ◌%◌, if◌then◌else◌, leb, Bool-cases, ◌⊎◌, ◌≡◌, ℕ, zero, suc, ◌+◌, ◌≤◌, Bool,
  true, false, ◌&&◌, String, Option, none, some, List, [], ◌∷◌, length, str_eq, eq_iff, arith,
  is_some,
}
use rust_claw_oc.Agent.Guard.{
  new_guard, is_stuck, remember, action_key, ExecutionGuardSignal, reflection_warning,
  autopilot_meltdown, ExecutionGuardState, strike, record_key, record_action_outcome,
}

-- One action: the name of the call, its arguments and whether it failed.
abbrev pub Action : Type 0
Action = String × String × Bool

abbrev key_of : Action → String
key_of (name, args, is_error) = action_key name args is_error

abbrev add_signal :
    Option ExecutionGuardSignal → List ExecutionGuardSignal → List ExecutionGuardSignal
add_signal none signals = signals
add_signal (some s) signals = s ∷ signals

-- The signals of a run of actions, and the guard after it.
unfoldable pub record_actions :
    List Action → ExecutionGuardState → List ExecutionGuardSignal × ExecutionGuardState
unfolding record_action_outcome
record_actions [] guard = ([], guard)
record_actions ((name, args, is_error) ∷ actions) guard =
    let (s, guard') = record_action_outcome name args is_error guard in
    let (signals, last) = record_actions actions guard' in (add_signal s signals, last)

-- The signal after `n` others.
abbrev pub next_signal : ℕ → ExecutionGuardSignal
next_signal n = if leb 2 ((n + 1) % 256) then autopilot_meltdown else reflection_warning

-- The signals that a guard gives next when it has given `n`.
abbrev pub signals_from : ℕ → ℕ → List ExecutionGuardSignal
signals_from n zero = []
signals_from n (suc k) =
    (if leb 2 ((n + 1) % 256) then autopilot_meltdown else reflection_warning)
    ∷ signals_from (n + 1) k

-- The history holds at most three actions.
abbrev pub IsBounded : ExecutionGuardState → Type 0
IsBounded guard = length guard.action_history ≤ 3

-- Are the last two actions of the history this one?
abbrev pub ends_twice : String → List String → Bool
ends_twice key (a ∷ b ∷ []) = str_eq a key && str_eq b key
ends_twice key (a ∷ b ∷ c ∷ []) = str_eq b key && str_eq c key
ends_twice key _ = false

record_key_lem :
    (key : String) (history : List String) (n : ℕ)
    → length history ≤ 3
    → IsBounded (record_key key (record { action_history = history; reflection_strike = n })).1
      × (is_some (record_key key (record { action_history = history; reflection_strike = n })).0
          ≡ ends_twice key history)
unfolding record_key strike
record_key_lem key [] n h = ground arith
record_key_lem key (a ∷ []) n h = ground arith
record_key_lem key (a ∷ b ∷ []) n h = ground (arith, eq_iff key key)
record_key_lem key (a ∷ b ∷ c ∷ []) n h = ground (arith, eq_iff key key)
record_key_lem key (a ∷ b ∷ c ∷ d ∷ history) n h = absurd (omega arith)

-- The third of three equal actions in a row, at the latest, raises a signal.
record_key-thrice :
    (key : String) (history : List String) (n : ℕ)
    → length history ≤ 3
    → is_some (record_key key (record { action_history = history; reflection_strike = n })).0 ≡ true
      ⊎ is_some
          (record_key key
            (record_key key (record { action_history = history; reflection_strike = n })).1).0
        ≡ true
      ⊎ is_some
          (record_key key
            (record_key key
              (record_key key (record { action_history = history; reflection_strike = n })).1).1).0
        ≡ true
unfolding record_key strike
record_key-thrice key [] n h = ground (arith, eq_iff key key)
record_key-thrice key (a ∷ []) n h = ground (arith, eq_iff key key)
record_key-thrice key (a ∷ b ∷ []) n h = ground (arith, eq_iff key key)
record_key-thrice key (a ∷ b ∷ c ∷ []) n h = ground (arith, eq_iff key key)
record_key-thrice key (a ∷ b ∷ c ∷ d ∷ history) n h = absurd (omega arith)

record_actions-IsBounded :
    (actions : List Action) (guard : ExecutionGuardState)
    → IsBounded guard
    → IsBounded (record_actions actions guard).1
unfolding record_actions record_action_outcome
record_actions-IsBounded [] guard h = h
record_actions-IsBounded (a ∷ actions) guard h =
    record_actions-IsBounded actions (record_key (key_of a) guard).1
      (record_key_lem (key_of a) guard.action_history guard.reflection_strike h).0

-- After any run of actions, an action raises a signal exactly if the last two actions of the history,
-- which begins anew at a signal, were that same action; and an action that is done three times in a
-- row raises one on the way.
pub record_actions-notices :
    (actions : List Action) (name args : String) (is_error : Bool)
    → (is_some (record_action_outcome name args is_error (record_actions actions new_guard).1).0
        ≡ ends_twice
            (action_key name args is_error)
            (record_actions actions new_guard).1.action_history)
      × (is_some (record_action_outcome name args is_error (record_actions actions new_guard).1).0
            ≡ true
          ⊎ is_some
              (record_action_outcome name args is_error
                (record_action_outcome name args is_error (record_actions actions new_guard).1).1).0
            ≡ true
          ⊎ is_some
              (record_action_outcome name args is_error
                (record_action_outcome name args is_error
                  (record_action_outcome name args is_error
                    (record_actions actions new_guard).1).1).1).0
            ≡ true)
unfolding record_action_outcome
record_actions-notices actions name args is_error =
    let guard = (record_actions actions new_guard).1 in
    let key = action_key name args is_error in
    let bounded = record_actions-IsBounded actions new_guard (omega arith) in
    (
      (record_key_lem key guard.action_history guard.reflection_strike bounded).1,
      record_key-thrice key guard.action_history guard.reflection_strike bounded,
    )

-- One action gives the next signal of the row, or none and leaves the strikes.
record_key-strike :
    (key : String) (guard : ExecutionGuardState) (n : ℕ)
    → guard.reflection_strike ≡ n % 256
    → (((record_key key guard).0 ≡ none) × ((record_key key guard).1.reflection_strike ≡ n % 256))
      ⊎ (((record_key key guard).0 ≡ some (next_signal n))
          × ((record_key key guard).1.reflection_strike ≡ (n + 1) % 256))
unfolding record_key strike
record_key-strike key guard n e =
    let next : (guard.reflection_strike + 1) % 256 ≡ (n + 1) % 256 = omega (arith, e) in
    elim (Bool-cases (is_stuck key (remember key guard.action_history))) [
      | inr free ↦ inl (rw (free, record_key) refl, rw (free, record_key) e)
      | inl stuck ↦
          inr (rw (stuck, record_key, strike) (rw next refl), rw (stuck, record_key, strike) next)
    ]

record_actions_row :
    (actions : List Action) (guard : ExecutionGuardState) (n : ℕ)
    → guard.reflection_strike ≡ n % 256
    → ((record_actions actions guard).0 ≡ signals_from n (length (record_actions actions guard).0))
      × ((record_actions actions guard).1.reflection_strike
          ≡ (n + length (record_actions actions guard).0) % 256)
unfolding record_actions record_action_outcome
record_actions_row [] guard n e = (refl, omega (arith, e))
record_actions_row (a ∷ actions) guard n e =
    let guard' = (record_key (key_of a) guard).1 in
    elim (record_key-strike (key_of a) guard n e) [
      | inl (quiet, same) ↦
          let (row, strikes) = record_actions_row actions guard' n same in rw quiet (row, strikes)
      | inr (loud, more) ↦
          let (row, strikes) = record_actions_row actions guard' (n + 1) more in
          rw loud (ap (λ l. next_signal n ∷ l) row, omega (arith, strikes))
    ]

-- Over any run of actions from a new guard, the first signal is a warning and all that follow, up
-- to the 255th, are a meltdown; the strikes count the signals, modulo 256, where a warning comes
-- again.
pub record_actions_signals :
    (actions : List Action)
    → ((record_actions actions new_guard).0
        ≡ signals_from 0 (length (record_actions actions new_guard).0))
      × ((record_actions actions new_guard).1.reflection_strike
          ≡ length (record_actions actions new_guard).0 % 256)
record_actions_signals actions =
    let (row, strikes) = record_actions_row actions new_guard 0 refl in
    (row, omega (arith, strikes))
