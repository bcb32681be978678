-- ===== src/CallChain.antt =====
-- Nested skill calls (src/call_chain.rs): the lineage of a call, and the limits of a delegated run.
-- A context shares its counter of calls with the contexts that come from it: the counter is a
-- reference, and `counters` holds its value.
pub mod Lineage
pub mod Limits
mod Tests
use rust_claw_oc.Prelude.{
  ℕ, ◌+◌, ◌/◌, min, max, Bool, String, Option, none, some, List, [], ◌∷◌, map, any, push, last,
  length, concat, unwrap_or, is_blank, trim, str_eq, if◌then◌else◌,
}

abbrev pub max_call_chain_calls_per_root_request : ℕ
max_call_chain_calls_per_root_request = 6

abbrev pub max_call_chain_depth : ℕ
max_call_chain_depth = 3

pub record CallChainFrame : Type 0 where
  pub skill_name : String
  pub call_id : String
  pub parent_call_id : Option String
  pub depth : ℕ
  pub args_digest : Option String

pub record CallChainContext : Type 0 where
  pub lineage : List CallChainFrame
  pub total_calls : ℕ
  pub root_session_id : String

pub record CallChainBudget : Type 0 where
  pub remaining_steps : Option ℕ
  pub remaining_timeout_sec : Option ℕ

pub record CallChainSeed : Type 0 where
  pub inherited_context : Option CallChainContext
  pub inherited_budget : CallChainBudget
  pub handoff_context : Option String

unfoldable pub new_root : ℕ → String → CallChainContext
new_root counter root_session_id = record {
  lineage = [];
  total_calls = counter;
  root_session_id = root_session_id;
}

unfoldable pub lineage_names : CallChainContext → List String
lineage_names c = map (λ f. f.skill_name) c.lineage

unfoldable pub contains_skill : CallChainContext → String → Bool
contains_skill c skill_name = any (λ f. str_eq f.skill_name skill_name) c.lineage

unfoldable pub current_depth : CallChainContext → ℕ
current_depth c = length c.lineage

unfoldable pub total_calls_used : (ℕ → ℕ) → CallChainContext → ℕ
total_calls_used counters c = counters c.total_calls

-- `option.map(f)`
abbrev map_option : {A : Type 0} {B : Type 0} → (A → B) → Option A → Option B
map_option f none = none
map_option f (some a) = some (f a)

-- `uuid` is the text of the new UUID, and `digest` the printed hash of the arguments.
unfoldable pub append_frame :
    (String → String) → String → String → Option String → CallChainContext → CallChainContext
append_frame digest uuid skill_name args c = record c {
  lineage = push c.lineage (record {
    skill_name = skill_name;
    call_id = concat ("call_" ∷ uuid ∷ []);
    parent_call_id = map_option (λ f. f.call_id) (last c.lineage);
    depth = length c.lineage + 1;
    args_digest = map_option digest args;
  });
}

effective_max_steps : Option ℕ → Option ℕ → ℕ → ℕ
effective_max_steps none requested default_max_steps = max (unwrap_or requested default_max_steps) 1
effective_max_steps (some remaining) requested default_max_steps =
    let parent_remaining_steps = max remaining 1 in
    min (max (unwrap_or requested parent_remaining_steps) 1) (max (parent_remaining_steps / 2) 1)

effective_timeout_sec : Option ℕ → Option ℕ → ℕ → ℕ
effective_timeout_sec none requested default_timeout_sec =
    max (unwrap_or requested default_timeout_sec) 1
effective_timeout_sec (some remaining) requested default_timeout_sec =
    min (max (unwrap_or requested default_timeout_sec) 1) (max remaining 1)

unfoldable pub effective_limits : CallChainBudget → Option ℕ → Option ℕ → ℕ → ℕ → ℕ × ℕ
unfolding effective_max_steps effective_timeout_sec
effective_limits budget requested_max_steps requested_timeout_sec default_max_steps
      default_timeout_sec =
    (
      effective_max_steps budget.remaining_steps requested_max_steps default_max_steps,
      effective_timeout_sec budget.remaining_timeout_sec requested_timeout_sec default_timeout_sec,
    )

-- The JSON arguments come printed.
unfoldable pub build_skill_activation_command : String → Option String → Option String → String
build_skill_activation_command skill_name raw_args (some json_args) =
    concat ("/" ∷ skill_name ∷ " " ∷ json_args ∷ [])
build_skill_activation_command skill_name (some raw_args) none =
    if is_blank raw_args
    then concat ("/" ∷ skill_name ∷ [])
    else concat ("/" ∷ skill_name ∷ " " ∷ trim raw_args ∷ [])
build_skill_activation_command skill_name none none = concat ("/" ∷ skill_name ∷ [])
