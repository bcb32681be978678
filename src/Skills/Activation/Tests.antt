-- ===== src/Skills/Activation/Tests.antt =====
-- A skill activated at the top level (src/skills/runtime.rs).
use rust_claw_oc.Prelude.{◌≡◌, refl, ℕ, true, false, none, some, List, [], ◌∷◌, ok, String, keep}
use rust_claw_oc.Prelude.Dict.{lookup}
use rust_claw_oc.CallChain.{
  CallChainContext, CallChainSeed, append_frame, new_root, contains_skill, current_depth,
}
use rust_claw_oc.Skills.Definition.{SkillDef, manual_only}
use rust_claw_oc.Skills.Arguments.{Values}
use rust_claw_oc.Skills.Policy.{canonicalize_tools, filter_tools_by_allowed_names}
use rust_claw_oc.Skills.Policy.Visible.{is_visible}
use rust_claw_oc.Skills.Activation.Toolset.{before_tool_resolution-activate_skill}
use rust_claw_oc.Skills.Activation.{
  SkillInvocation, running, compatibility_notes, activate_skill, activate_in, check_chain,
  invocation_of, before_tool_resolution,
}
use rust_claw_oc.Skills.Activation.Delegation.{IsReached, at_top, IsSound, IsReached-IsSound}

abbrev planner : SkillDef ℕ
planner = record {
  meta = record {
    name = "planner";
    version = "1";
    description = "";
    trigger = manual_only;
    allowed_tools = [];
    output_mode = none;
  };
  instructions = "plan";
  parameters = none;
  constraints = record { forbid_code_write = false; required_artifact_kind = none };
}

abbrev top : CallChainSeed
top = record {
  inherited_context = none;
  inherited_budget = record { remaining_steps = none; remaining_timeout_sec = none };
  handoff_context = none;
}

abbrev context : CallChainContext
context = append_frame (λ s. s) "1" "planner" none (new_root 0 "root")

abbrev invocation : SkillInvocation ℕ
invocation = record {
  skill_name = "planner";
  version = "1";
  instructions = "plan";
  allowed_tools = canonicalize_tools [];
  raw_args = none;
  json_args = none;
  handoff_context = none;
  pending_interaction = none;
  state = running;
  call_chain_context = context;
  compatibility_notes = compatibility_notes planner;
}

-- JSON values that are numbers.
abbrev json : Values ℕ
json = record {
  as_object = λ n. none;
  as_array = λ n. none;
  as_str = λ n. none;
  as_bool = λ n. none;
  is_integer = λ n. true;
  is_number = λ n. true;
  is_null = λ n. false;
  to_string = λ n. "";
  from_str = λ s. ok 0;
}

context-IsReached : IsReached (λ s. s) json context
unfolding activate_skill activate_in check_chain invocation_of append_frame new_root contains_skill
    current_depth
context-IsReached = at_top "1" 0 "root" top planner none none invocation refl refl

IsReached-IsSound_example : IsSound context
IsReached-IsSound_example = IsReached-IsSound (λ s. s) json context context-IsReached

abbrev reader : SkillDef ℕ
reader = record planner { meta = record planner.meta { allowed_tools = "Read" ∷ "exec" ∷ [] } }

abbrev reading : SkillInvocation ℕ
reading = record invocation {
  allowed_tools = canonicalize_tools ("Read" ∷ "exec" ∷ []);
  compatibility_notes = compatibility_notes reader;
}

abbrev tools : List (String × ℕ)
tools = ("read_file", 0) ∷ ("execute_bash", 1) ∷ ("wait", 2) ∷ ("task_plan", 3) ∷ []

seen_by_reader :
    before_tool_resolution (some reading) tools
    ≡ ("read_file", 0) ∷ ("wait", 2) ∷ ("task_plan", 3) ∷ []
unfolding before_tool_resolution filter_tools_by_allowed_names canonicalize_tools lookup
seen_by_reader = refl

before_tool_resolution-activate_skill_example :
    before_tool_resolution (some reading) tools
    ≡ keep (λ tool. is_visible ("Read" ∷ "exec" ∷ []) tool.0) tools
unfolding activate_skill activate_in check_chain invocation_of append_frame new_root contains_skill
    current_depth
before_tool_resolution-activate_skill_example =
    before_tool_resolution-activate_skill (λ s. s) json "1" 0 "root" top reader none none reading
      tools refl
