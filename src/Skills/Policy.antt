-- ===== src/Skills/Policy.antt =====
-- `SkillToolPolicy` of src/skills/policy.rs. A tool is anything with a name: the name is the first
-- component of a pair.
pub mod Visible
mod Tests
use rust_claw_oc.Prelude.{
  Bool, true, false, ◌&&◌, ◌||◌, String, List, [], ◌∷◌, any, is_empty, keep, push, unwrap_or,
  if◌then◌else◌, str_eq,
}
use rust_claw_oc.Prelude.Dict.{Dict, lookup}
use rust_claw_oc.Skills.Definition.{SkillDef}

-- `Vec::contains`
abbrev pub contains : List String → String → Bool
contains xs x = any (λ y. str_eq y x) xs

unfoldable pub name_map : Dict String
name_map =
    ("Bash", "execute_bash")
    ∷ ("Read", "read_file")
    ∷ ("Write", "write_file")
    ∷ ("Edit", "patch_file")
    ∷ ("WebSearch", "web_search")
    ∷ ("AskUser", "ask_user_question")
    ∷ ("ask_user", "ask_user_question")
    ∷ ("AskUserQuestion", "ask_user_question")
    ∷ ("subagent", "subagent")
    ∷ ("call_skill", "subagent")
    ∷ ("spawn_subagent", "subagent")
    ∷ ("get_subagent_result", "subagent")
    ∷ ("cancel_subagent", "subagent")
    ∷ ("list_subagent_jobs", "subagent")
    ∷ []

unfoldable pub canonical_name : String → String
unfolding name_map
canonical_name name = unwrap_or (lookup name name_map) name

canonicalize_from : List String → List String → List String
unfolding canonical_name
canonicalize_from canonical [] = canonical
canonicalize_from canonical (tool ∷ tools) =
    canonicalize_from
      (if contains canonical (canonical_name tool)
        then canonical
        else push canonical (canonical_name tool))
      tools

unfoldable pub canonicalize_tools : List String → List String
unfolding canonicalize_from
canonicalize_tools tools = canonicalize_from [] tools

abbrev pub runtime_tools : List String
runtime_tools = "task_plan" ∷ []

abbrev pub is_runtime_tool : String → Bool
is_runtime_tool tool_name = contains runtime_tools tool_name

unfoldable pub can_call_with_allowed_names : List String → String → Bool
can_call_with_allowed_names allowed tool_name =
    is_runtime_tool tool_name
    || contains allowed tool_name
    || (str_eq tool_name "wait" && any (λ name. str_eq name "exec") allowed)

module _ {T : Type 0} where
  unfoldable pub filter_tools_by_allowed_names : List (String × T) → List String → List (String × T)
  unfolding can_call_with_allowed_names
  filter_tools_by_allowed_names base_tools allowed =
      if is_empty allowed
      then base_tools
      else keep (λ tool. can_call_with_allowed_names allowed tool.0) base_tools

module _ {T V : Type 0} where
  unfoldable pub filter_tools : List (String × T) → SkillDef V → List (String × T)
  unfolding canonicalize_tools filter_tools_by_allowed_names
  filter_tools base_tools skill =
      if is_empty skill.meta.allowed_tools
      then base_tools
      else filter_tools_by_allowed_names base_tools (canonicalize_tools skill.meta.allowed_tools)

module _ {V : Type 0} where
  unfoldable pub can_call : String → SkillDef V → Bool
  unfolding canonicalize_tools can_call_with_allowed_names
  can_call tool_name skill =
      if is_empty skill.meta.allowed_tools
      then true
      else can_call_with_allowed_names (canonicalize_tools skill.meta.allowed_tools) tool_name
