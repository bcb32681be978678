-- ===== src/Skills/Activation.antt =====
-- The activation of a skill (src/skills/runtime.rs, `activate_skill`; src/skills/state.rs).
pub mod Delegation
pub mod Toolset
mod Tests
use rust_claw_oc.Prelude.{
  is_empty, ℕ, Bool, true, false, ◌&&◌, String, Option, none, some, is_some, or_some, unwrap_or,
  List, [], ◌∷◌, ◌++◌, Result, ok, err, concat, join, if◌then◌else◌, ltb, is_blank,
}
use rust_claw_oc.Prelude.Decimal.{show}
use rust_claw_oc.CallChain.{
  CallChainContext, CallChainSeed, new_root, append_frame, contains_skill, current_depth,
  lineage_names, max_call_chain_depth,
}
use rust_claw_oc.Skills.Definition.{SkillDef}
use rust_claw_oc.Skills.Arguments.{Values, SkillArgumentError, display, validate_json_args}
use rust_claw_oc.Skills.Policy.{canonicalize_tools, contains, filter_tools_by_allowed_names}

pub data SkillInvocationState : Type 0 where
  running waiting_user : SkillInvocationState

pub record PendingInteraction : Type 0 where
  pub context_key : String
  pub question : String
  pub options : List String
  pub recommendation : Option String
  pub asked_at : String

pub record SkillInvocation (V : Type 0) : Type 0 where
  pub skill_name : String
  pub version : String
  pub instructions : String
  pub allowed_tools : List String
  pub raw_args : Option String
  pub json_args : Option V
  pub handoff_context : Option String
  pub pending_interaction : Option PendingInteraction
  pub state : SkillInvocationState
  pub call_chain_context : CallChainContext
  pub compatibility_notes : List String

abbrev note_if : Bool → String → List String
note_if true note = note ∷ []
note_if false note = []

-- `option.filter(|value| !value.trim().is_empty())`
abbrev nonblank : Option String → Option String
nonblank none = none
nonblank (some text) = if is_blank text then none else some text

-- `option.map(f)`
abbrev printed : {V : Type 0} → (V → String) → Option V → Option String
printed to_string none = none
printed to_string (some v) = some (to_string v)

-- The checks of the call chain: the context of the invocation, or why it is denied.
unfoldable pub check_chain :
    (String → String)
    → String
    → String
    → Option String
    → CallChainContext
    → Result String CallChainContext
check_chain digest uuid name args parent =
    let context = append_frame digest uuid name args parent in
    if contains_skill parent name
    then err (
        concat (
          "Denied delegated skill run: cycle detected: "
          ∷ join " -> " (lineage_names context)
          ∷ []))
    else if ltb max_call_chain_depth (current_depth context)
    then err (
        concat (
          "Denied delegated skill run: max call chain depth exceeded ("
          ∷ show max_call_chain_depth
          ∷ ")"
          ∷ []))
    else ok context

abbrev pub is_interactive : List String → Bool
is_interactive allowed_tools = contains allowed_tools "ask_user_question"

abbrev pub parent_context : ℕ → String → CallChainSeed → CallChainContext
parent_context counter session_id seed =
    unwrap_or seed.inherited_context (new_root counter session_id)

module _ {V : Type 0} where
  unfoldable pub compatibility_notes : SkillDef V → List String
  compatibility_notes def =
      note_if (is_some def.meta.output_mode)
        "Legacy `output_mode` is ignored at runtime; rely on instructions and a final text response."
      ++ (note_if def.constraints.forbid_code_write
            "Legacy `constraints.forbid_code_write` is ignored at runtime; use allowed_tools instead."
          ++ note_if (is_some def.constraints.required_artifact_kind)
              "Legacy `constraints.required_artifact_kind` is ignored at runtime; enforce outputs in instructions.")

  invocation_of :
      SkillDef V → Option String → Option V → CallChainSeed → CallChainContext → SkillInvocation V
  unfolding compatibility_notes canonicalize_tools
  invocation_of def raw_args json_args seed context = record {
    skill_name = def.meta.name;
    version = def.meta.version;
    instructions = def.instructions;
    allowed_tools = canonicalize_tools def.meta.allowed_tools;
    raw_args = raw_args;
    json_args = json_args;
    handoff_context = nonblank seed.handoff_context;
    pending_interaction = none;
    state = running;
    call_chain_context = context;
    compatibility_notes = compatibility_notes def;
  }

  pub activate_in :
      SkillDef V
      → Option String
      → Option V
      → CallChainSeed
      → Result String CallChainContext
      → Result String (SkillInvocation V)
  unfolding invocation_of
  activate_in def raw_args json_args seed (err e) = err e
  activate_in def raw_args json_args seed (ok context) =
      if is_some seed.inherited_context
        && is_interactive (canonicalize_tools def.meta.allowed_tools)
      then err (
          concat (
            "Denied delegated skill run: skill '" ∷ def.meta.name
            ∷ "' is interactive and can only run at the top level." ∷ []))
      else ok (invocation_of def raw_args json_args seed context)

  abbrev pub validated : Values V → SkillDef V → Option V → Result String (Unit {0})
  validated json def none = ok tt
  validated json def (some args) = elim (validate_json_args json def.parameters args) [
    | err e ↦ err (display e)
    | ok u ↦ ok u
  ]

  -- `counter` is the new counter of calls that a root context makes. The invocation that comes back is
  -- the one that the runtime stores.
  unfoldable pub activate_skill :
      (String → String)
      → Values V
      → String
      → ℕ
      → String
      → CallChainSeed
      → SkillDef V
      → Option String
      → Option V
      → Result String (SkillInvocation V)
  unfolding activate_in check_chain
  activate_skill digest json uuid counter session_id seed def raw_args json_args =
      elim (validated json def json_args) [
        | err e ↦ err e
        | ok u ↦ activate_in def raw_args json_args seed (
            check_chain digest uuid def.meta.name
              (or_some (printed json.to_string json_args) raw_args)
              (parent_context counter session_id seed))
      ]

module _ {T V : Type 0} where
  -- The tools that the model sees, `none` where no skill runs.
  unfoldable pub before_tool_resolution :
      Option (SkillInvocation V) → List (String × T) → List (String × T)
  before_tool_resolution none tools = tools
  before_tool_resolution (some invocation) tools =
      if is_empty invocation.allowed_tools
      then tools
      else filter_tools_by_allowed_names tools invocation.allowed_tools
