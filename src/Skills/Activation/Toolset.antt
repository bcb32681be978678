-- ===== src/Skills/Activation/Toolset.antt =====
-- The tools of a skill that runs (src/skills/runtime.rs).
use rust_claw_oc.Prelude.{
  ◌≡◌, ◌∙◌, refl, ap, ℕ, String, Option, some, List, is_empty, keep, Result, ok, err, arith, inl,
  inr, Bool-cases,
}
use rust_claw_oc.CallChain.{CallChainContext, CallChainSeed}
use rust_claw_oc.Skills.Definition.{SkillDef}
use rust_claw_oc.Skills.Arguments.{Values}
use rust_claw_oc.Skills.Policy.{canonicalize_tools, filter_tools_by_allowed_names}
use rust_claw_oc.Skills.Policy.Visible.{is_visible, filter_tools_by_allowed_names_lem}
use rust_claw_oc.Skills.Activation.{
  SkillInvocation, activate_in, activate_skill, invocation_of, before_tool_resolution,
}
use rust_claw_oc.Skills.Activation.Delegation.{activate_skill-ok}

activate_in-tools :
    {V : Type 0} (def : SkillDef V) (raw_args : Option String) (json_args : Option V)
    (seed : CallChainSeed) (chain : Result String CallChainContext) (inv : SkillInvocation V)
    → activate_in def raw_args json_args seed chain ≡ ok inv
    → inv.allowed_tools ≡ canonicalize_tools def.meta.allowed_tools
unfolding activate_in invocation_of
activate_in-tools def raw_args json_args seed (err e) inv h = absurd (ground (arith, h))
activate_in-tools def raw_args json_args seed (ok c) inv h = ground arith

before_tool_resolution_lem :
    {T V : Type 0} (inv : SkillInvocation V) (tools : List (String × T))
    → before_tool_resolution (some inv) tools
      ≡ filter_tools_by_allowed_names tools inv.allowed_tools
unfolding before_tool_resolution filter_tools_by_allowed_names
before_tool_resolution_lem inv tools = elim (Bool-cases (is_empty inv.allowed_tools)) [
  | inl free ↦ rw free refl
  | inr bound ↦ rw bound refl
]

-- A skill that was activated sees, of the tools that there are, exactly these, in their order: all, if
-- its definition allows no tool by name; else the plan of the task, each tool whose name is the
-- canonical name of an allowed name, and `wait` if `exec` is the canonical name of one.
pub before_tool_resolution-activate_skill :
    {T V : Type 0} (digest : String → String) (json : Values V) (uuid : String) (counter : ℕ)
    (session_id : String) (seed : CallChainSeed) (def : SkillDef V) (raw_args : Option String)
    (json_args : Option V) (inv : SkillInvocation V) (tools : List (String × T))
    → activate_skill digest json uuid counter session_id seed def raw_args json_args ≡ ok inv
    → before_tool_resolution (some inv) tools
      ≡ keep (λ tool. is_visible def.meta.allowed_tools tool.0) tools
before_tool_resolution-activate_skill digest json uuid counter session_id seed def raw_args
      json_args inv tools h =
    let run =
      activate_skill-ok digest json uuid counter session_id seed def raw_args json_args inv h in
    let named = activate_in-tools def raw_args json_args seed _ inv run in
    before_tool_resolution_lem inv tools
    ∙ ap (filter_tools_by_allowed_names tools) named
    ∙ filter_tools_by_allowed_names_lem tools def.meta.allowed_tools
