-- ===== src/Skills/Activation/Delegation.antt =====
-- Chains of delegated skills (src/skills/runtime.rs, `activate_skill`).
use rust_claw_oc.Prelude.{
  ◌≡◌, ◌∙◌, refl, sym, ap, ℕ, ◌≤◌, false, ◌&&◌, String, Option, none, some, is_some, or_some,
  unwrap_or, List, [], ◌∷◌, map, any, push, Result, Result-cases, inl, inr, ok, err, arith, str_eq,
  ltb,
}
use mathlib.Core.Path.{subst}
use mathlib.Core.List.{map-append}
use rust_claw_oc.CallChain.{
  CallChainContext, CallChainFrame, CallChainSeed, new_root, append_frame, contains_skill,
  current_depth, lineage_names,
}
use rust_claw_oc.Skills.Definition.{SkillDef}
use rust_claw_oc.Skills.Arguments.{Values, validate_json_args, display}
use rust_claw_oc.Skills.Policy.{contains}
use rust_claw_oc.Skills.Policy.Visible.{Distinct, push-Distinct}
use rust_claw_oc.Skills.Activation.{
  SkillInvocation, check_chain, activate_in, activate_skill, parent_context, printed,
  is_interactive, invocation_of,
}

-- No skill stands twice in the lineage, and it is at most three deep.
abbrev pub IsSound : CallChainContext → Type 0
IsSound c = Distinct (lineage_names c) × (current_depth c ≤ 3)

contains-names :
    (fs : List CallChainFrame) (name : String)
    → any (λ f. str_eq f.skill_name name) fs ≡ contains (map (λ f. f.skill_name) fs) name
contains-names [] name = refl
contains-names (f ∷ fs) name = ground (arith, contains-names fs name)

check_chain-ok :
    (digest : String → String) (uuid name : String) (args : Option String)
    (parent c : CallChainContext)
    → check_chain digest uuid name args parent ≡ ok c
    → (contains_skill parent name ≡ false)
      × (ltb 3 (current_depth (append_frame digest uuid name args parent)) ≡ false)
      × (c ≡ append_frame digest uuid name args parent)
unfolding check_chain
check_chain-ok digest uuid name args parent c h = ground arith

append_frame_names :
    (digest : String → String) (uuid name : String) (args : Option String)
    (parent : CallChainContext)
    → lineage_names (append_frame digest uuid name args parent) ≡ push (lineage_names parent) name
unfolding append_frame lineage_names
append_frame_names digest uuid name args parent = map-append (λ f. f.skill_name) parent.lineage _

activate_in-ok :
    {V : Type 0} (def : SkillDef V) (raw_args : Option String) (json_args : Option V)
    (seed : CallChainSeed) (chain : Result String CallChainContext) (inv : SkillInvocation V)
    → activate_in def raw_args json_args seed chain ≡ ok inv
    → (chain ≡ ok inv.call_chain_context)
      × (is_some seed.inherited_context && is_interactive inv.allowed_tools ≡ false)
unfolding activate_in invocation_of
activate_in-ok def raw_args json_args seed (err e) inv h = ground arith
activate_in-ok def raw_args json_args seed (ok c) inv h = ground arith

check_chain-IsSound :
    (digest : String → String) (uuid name : String) (args : Option String)
    (parent c : CallChainContext)
    → Distinct (lineage_names parent)
    → check_chain digest uuid name args parent ≡ ok c
    → IsSound c
unfolding lineage_names contains_skill
check_chain-IsSound digest uuid name args parent c apart h =
    let (new, shallow, same) = check_chain-ok digest uuid name args parent c h in
    subst IsSound (sym same) (
      subst Distinct (sym (append_frame_names digest uuid name args parent)) (
          push-Distinct (lineage_names parent) name (sym (contains-names parent.lineage name) ∙ new)
            apart),
      ground arith,
    )

module _ {V : Type 0} (digest : String → String) (json : Values V) where
  -- The contexts of the skills that run: one that a top-level activation made, or one that a run with a
  -- context of this kind activated, which it inherits.
  pub data IsReached : CallChainContext → Type 0 where
    at_top :
        (uuid : String) (counter : ℕ) (session_id : String) (seed : CallChainSeed)
        (def : SkillDef V) (raw_args : Option String) (json_args : Option V)
        (inv : SkillInvocation V)
        → seed.inherited_context ≡ none
        → activate_skill digest json uuid counter session_id seed def raw_args json_args ≡ ok inv
        → IsReached inv.call_chain_context
    delegated :
        (uuid : String) (counter : ℕ) (session_id : String) (seed : CallChainSeed)
        (def : SkillDef V) (raw_args : Option String) (json_args : Option V)
        (inv : SkillInvocation V) (parent : CallChainContext)
        → IsReached parent
        → seed.inherited_context ≡ some parent
        → activate_skill digest json uuid counter session_id seed def raw_args json_args ≡ ok inv
        → IsReached inv.call_chain_context

pub activate_skill-ok :
    {V : Type 0} (digest : String → String) (json : Values V) (uuid : String) (counter : ℕ)
    (session_id : String) (seed : CallChainSeed) (def : SkillDef V) (raw_args : Option String)
    (json_args : Option V) (inv : SkillInvocation V)
    → activate_skill digest json uuid counter session_id seed def raw_args json_args ≡ ok inv
    → activate_in def raw_args json_args seed (
        check_chain digest uuid def.meta.name
          (or_some (printed json.to_string json_args) raw_args)
          (parent_context counter session_id seed))
      ≡ ok inv
unfolding activate_skill
activate_skill-ok digest json uuid counter session_id seed def raw_args none inv h = h
activate_skill-ok digest json uuid counter session_id seed def raw_args (some v) inv h =
    elim (Result-cases (validate_json_args json def.parameters v)) [
      | inl (e, bad) ↦
          let refused : err (display e)
              ≡ activate_skill digest json uuid counter session_id seed def raw_args (some v) =
            rw (activate_skill, bad) refl in
          absurd (ground (arith, refused ∙ h))
      | inr (u, good) ↦
          let run : activate_in def raw_args (some v) seed (
                check_chain digest uuid def.meta.name (some (json.to_string v))
                  (parent_context counter session_id seed))
              ≡ activate_skill digest json uuid counter session_id seed def raw_args (some v) =
            rw (activate_skill, good) refl in
          run ∙ h
    ]

activate_skill-IsSound :
    {V : Type 0} (digest : String → String) (json : Values V) (uuid : String) (counter : ℕ)
    (session_id : String) (seed : CallChainSeed) (def : SkillDef V) (raw_args : Option String)
    (json_args : Option V) (inv : SkillInvocation V) (parent : CallChainContext)
    → parent_context counter session_id seed ≡ parent
    → Distinct (lineage_names parent)
    → activate_skill digest json uuid counter session_id seed def raw_args json_args ≡ ok inv
    → IsSound inv.call_chain_context
      × (is_some seed.inherited_context && is_interactive inv.allowed_tools ≡ false)
unfolding activate_skill
activate_skill-IsSound digest json uuid counter session_id seed def raw_args json_args inv parent
      from apart h =
    let args = or_some (printed json.to_string json_args) raw_args in
    let (chain, quiet) =
      activate_in-ok def raw_args json_args seed
        (check_chain digest uuid def.meta.name args (parent_context counter session_id seed)) inv
        (activate_skill-ok digest json uuid counter session_id seed def raw_args json_args inv h) in
    (
      check_chain-IsSound digest uuid def.meta.name args (parent_context counter session_id seed)
          inv.call_chain_context (subst (λ p. Distinct (lineage_names p)) (sym from) apart) chain,
      quiet,
    )

-- However skills activate each other, from a top level on: no skill runs inside itself, and the chain
-- of skills is at most three deep.
pub IsReached-IsSound :
    {V : Type 0} (digest : String → String) (json : Values V) (c : CallChainContext)
    → IsReached digest json c
    → IsSound c
unfolding new_root lineage_names
IsReached-IsSound digest json c
      (at_top uuid counter session_id seed def raw_args json_args inv top h) =
    (activate_skill-IsSound digest json uuid counter session_id seed def raw_args json_args inv
      (new_root counter session_id) (ap (λ o. unwrap_or o (new_root counter session_id)) top) tt
      h).0
IsReached-IsSound digest json c
      (delegated uuid counter session_id seed def raw_args json_args inv parent before from h) =
    (activate_skill-IsSound digest json uuid counter session_id seed def raw_args json_args inv
      parent (ap (λ o. unwrap_or o (new_root counter session_id)) from)
      (IsReached-IsSound digest json parent before).0 h).0
