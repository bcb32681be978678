-- ===== src/Subagent/Toolset.antt =====
-- The tools of a sub-agent (src/session/factory.rs, `filter_subagent_tools`).
use rust_claw_oc.Prelude.{
  ◌≡◌, refl, ◌&&◌, ◌||◌, not, Bool, String, List, [], ◌∷◌, keep, str_eq, if◌then◌else◌, arith,
}
use rust_claw_oc.Skills.Policy.{canonicalize_tools, can_call_with_allowed_names}
use rust_claw_oc.Skills.Policy.Visible.{is_listed, can_call_with_allowed_names_lem}

-- May a sub-agent have a tool of this name?
abbrev pub is_granted : List String → Bool → Bool → String → Bool
is_granted names restrict_to_allowed_tools allow_subagent_tool tool_name =
    not (str_eq tool_name "ask_user_question")
    && (not (str_eq tool_name "subagent") || allow_subagent_tool)
    && (not restrict_to_allowed_tools || is_listed names tool_name)

module _ {T : Type 0} where
  accepted_tools : List String → Bool → Bool → List (String × T) → List (String × T)
  accepted_tools allowed restrict_to_allowed_tools allow_subagent_tool [] = []
  accepted_tools allowed restrict_to_allowed_tools allow_subagent_tool (tool ∷ tools) =
      let accepted = accepted_tools allowed restrict_to_allowed_tools allow_subagent_tool tools in
      if str_eq tool.0 "ask_user_question"
      then accepted
      else if str_eq tool.0 "subagent" && not allow_subagent_tool
      then accepted
      else if not restrict_to_allowed_tools || can_call_with_allowed_names allowed tool.0
      then tool ∷ accepted
      else accepted

  unfoldable pub filter_subagent_tools :
      List (String × T) → List String → Bool → Bool → List (String × T)
  unfolding accepted_tools
  filter_subagent_tools base_tools allowed restrict_to_allowed_tools allow_subagent_tool =
      accepted_tools (canonicalize_tools allowed) restrict_to_allowed_tools allow_subagent_tool
        base_tools

  -- A sub-agent never has the tool that asks the user, has the tool `subagent` only if that is
  -- granted, and if it is restricted to the allowed names, has only the plan of the task, each tool
  -- whose name is the canonical name of one of them, and `wait` if `exec` is the canonical name of
  -- one. It has all other tools, in their order.
  filter_subagent_tools_lem :
      (names : List String) (restrict allow : Bool) (tools : List (String × T))
      → filter_subagent_tools tools names restrict allow
        ≡ keep (λ tool. is_granted names restrict allow tool.0) tools
  unfolding filter_subagent_tools accepted_tools
  filter_subagent_tools_lem names restrict allow [] = refl
  filter_subagent_tools_lem names restrict allow (tool ∷ tools) =
      let known = can_call_with_allowed_names_lem names tool.0 in
      let rest = filter_subagent_tools_lem names restrict allow tools in
      rw (known, rest) (ground arith)
