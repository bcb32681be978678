-- ===== src/Skills/Policy/Tests.antt =====
-- A skill that may read and ask (src/skills/policy.rs).
use rust_claw_oc.Prelude.{◌≡◌, refl, false, String, none, List, [], ◌∷◌, ℕ}
use rust_claw_oc.Skills.Definition.{SkillDef, manual_only}
use rust_claw_oc.Skills.Policy.{
  filter_tools, can_call, filter_tools_by_allowed_names, canonicalize_tools,
  can_call_with_allowed_names,
}
use rust_claw_oc.Prelude.Dict.{lookup}

abbrev asker : SkillDef ℕ
asker = record {
  meta = record {
    name = "ask";
    version = "1";
    description = "";
    trigger = manual_only;
    allowed_tools = "Read" ∷ "AskUser" ∷ "ask_user" ∷ [];
    output_mode = none;
  };
  instructions = "";
  parameters = none;
  constraints = record { forbid_code_write = false; required_artifact_kind = none };
}

abbrev tools : List (String × ℕ)
tools = ("read_file", 0) ∷ ("execute_bash", 1) ∷ ("task_plan", 2) ∷ []

seen_by_asker : filter_tools tools asker ≡ ("read_file", 0) ∷ ("task_plan", 2) ∷ []
unfolding filter_tools filter_tools_by_allowed_names canonicalize_tools lookup
seen_by_asker = refl

no_shell : can_call "execute_bash" asker ≡ false
unfolding can_call can_call_with_allowed_names canonicalize_tools lookup
no_shell = refl
