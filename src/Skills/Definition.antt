-- ===== src/Skills/Definition.antt =====
-- What a skill is (src/skills/definition.rs). JSON values are a type parameter.
use rust_claw_oc.Prelude.{String, Bool, Option, List}

pub data SkillTrigger : Type 0 where
  manual_only suggest_only manual_or_suggested : SkillTrigger

pub data OutputMode : Type 0 where
  freeform design_doc_only review_only : OutputMode

pub data ArtifactKind : Type 0 where
  design_doc review_report : ArtifactKind

pub record SkillMeta : Type 0 where
  pub name : String
  pub version : String
  pub description : String
  pub trigger : SkillTrigger
  pub allowed_tools : List String
  pub output_mode : Option OutputMode

pub record SkillConstraints : Type 0 where
  pub forbid_code_write : Bool
  pub required_artifact_kind : Option ArtifactKind

pub record SkillDef (V : Type 0) : Type 0 where
  pub meta : SkillMeta
  pub instructions : String
  pub parameters : Option V
  pub constraints : SkillConstraints
