-- ===== src/Tools/Envelope.antt =====
-- src/tools/protocol.rs: what a tool returns, as the context reads it. The envelope's JSON text is
-- serde_json's.
use rust_claw_oc.Prelude.{
  ℕ, ◌^◌, ◌-◌, min, String, Bool, true, false, Option, none, some, List, is_blank, if◌then◌else◌,
}
use rust_claw_oc.Security.{Patterns, fence_untrusted, fence_verbatim}

pub record UserPromptRequest : Type 0 where
  pub question : String
  pub context_key : String
  pub options : List String
  pub recommendation : Option String

-- An `i32`.
pub data ℤ : Type 0 where
  pos : ℕ → ℤ
  -- `negsuc n` is -(n + 1)
  negsuc : ℕ → ℤ

pub record ToolResultData : Type 0 where
  pub ok : Bool
  pub tool_name : String
  pub output : String
  pub exit_code : Option ℤ
  pub duration_ms : Option ℕ
  pub truncated : Bool

pub data ToolOutputSecurity : Type 0 where
  untrusted verbatim : ToolOutputSecurity

pub record ToolEffects : Type 0 where
  pub recovery_attempted : Bool
  pub recovery_output : Option String
  pub recovery_rule : Option String
  pub file_path : Option String
  pub evidence_kind : Option String
  pub evidence_source_path : Option String
  pub evidence_summary : Option String
  pub payload_kind : Option String
  pub output_security : Option ToolOutputSecurity
  pub output_source : Option String
  pub invalidate_diagnostic_evidence : Bool
  pub await_user : Option UserPromptRequest

abbrev pub default_effects : ToolEffects
default_effects = record {
  recovery_attempted = false;
  recovery_output = none;
  recovery_rule = none;
  file_path = none;
  evidence_kind = none;
  evidence_source_path = none;
  evidence_summary = none;
  payload_kind = none;
  output_security = none;
  output_source = none;
  invalidate_diagnostic_evidence = false;
  await_user = none;
}

-- `StructuredToolOutput` has the same two fields.
pub record ToolExecutionEnvelope : Type 0 where
  pub result : ToolResultData
  pub effects : ToolEffects

-- `StructuredToolOutput::new`; the duration is a `u128` cut to a `u64`.
unfoldable pub new_output :
    String → Bool → String → Option ℤ → Option ℕ → Bool → ToolExecutionEnvelope
new_output tool_name ok output exit_code duration_ms truncated = record {
  result = record {
    ok = ok;
    tool_name = tool_name;
    output = output;
    exit_code = exit_code;
    duration_ms = elim duration_ms [ none ↦ none | some ms ↦ some (min ms (2 ^ 64 - 1)) ];
    truncated = truncated;
  };
  effects = default_effects;
}

abbrev pub with_file_path : String → ToolExecutionEnvelope → ToolExecutionEnvelope
with_file_path path envelope = record envelope {
  effects = record envelope.effects { file_path = some path };
}

abbrev pub with_evidence : String → String → String → ToolExecutionEnvelope → ToolExecutionEnvelope
with_evidence kind source_path summary envelope = record envelope {
  effects = record envelope.effects {
    evidence_kind = some kind;
    evidence_source_path = some source_path;
    evidence_summary = some summary;
  };
}

abbrev pub with_invalidated_diagnostics : ToolExecutionEnvelope → ToolExecutionEnvelope
with_invalidated_diagnostics envelope = record envelope {
  effects = record envelope.effects { invalidate_diagnostic_evidence = true };
}

abbrev pub with_payload_kind : String → ToolExecutionEnvelope → ToolExecutionEnvelope
with_payload_kind kind envelope = record envelope {
  effects = record envelope.effects { payload_kind = some kind };
}

abbrev with_security : ToolOutputSecurity → String → ToolExecutionEnvelope → ToolExecutionEnvelope
with_security security source envelope = record envelope {
  effects = record envelope.effects {
    output_security = some security;
    output_source = some source;
  };
}

unfoldable pub with_untrusted_output : String → ToolExecutionEnvelope → ToolExecutionEnvelope
with_untrusted_output source envelope = with_security untrusted source envelope

unfoldable pub mark_untrusted : ToolExecutionEnvelope → ToolExecutionEnvelope
unfolding with_untrusted_output
mark_untrusted envelope = with_untrusted_output envelope.result.tool_name envelope

unfoldable pub with_verbatim_output : String → ToolExecutionEnvelope → ToolExecutionEnvelope
with_verbatim_output source envelope = with_security verbatim source envelope

unfoldable pub mark_verbatim : ToolExecutionEnvelope → ToolExecutionEnvelope
unfolding with_verbatim_output
mark_verbatim envelope = with_verbatim_output envelope.result.tool_name envelope

abbrev pub with_await_user : UserPromptRequest → ToolExecutionEnvelope → ToolExecutionEnvelope
with_await_user request envelope = record envelope {
  effects = record envelope.effects { await_user = some request };
}

abbrev named : String → String
named tool_name = if is_blank tool_name then "tool" else tool_name

-- The source that a fence names: `output_source` if it is not blank, else the tool.
abbrev source_of : Option String → String → String
source_of none tool_name = named tool_name
source_of (some source) tool_name = if is_blank source then named tool_name else source

module _ (patterns : Patterns) where
  abbrev fence : Option ToolOutputSecurity → String → String → String
  fence none source output = output
  fence (some untrusted) source output = fence_untrusted patterns source output
  fence (some verbatim) source output = fence_verbatim patterns source output

  unfoldable pub into_llm_context : ToolExecutionEnvelope → ToolExecutionEnvelope
  into_llm_context envelope = record envelope {
    result = record envelope.result {
      output =
          fence envelope.effects.output_security
            (source_of envelope.effects.output_source envelope.result.tool_name)
            envelope.result.output;
    };
  }
