-- ===== src/Context.antt =====
-- src/context/model.rs and token.rs: the conversation, and what a message costs. JSON values and
-- the tokenizer are those of serde_json and tiktoken_rs: the fields of `Crates`.
pub mod Sanitize
pub mod Clean
pub mod Shorten
pub mod Rebuild
pub mod Budget
pub mod History
pub mod Compact
pub mod Current
pub mod Transcript
pub mod TaskState
pub mod Evidence
pub mod Assembler
pub mod Prompt
mod Tests
use rust_claw_oc.Prelude.{
  ℕ, ◌+◌, String, Bool, Option, none, some, List, [], ◌∷◌, leb, if◌then◌else◌, char_count,
  take_chars,
}
use rust_claw_oc.Security.{Patterns}
use rust_claw_oc.Tools.Envelope.{ℤ, ToolExecutionEnvelope}

-- The operations of the crates on a JSON value `V`, a text or an envelope.
pub record Crates (V : Type 0) : Type 0 where
  pub to_string : V → String
  pub is_object : V → Bool
  -- `Value::get` and `obj.get`: nothing of a value that is no object
  pub get : V → String → Option V
  pub as_str : V → Option String
  pub as_bool : V → Option Bool
  pub as_i64 : V → Option ℤ
  -- `json!({ … })`
  pub object : List (String × V) → V
  pub string : String → V
  pub number : ℕ → V
  -- `obj.insert`, and an assignment through `obj.get_mut`
  pub insert : String → V → V → V
  pub remove : String → V → V
  -- `from_str`, `to_value` and `to_string` at the envelope
  pub read_envelope : String → Option ToolExecutionEnvelope
  pub envelope_value : ToolExecutionEnvelope → Option V
  pub write_envelope : ToolExecutionEnvelope → Option String
  -- `encode_with_special_tokens(text).len()`
  pub encode : String → ℕ
  pub patterns : Patterns

pub record FunctionCall (V : Type 0) : Type 0 where
  pub name : String
  pub args : V
  pub id : Option String

pub record FileData : Type 0 where
  pub mime_type : String
  pub file_uri : String

pub record FunctionResponse (V : Type 0) : Type 0 where
  pub name : String
  pub response : V
  pub id : Option String

pub record Part (V : Type 0) : Type 0 where
  pub text : Option String
  pub function_call : Option (FunctionCall V)
  pub function_response : Option (FunctionResponse V)
  pub thought_signature : Option String
  pub file_data : Option FileData

pub record Message (V : Type 0) : Type 0 where
  pub role : String
  pub parts : List (Part V)

pub record Turn (V : Type 0) : Type 0 where
  pub turn_id : String
  pub user_message : String
  pub messages : List (Message V)

abbrev pub truncate_chars : String → ℕ → String
truncate_chars input max_chars =
    if leb (char_count input) max_chars then input else take_chars max_chars input

module _ {V : Type 0} where
  abbrev pub no_part : Part V
  no_part = record {
    text = none;
    function_call = none;
    function_response = none;
    thought_signature = none;
    file_data = none;
  }

  abbrev pub text_part : String → Part V
  text_part text = record no_part { text = some text }

  -- A message of one text.
  abbrev pub text_message : String → String → Message V
  text_message role text = record { role = role; parts = text_part text ∷ [] }

module _ {V : Type 0} (crates : Crates V) where
  abbrev text_tokens : Option String → ℕ
  text_tokens none = 0
  text_tokens (some text) = crates.encode text

  abbrev call_tokens : Option (FunctionCall V) → ℕ
  call_tokens none = 0
  call_tokens (some fc) = crates.encode fc.name + crates.encode (crates.to_string fc.args)

  abbrev response_tokens : Option (FunctionResponse V) → ℕ
  response_tokens none = 0
  response_tokens (some fr) = crates.encode fr.name + crates.encode (crates.to_string fr.response)

  part_tokens : List (Part V) → ℕ
  part_tokens [] = 0
  part_tokens (p ∷ ps) =
      text_tokens p.text
      + call_tokens p.function_call
      + response_tokens p.function_response
      + part_tokens ps

  unfoldable pub estimate_tokens : Message V → ℕ
  unfolding part_tokens
  estimate_tokens msg = part_tokens msg.parts

  -- `messages.iter().map(estimate_tokens).sum()`
  unfoldable pub sum_tokens : List (Message V) → ℕ
  sum_tokens [] = 0
  sum_tokens (m ∷ ms) = estimate_tokens m + sum_tokens ms

  unfoldable pub turn_token_estimate : Turn V → ℕ
  turn_token_estimate turn = sum_tokens turn.messages

  unfoldable pub turns_token_estimate : List (Turn V) → ℕ
  turns_token_estimate [] = 0
  turns_token_estimate (t ∷ ts) = turn_token_estimate t + turns_token_estimate ts
