-- ===== src/Context/Clean.antt =====
-- src/context/history.rs, `sanitize_turn` and `prepare_turn_for_llm`: the messages of a turn that a
-- provider accepts.
pub mod Stable
use rust_claw_oc.Prelude.{
  String, Bool, false, not, ◌&&◌, ◌||◌, Option, none, some, is_some, List, [], ◌∷◌, map,
  if◌then◌else◌, str_eq, is_blank,
}
use rust_claw_oc.Context.{Crates, FunctionResponse, Part, Message, Turn, text_part}
use rust_claw_oc.Context.Sanitize.{prepare_function_response_for_llm}

abbrev pub has_text : Option String → Bool
has_text none = false
has_text (some text) = not (is_blank text)

abbrev pub is_unknown_role : String → Bool
is_unknown_role role =
    not (str_eq role "user") && not (str_eq role "model") && not (str_eq role "function")

module _ {V : Type 0} where
  abbrev pub has_content : Part V → Bool
  has_content part =
      has_text part.text || is_some part.function_call || is_some part.function_response

  -- A part of a message with the role `function` is its response.
  abbrev pub clean_part : String → Part V → Part V
  clean_part role part =
      if str_eq role "function" then record part { text = none; function_call = none } else part

  abbrev pub clean_parts : String → List (Part V) → List (Part V)
  clean_parts role [] = []
  clean_parts role (p ∷ ps) =
      let cleaned = clean_part role p in
      let rest = clean_parts role ps in if has_content cleaned then cleaned ∷ rest else rest

  -- What stands for a message without content.
  abbrev pub filled : String → List (Part V) → Option (List (Part V))
  filled role (p ∷ ps) = some (p ∷ ps)
  filled role [] =
      if str_eq role "user"
      then some (text_part "[Acknowledged]" ∷ [])
      else if str_eq role "model"
      then some (text_part "[Thought process hidden]" ∷ [])
      else none

  unfoldable pub sanitize_message : Message V → Option (Message V)
  sanitize_message msg =
      if is_unknown_role msg.role
      then none
      else elim (filled msg.role (clean_parts msg.role msg.parts)) [
        | none ↦ none
        | some parts ↦ some (record { role = msg.role; parts = parts })
      ]

  unfoldable pub sanitize_messages : List (Message V) → List (Message V)
  unfolding sanitize_message
  sanitize_messages [] = []
  sanitize_messages (m ∷ ms) = elim (sanitize_message m) [
    | none ↦ sanitize_messages ms
    | some cleaned ↦ cleaned ∷ sanitize_messages ms
  ]

  abbrev pub with_messages : Turn V → List (Message V) → Option (Turn V)
  with_messages turn [] = none
  with_messages turn (m ∷ ms) = some (record turn { messages = m ∷ ms })

  unfoldable pub sanitize_turn : Turn V → Option (Turn V)
  unfolding sanitize_messages
  sanitize_turn turn = with_messages turn (sanitize_messages turn.messages)

  abbrev pub map_response : (FunctionResponse V → FunctionResponse V) → Part V → Part V
  map_response f part = record part {
    function_response = elim part.function_response [ none ↦ none | some fr ↦ some (f fr) ];
  }

module _ {V : Type 0} (crates : Crates V) where
  abbrev prepare_message : Message V → Message V
  prepare_message msg =
      if str_eq msg.role "function"
      then record msg {
        parts = map (map_response (prepare_function_response_for_llm crates)) msg.parts;
      }
      else msg

  unfoldable pub prepare_turn_for_llm : Turn V → Turn V
  prepare_turn_for_llm turn = record turn { messages = map prepare_message turn.messages }
