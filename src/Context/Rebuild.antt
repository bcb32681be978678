-- ===== src/Context/Rebuild.antt =====
-- src/context/history.rs, `reconstruct_turn_for_history`: an older turn, cut down to its calls, its
-- stripped results and its texts.
use rust_claw_oc.Prelude.{
  ℕ, ◌-◌, String, Bool, ◌&&◌, ◌||◌, not, Option, none, some, is_some, is_empty, unwrap_or, or_some,
  List, [], ◌∷◌, leb, if◌then◌else◌, concat, char_count, take_chars, skip_chars, str_eq, contains,
  replace, trim,
}
use rust_claw_oc.Prelude.Decimal.{show}
use rust_claw_oc.Context.{Crates, FunctionCall, Part, Message, Turn, truncate_chars}
use rust_claw_oc.Context.Sanitize.{strip_thinking_tags, strip_response_payload}

unfoldable pub compact_exec_code_for_history : String → String
compact_exec_code_for_history source =
    if leb (char_count source) 320
    then source
    else concat (
        take_chars 200 source
        ∷ "\n... [code mode source truncated: "
        ∷ show (char_count source - 280)
        ∷ " chars hidden] ...\n"
        ∷ skip_chars (char_count source - 80) source
        ∷ [])

-- The text of a user's message without the markers of an earlier prompt.
unmark : String → String → String
unmark marker text = if contains text marker then trim (replace text marker "") else text

unfoldable pub clean_user_text : String → String
unfolding unmark
clean_user_text text =
    let cleaned =
      unmark "--- [EARLIER HISTORY] ---"
        (unmark "--- [RECENT CONTEXT] ---" (unmark "[CURRENT TASK]" text)) in
    if str_eq cleaned "" then "[Acknowledged]" else cleaned

unfoldable pub clean_model_text : String → String
clean_model_text text =
    let cleaned = strip_thinking_tags text in
    if str_eq cleaned "" then "[Thought process hidden]" else cleaned

module _ {V : Type 0} (crates : Crates V) where
  -- `obj.get(key).and_then(as_str)`
  abbrev pub field : V → String → Option String
  field args key = elim (crates.get args key) [ none ↦ none | some v ↦ crates.as_str v ]

  abbrev one_field : String → String → V
  one_field key value = crates.object ((key, crates.string value) ∷ [])

  -- The target of an action.
  target : V → List (String × V)
  target args = elim (field args "target_url") [
    | some url ↦ ("target_url", crates.string (truncate_chars url 60)) ∷ []
    | none ↦ elim (field args "url") [
      | some url ↦ ("url", crates.string (truncate_chars url 60)) ∷ []
      | none ↦ []
    ]
  ]

  compact_action : V → Option V
  unfolding target
  compact_action args = elim (field args "action") [
    | none ↦ none
    | some action ↦ some (crates.object (("action", crates.string action) ∷ target args))
  ]

  compact_path : V → Option V
  compact_path args = elim (field args "path") [
    | some path ↦ some (one_field "path" path)
    | none ↦ elim (field args "command") [
      | some command ↦ some (one_field "command" (truncate_chars command 80))
      | none ↦ elim (field args "url") [ some url ↦ some (one_field "url" url) | none ↦ none ]
    ]
  ]

  compact_exec : V → Option V
  compact_exec args = elim (field args "code") [
    | none ↦ none
    | some source ↦ some (one_field "code" (compact_exec_code_for_history source))
  ]

  compact_wait : V → Option V
  compact_wait args = elim (field args "cell_id") [
    | none ↦ some (crates.object [])
    | some cell_id ↦ some (one_field "cell_id" cell_id)
  ]

  unfoldable pub compact_function_call_args_for_history : String → V → Option V
  unfolding compact_exec compact_wait compact_action compact_path
  compact_function_call_args_for_history tool_name args =
      if crates.is_object args
      then if str_eq tool_name "exec"
        then compact_exec args
        else if str_eq tool_name "wait"
        then compact_wait args
        else or_some (compact_action args) (compact_path args)
      else none

  unfoldable pub compact_call : FunctionCall V → FunctionCall V
  compact_call fc = record fc {
    args = unwrap_or (compact_function_call_args_for_history fc.name fc.args) fc.args;
  }

  -- A model's text beside a call goes.
  abbrev pub rebuild_text : String → Bool → Option String → Option String
  rebuild_text role calls none = none
  rebuild_text role calls (some text) =
      if str_eq role "user"
      then some (clean_user_text text)
      else if str_eq role "model" && not calls
      then some (clean_model_text text)
      else none

  unfoldable pub rebuild_part : String → Part V → Part V
  unfolding compact_call
  rebuild_part role part = record {
    text = rebuild_text role (is_some part.function_call) part.text;
    function_call = elim part.function_call [ none ↦ none | some fc ↦ some (compact_call fc) ];
    function_response = elim part.function_response [
      | none ↦ none
      | some fr ↦ some (strip_response_payload crates fr)
    ];
    thought_signature = none;
    file_data = none;
  }

  abbrev pub is_kept : Part V → Bool
  is_kept part = is_some part.text || is_some part.function_call || is_some part.function_response

  unfoldable pub rebuild_parts : String → List (Part V) → List (Part V)
  unfolding rebuild_part
  rebuild_parts role [] = []
  rebuild_parts role (p ∷ ps) =
      let rest = rebuild_parts role ps in
      if is_kept (rebuild_part role p) then rebuild_part role p ∷ rest else rest

  unfoldable pub rebuild_messages : List (Message V) → List (Message V)
  unfolding rebuild_parts
  rebuild_messages [] = []
  rebuild_messages (m ∷ ms) =
      let rest = rebuild_messages ms in
      if is_empty (rebuild_parts m.role m.parts)
      then rest
      else record { role = m.role; parts = rebuild_parts m.role m.parts } ∷ rest

  -- It counts no characters as hidden.
  unfoldable pub reconstruct_turn_for_history : Turn V → Turn V × ℕ
  unfolding rebuild_messages
  reconstruct_turn_for_history turn = (record turn { messages = rebuild_messages turn.messages }, 0)
