-- ===== src/Context/Shorten.antt =====
-- src/context/history.rs: the results of tools in a recent turn of the history, shortened.
use rust_claw_oc.Prelude.{
  ℕ, ◌+◌, ◌-◌, ◌/◌, String, Bool, false, not, ◌&&◌, ◌||◌, Option, none, some, List, [], ◌∷◌, length,
  leb, ltb, if◌then◌else◌, concat, char_count, byte_len, take_chars, skip_chars, lines, str_eq,
}
use rust_claw_oc.Prelude.Decimal.{show}
use rust_claw_oc.Tools.Envelope.{ToolExecutionEnvelope}
use rust_claw_oc.Context.{Crates, FunctionResponse, Part, Message, Turn}
use rust_claw_oc.Context.Sanitize.{result_text, set_result}

abbrev kind_is : Option ToolExecutionEnvelope → String → Bool
kind_is none kind = false
kind_is (some envelope) kind = elim envelope.effects.payload_kind [
  | none ↦ false
  | some k ↦ str_eq k kind
]

-- The head and the tail of a text, around the mark.
abbrev pub head_and_tail : ℕ → ℕ → String → String → String → String
head_and_tail head tail before after text = concat (
    take_chars head text
    ∷ before
    ∷ show (char_count text - (head + tail))
    ∷ after
    ∷ skip_chars (char_count text - tail) text
    ∷ [])

abbrev output_or : Option ToolExecutionEnvelope → String → String
output_or none result = result
output_or (some envelope) result = envelope.result.output

-- The replacement of a browser's snapshot and the number of characters it hides.
unfoldable pub strip_browser_snapshot :
    String → Option ToolExecutionEnvelope → String → Option (String × ℕ)
strip_browser_snapshot name envelope result =
    let snapshot = output_or envelope result in
    let replacement =
      concat
        ("[browser snapshot stripped - " ∷ show (length (lines snapshot)) ∷ " elements]" ∷ []) in
    if not (str_eq name "browser") && not (kind_is envelope "browser_snapshot")
    then none
    else if leb (char_count snapshot) 100
    then none
    else some (replacement, char_count snapshot - byte_len replacement)

module _ {V : Type 0} (crates : Crates V) where
  -- The text that `truncate_code_mode_result_value` writes, and the number of characters it hides.
  unfoldable pub truncate_code_mode_result_value : String → V → Option (String × ℕ)
  truncate_code_mode_result_value tool_name val = elim (crates.as_str val) [
    | none ↦ none
    | some text ↦ elim (crates.read_envelope text) [
      | none ↦ none
      | some envelope ↦
          let output = envelope.result.output in
          let shorter =
            head_and_tail 2400 600 "\n... [Code mode history compressed: " " chars hidden] ...\n"
              output in
          if not (
            kind_is (some envelope) "code_mode_exec"
            || str_eq tool_name "exec"
            || str_eq tool_name "wait")
          then none
          else if leb (char_count output) 4000
          then none
          else elim (crates.write_envelope
              (record envelope { result = record envelope.result { output = shorter } })) [
                | none ↦ none
                | some json ↦ some (json, char_count output - 3000)
              ]
    ]
  ]

  -- A text keeps half of `max_len` at each end; another value keeps 4000 characters of its print.
  unfoldable pub truncate_large_json_value : V → ℕ → Option (String × ℕ)
  truncate_large_json_value val max_len = elim (crates.as_str val) [
    | some s ↦
        if leb (char_count s) max_len
        then none
        else some (
          concat (
              take_chars (max_len / 2) s
              ∷ "\n... [History Compressed: "
              ∷ show (char_count s - max_len)
              ∷ " chars hidden] ...\n"
              ∷ skip_chars (char_count s - max_len / 2) s
              ∷ []),
          char_count s - max_len,
        )
    | none ↦
        let s = crates.to_string val in
        if leb (byte_len s) max_len || leb (char_count s) max_len
        then none
        else some (
          concat (take_chars 4000 s ∷ "\n... [History Object Compressed] ..." ∷ []),
          char_count s - 4000,
        )
  ]

  abbrev pub max_result_len : ℕ
  max_result_len = 12000

  abbrev pub max_total_len : ℕ
  max_total_len = 20000

  -- The whole response, if its print is too large.
  truncate_total : V → V × ℕ
  truncate_total response =
      let text = crates.to_string response in
      if ltb max_total_len (byte_len text)
      then (
        crates.object (
            (
              "result",
              crates.string
                  (concat (take_chars 2000 text ∷ "\n... [Truncated massive object] ..." ∷ [])),
            )
            ∷ ("original_chars", crates.number (byte_len text))
            ∷ []),
        char_count text - 2000,
      )
      else (response, 0)

  -- The field `result`, else the whole.
  truncate_result : String → V → V × ℕ
  unfolding truncate_total
  truncate_result name response = elim (crates.get response "result") [
    | none ↦ truncate_total response
    | some val ↦ elim (truncate_code_mode_result_value name val) [
      | some (text, hidden) ↦ (set_result crates text response, hidden)
      | none ↦ elim (truncate_large_json_value val max_result_len) [
        | some (text, hidden) ↦ (set_result crates text response, hidden)
        | none ↦ truncate_total response
      ]
    ]
  ]

  -- `strip_browser_snapshot` of the response's text
  stripped_snapshot : String → V → Option (String × ℕ)
  stripped_snapshot name response = elim (result_text crates response) [
    | none ↦ none
    | some text ↦ strip_browser_snapshot name (crates.read_envelope text) text
  ]

  unfoldable pub truncate_response : String → V → V × ℕ
  unfolding stripped_snapshot truncate_result
  truncate_response name response = elim (stripped_snapshot name response) [
    | some (text, hidden) ↦ (set_result crates text response, hidden)
    | none ↦ truncate_result name response
  ]

  unfoldable pub truncate_function_response : FunctionResponse V → FunctionResponse V × ℕ
  unfolding truncate_response
  truncate_function_response fr =
      let (response, hidden) = truncate_response fr.name fr.response in
      (record fr { response = response }, hidden)

  truncate_part : Part V → Part V × ℕ
  unfolding truncate_function_response
  truncate_part part = elim part.function_response [
    | none ↦ (record part { thought_signature = none }, 0)
    | some fr ↦
        let (shorter, hidden) = truncate_function_response fr in
        (record part { thought_signature = none; function_response = some shorter }, hidden)
  ]

  truncate_parts : List (Part V) → List (Part V) × ℕ
  unfolding truncate_part
  truncate_parts [] = ([], 0)
  truncate_parts (p ∷ ps) =
      let (part, hidden) = truncate_part p in
      let (rest, more) = truncate_parts ps in (part ∷ rest, hidden + more)

  truncate_messages : List (Message V) → List (Message V) × ℕ
  unfolding truncate_parts
  truncate_messages [] = ([], 0)
  truncate_messages (m ∷ ms) =
      let (parts, hidden) = truncate_parts m.parts in
      let (rest, more) = truncate_messages ms in (record m { parts = parts } ∷ rest, hidden + more)

  unfoldable pub truncate_old_tool_results : Turn V → Turn V × ℕ
  unfolding truncate_messages
  truncate_old_tool_results turn =
      let (messages, hidden) = truncate_messages turn.messages in
      (record turn { messages = messages }, hidden)
