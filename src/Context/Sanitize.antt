-- ===== src/Context/Sanitize.antt =====
-- src/context/sanitize.rs: what is cut out of texts and of the results of tools.
pub mod Thoughts
use rust_claw_oc.Prelude.{
  ℕ, zero, suc, ◌+◌, ◌-◌, String, Bool, true, false, ◌||◌, Option, none, some, [], ◌∷◌, take,
  reverse, length, leb, ltb, if◌then◌else◌, concat, join, char_count, byte_len, trim, take_chars,
  skip_chars, find, lines, str_eq,
}
use rust_claw_oc.Prelude.Decimal.{show}
use rust_claw_oc.Tools.Envelope.{ToolExecutionEnvelope, into_llm_context}
use rust_claw_oc.Context.{Crates, FunctionResponse}

-- One round of the loop of `strip_thinking_tags`: the text without its first thought, and whether
-- the loop goes on. A thought that does not end takes the rest.
unfoldable pub strip_thought : String → Option (String × Bool)
strip_thought text = elim (find "<think>" text) [
  | none ↦ none
  | some (before, inside) ↦ elim (find "</think>" inside) [
    | none ↦ some (before, false)
    | some (thought, after) ↦ some (concat (before ∷ after ∷ []), true)
  ]
]

-- The loop, on fuel: a thought has at least the length of its tags.
unfoldable pub strip_thoughts : ℕ → String → String
unfolding strip_thought
strip_thoughts zero text = text
strip_thoughts (suc n) text = elim (strip_thought text) [
  | none ↦ text
  | some (rest, false) ↦ rest
  | some (rest, true) ↦ strip_thoughts n rest
]

unfoldable pub strip_thinking_tags : String → String
strip_thinking_tags text = trim (strip_thoughts (char_count text) text)

unfoldable pub truncate_chars_with_marker : String → ℕ → ℕ → String
truncate_chars_with_marker input head_chars tail_chars =
    if leb (char_count input) (head_chars + tail_chars)
    then input
    else concat (
        take_chars head_chars input
        ∷ "\n... [stripped "
        ∷ show (char_count input)
        ∷ " chars] ...\n"
        ∷ skip_chars (char_count input - tail_chars) input
        ∷ [])

unfoldable pub truncate_lines_with_marker : String → ℕ → ℕ → String
truncate_lines_with_marker input head_lines tail_lines =
    let all = lines input in
    if leb (length all) (head_lines + tail_lines)
    then input
    else concat (
        join "\n" (take head_lines all)
        ∷ "\n... [stripped "
        ∷ show (length all)
        ∷ " lines] ...\n"
        ∷ join "\n" (reverse (take tail_lines (reverse all)))
        ∷ [])

abbrev is_kind : Option String → String → Bool
is_kind none kind = false
is_kind (some k) kind = str_eq k kind

-- The output of a tool in the history, by the kind of its payload and of its evidence and by the
-- tool's name; `none` for a plan, whose result is replaced as a whole.
unfoldable pub strip_output : Option String → Option String → String → String → Option String
strip_output payload evidence tool output =
    if is_kind payload "plan" || str_eq tool "task_plan"
    then none
    else some (
        if is_kind evidence "file"
        then if ltb 10 (length (lines output))
          then truncate_lines_with_marker output 5 5
          else output
        else if is_kind evidence "diagnostic"
            || is_kind evidence "directory"
            || str_eq tool "execute_bash"
        then if ltb 500 (char_count output)
          then truncate_chars_with_marker output 200 200
          else output
        else if is_kind payload "web_content"
            || is_kind payload "web_search"
            || str_eq tool "web_fetch"
            || str_eq tool "web_search_tavily"
        then concat ("[web content stripped - " ∷ show (byte_len output) ∷ " chars]" ∷ [])
        else if is_kind payload "browser_snapshot" || str_eq tool "browser"
        then concat
            ("[browser snapshot stripped - " ∷ show (length (lines output)) ∷ " elements]" ∷ [])
        else if is_kind payload "skill" || str_eq tool "skill" || str_eq tool "use_skill"
        then "Skill loaded."
        else if is_kind payload "code_mode_exec" || str_eq tool "exec" || str_eq tool "wait"
        then if ltb 1500 (char_count output)
          then truncate_chars_with_marker output 700 400
          else output
        else if str_eq tool "write_file" || str_eq tool "patch_file"
        then output
        else if ltb 500 (byte_len output)
        then truncate_chars_with_marker output 200 100
        else output)

abbrev stripped_text : String → String
stripped_text result =
    concat (take_chars 200 result ∷ "\n... [stripped " ∷ show (byte_len result) ∷ " chars]" ∷ [])

module _ {V : Type 0} (crates : Crates V) where
  -- `obj.get_mut("result")`, where it holds a text
  abbrev pub result_text : V → Option String
  result_text response = elim (crates.get response "result") [
    | none ↦ none
    | some v ↦ crates.as_str v
  ]

  abbrev pub set_result : String → V → V
  set_result text response = crates.insert "result" (crates.string text) response

  abbrev without_details : V → V
  without_details v = crates.remove "recovery_rule" (
      crates.remove "recovery_output" (
        crates.remove "recovery_attempted"
          (crates.remove "truncated" (crates.remove "duration_ms" v))))

  abbrev with_output : String → ToolExecutionEnvelope → ToolExecutionEnvelope
  with_output output envelope = record envelope {
    result = record envelope.result { output = output };
  }

  -- The envelope printed without the details; nothing is written where it has no JSON.
  write_stripped : V → ToolExecutionEnvelope → V
  write_stripped response envelope = elim (crates.envelope_value envelope) [
    | none ↦ response
    | some v ↦
        if crates.is_object v
        then set_result (crates.to_string (without_details v)) response
        else response
  ]

  tool_of : String → String → String
  tool_of named tool = if str_eq tool "" then named else tool

  -- The new response of a tool.
  unfoldable pub strip_response : String → V → V
  unfolding write_stripped tool_of
  strip_response name response = elim (result_text response) [
    | none ↦ response
    | some text ↦ elim (crates.read_envelope text) [
      | none ↦
          if ltb 500 (byte_len text) then set_result (stripped_text text) response else response
      | some envelope ↦
          elim (strip_output envelope.effects.payload_kind envelope.effects.evidence_kind
            (tool_of name envelope.result.tool_name) envelope.result.output) [
              | none ↦ set_result "[plan updated]" response
              | some output ↦ write_stripped response (with_output output envelope)
            ]
    ]
  ]

  unfoldable pub strip_response_payload : FunctionResponse V → FunctionResponse V
  strip_response_payload fr = record fr { response = strip_response fr.name fr.response }

  -- `expect`s that the envelope has a JSON text; without one the code panics, here nothing changes.
  unfoldable pub prepare_response : V → V
  prepare_response response = elim (result_text response) [
    | none ↦ response
    | some text ↦ elim (crates.read_envelope text) [
      | none ↦ response
      | some envelope ↦ elim (crates.write_envelope (into_llm_context crates.patterns envelope)) [
        | none ↦ response
        | some json ↦ set_result json response
      ]
    ]
  ]

  unfoldable pub prepare_function_response_for_llm : FunctionResponse V → FunctionResponse V
  prepare_function_response_for_llm fr = record fr { response = prepare_response fr.response }
