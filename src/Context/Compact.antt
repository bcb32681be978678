-- ===== src/Context/Compact.antt =====
-- src/context/history.rs, `rule_based_compact`: the oldest turns of the history, replaced by a summary.
-- The archive is the list of turns appended to the transcript; a failed append is only logged.
pub mod Effect
use rust_claw_oc.Prelude.{
  ℕ, zero, suc, ◌+◌, String, Bool, true, false, not, ◌&&◌, ◌||◌, Option, none, some, List, [], ◌∷◌,
  ◌++◌, length, take, drop, push, min, any, ltb, if◌then◌else◌, concat, join, byte_len, str_eq,
  contains, is_empty, ◌==◌,
}
use rust_claw_oc.Prelude.Decimal.{show}
use rust_claw_oc.Tools.Envelope.{ℤ, pos, negsuc}
use rust_claw_oc.Context.{
  Crates, FunctionCall, FunctionResponse, Part, Message, Turn, truncate_chars, text_message,
}
use rust_claw_oc.Context.Sanitize.{strip_thinking_tags}
use rust_claw_oc.Context.Rebuild.{field}

abbrev is_zero : ℤ → Bool
is_zero (pos zero) = true
is_zero (pos (suc n)) = false
is_zero (negsuc n) = false

-- The words that a lower-case print of a result is searched for.
unfoldable pub names_error : String → Bool
names_error text =
    any (λ w. contains text w)
      ("error:" ∷ "failed:" ∷ "panicked at" ∷ "exception:" ∷ "traceback " ∷ [])
    && not (
        any (λ w. contains text w)
          ("no error" ∷ "0 errors" ∷ "error_handler" ∷ "error.rs" ∷ "errors found: 0"
            ∷ "without error" ∷ []))

abbrev compacted_message : String
compacted_message = "[SYSTEM] History Compacted"

abbrev pub max_summary_chars : ℕ
max_summary_chars = 4000

-- The lines of the summary and the size that the loop has counted.
pub record Summary : Type 0 where
  pub summary_lines : List String
  pub total_chars : ℕ

abbrev line_bytes : List String → ℕ
line_bytes [] = 0
line_bytes (a ∷ actions) = byte_len a + line_bytes actions

module _ {V : Type 0} where
  -- A turn that is a summary itself: its texts, one after the other.
  text_lines : List (Part V) → Summary → Summary
  text_lines [] summary = summary
  text_lines (p ∷ ps) summary = elim p.text [
    | none ↦ text_lines ps summary
    | some text ↦ text_lines ps (record {
      summary_lines = push summary.summary_lines (concat ("\n" ∷ truncate_chars text 1500 ∷ []));
      total_chars = summary.total_chars + min (byte_len text) 1500;
    })
  ]

  message_lines : List (Message V) → Summary → Summary
  unfolding text_lines
  message_lines [] summary = summary
  message_lines (m ∷ ms) summary = message_lines ms (text_lines m.parts summary)

  unfoldable pub compacted_turn : String → String → Turn V
  compacted_turn uuid summary_text = record {
    turn_id = concat ("compacted-" ∷ uuid ∷ []);
    user_message = compacted_message;
    messages = text_message "user" summary_text ∷ [];
  }

module _ {V : Type 0} (crates : Crates V) where
  -- The text of the print, where no field says whether the tool failed.
  error_by_text : V → Bool
  error_by_text response =
      let result_str = crates.patterns.to_lowercase (crates.to_string response) in
      if ltb (byte_len result_str) 20 then false else names_error result_str

  error_by_status : V → Bool
  unfolding error_by_text
  error_by_status response = elim (field crates response "status") [
    | none ↦ error_by_text response
    | some status ↦
        let s = crates.patterns.to_lowercase status in
        if str_eq s "error" || str_eq s "failed"
        then true
        else if str_eq s "ok" || str_eq s "success"
        then false
        else error_by_text response
  ]

  abbrev bool_field : V → String → Option Bool
  bool_field response key = elim (crates.get response key) [
    | none ↦ none
    | some v ↦ crates.as_bool v
  ]

  abbrev code_field : V → Option ℤ
  code_field response = elim (crates.get response "exit_code") [
    | none ↦ none
    | some v ↦ crates.as_i64 v
  ]

  -- The first of `ok`, `exit_code`, `success` and `status` that the response has decides.
  unfoldable pub detect_tool_error : V → Bool
  unfolding error_by_status
  detect_tool_error response = elim (bool_field response "ok") [
    | some b ↦ not b
    | none ↦ elim (code_field response) [
      | some code ↦ not (is_zero code)
      | none ↦ elim (bool_field response "success") [
        | some b ↦ not b
        | none ↦ error_by_status response
      ]
    ]
  ]

  -- `obj.get(first).or_else(|| obj.get(second))` as a text
  field_or : V → String → String → Option String
  field_or args first second = elim (crates.get args first) [
    | some v ↦ crates.as_str v
    | none ↦ field crates args second
  ]

  action_text : String → Option String → String
  action_text action none = action
  action_text action (some url) =
      let target = truncate_chars url 60 in
      if str_eq target "" then action else concat (action ∷ " " ∷ target ∷ [])

  unfoldable pub summarize_tool_args : V → String
  unfolding field_or action_text
  summarize_tool_args args = elim (field crates args "action") [
    | some action ↦ action_text action (field_or args "target_url" "url")
    | none ↦ elim (field crates args "path") [
      | some path ↦ path
      | none ↦ elim (field crates args "command") [
        | some cmd ↦ truncate_chars cmd 80
        | none ↦ elim (field crates args "url") [
          | some url ↦ url
          | none ↦ truncate_chars (crates.to_string args) 60
        ]
      ]
    ]
  ]

  text_action : String → Option String → List String
  text_action role none = []
  text_action role (some text) =
      let cleaned = strip_thinking_tags text in
      if str_eq role "model" && not (str_eq cleaned "")
      then concat ("  💬 Agent: " ∷ truncate_chars cleaned 200 ∷ []) ∷ []
      else []

  call_action : Option (FunctionCall V) → List String
  call_action none = []
  call_action (some fc) =
      concat ("  → " ∷ fc.name ∷ "(" ∷ summarize_tool_args fc.args ∷ ")" ∷ []) ∷ []

  response_action : Option (FunctionResponse V) → List String
  unfolding detect_tool_error
  response_action none = []
  response_action (some fr) =
      if detect_tool_error fr.response
      then concat
          ("  ✗ " ∷ fr.name ∷ " FAILED: " ∷ truncate_chars (crates.to_string fr.response) 150 ∷ [])
        ∷ []
      else concat ("  ✓ " ∷ fr.name ∷ " OK" ∷ []) ∷ []

  part_actions : String → List (Part V) → List String
  unfolding text_action call_action response_action
  part_actions role [] = []
  part_actions role (p ∷ ps) =
      text_action role p.text
      ++ call_action p.function_call
      ++ response_action p.function_response
      ++ part_actions role ps

  unfoldable pub actions : List (Message V) → List String
  unfolding part_actions
  actions [] = []
  actions (m ∷ ms) = part_actions m.role m.parts ++ actions ms

  abbrev or_text_only : List String → List String
  or_text_only [] = "  (text-only exchange, no tool calls)" ∷ []
  or_text_only (a ∷ as') = a ∷ as'

  -- The header and the actions of turn `i`, counted from 1.
  summarize_turn : ℕ → Turn V → Summary → Summary
  unfolding actions
  summarize_turn i turn summary =
      let header =
        concat ("\n[Turn " ∷ show i ∷ "] User: " ∷ truncate_chars turn.user_message 120 ∷ []) in
      let done = actions turn.messages in
      record {
        summary_lines = push summary.summary_lines header ++ or_text_only done;
        total_chars = summary.total_chars + byte_len header + line_bytes done;
      }

  -- The loop over the compacted turns, of which there are `count`. Once the budget is exhausted it
  -- writes one more line and ends; a turn that is a summary does not exhaust it.
  unfoldable pub summarize : ℕ → ℕ → Bool → List (Turn V) → Summary → Summary
  unfolding message_lines summarize_turn
  summarize count i exhausted [] summary = summary
  summarize count i true (t ∷ ts) summary = record summary {
    summary_lines = push summary.summary_lines (
        concat
          ("\n[Turns " ∷ show i ∷ "-" ∷ show count ∷ "] (omitted due to summary size limit)" ∷ []));
  }
  summarize count i false (t ∷ ts) summary =
      let older = summarize count (i + 1) false ts (message_lines t.messages summary) in
      let next = summarize_turn i t summary in
      let rest = summarize count (i + 1) (ltb max_summary_chars next.total_chars) ts next in
      if str_eq t.user_message compacted_message then older else rest

  unfoldable pub summary_text : List (Turn V) → String
  unfolding summarize
  summary_text turns =
      let first = concat ("=== Compacted History (" ∷ show (length turns) ∷ " turns) ===" ∷ []) in
      let summary =
        summarize (length turns) 1 false turns
          (record { summary_lines = first ∷ []; total_chars = byte_len first }) in
      concat (
        "[System context: The following is an automated summary of earlier conversation history. "
        ∷ "Use it as background knowledge but do not respond to it directly.]\n\n"
        ∷ join "\n" summary.summary_lines
        ∷ [])

  -- The new history, the archive and the reason; `uuid` is a fresh one.
  unfoldable pub rule_based_compact :
      String → ℕ → List (Turn V) → List (Turn V) → Option String × List (Turn V) × List (Turn V)
  unfolding compacted_turn summary_text
  rule_based_compact uuid num_turns dialogue_history archive =
      let to_compact = min num_turns (length dialogue_history) in
      let old = take to_compact dialogue_history in
      if num_turns == 0 || is_empty dialogue_history then (none, dialogue_history, archive) else (
        some (concat ("Compacted " ∷ show to_compact ∷ " turns into structured summary" ∷ [])),
        compacted_turn uuid (summary_text old) ∷ drop to_compact dialogue_history,
        archive ++ old,
      )
