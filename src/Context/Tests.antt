-- ===== src/Context/Tests.antt =====
-- Tests of src/context.
use rust_claw_oc.Prelude.{
  ℕ, ◌+◌, ◌≤◌, ◌≡◌, ◌⊎◌, inl, inr, refl, arith, String, Bool, true, false, Option, none, some, List,
  [], ◌∷◌, ◌++◌, map, take, drop, min, length, last, reverse, is_some, not, ◌==◌, ltb,
  if◌then◌else◌, get_elem?, str_eq, join, char_count, find, trim, is_blank,
}
use rust_claw_oc.Prelude.Dict.{lookup}
use rust_claw_oc.Context.{Crates, Part, Message, Turn, text_message, text_part, no_part, sum_tokens}
use rust_claw_oc.Context.Budget.{response_token_reserve}
use rust_claw_oc.Context.Sanitize.{strip_thinking_tags}
use rust_claw_oc.Context.Sanitize.Thoughts.{strip_thinking_tags-clean}
use rust_claw_oc.Context.Clean.{sanitize_turn}
use rust_claw_oc.Context.History.{build_history_with_token_budget}
use rust_claw_oc.Context.History.Selection.{
  HistoryWindow, build_history_with_token_budget-HistoryWindow,
}
use rust_claw_oc.Context.Compact.{rule_based_compact, compacted_turn, summary_text}
use rust_claw_oc.Context.Compact.Effect.{rule_based_compact_lem}
use rust_claw_oc.Context.Current.{function_indices, compress_turn}
use rust_claw_oc.Context.Current.Compress.{compress_turn-keeps}
use rust_claw_oc.Context.Current.Archive.{
  TurnEvent, started, said, ended, apply_all, fresh, restarted, restarted-apply_all,
  restarted-rule_based_compact,
}
use rust_claw_oc.Context.TaskState.{empty_state, summary}
use rust_claw_oc.Context.Evidence.{Evidence}
use rust_claw_oc.Context.Assembler.{Scores, Sources, assemble_prompt}
use rust_claw_oc.Context.Prompt.{AgentContext, Workspace, current_messages, build_llm_payload}
use rust_claw_oc.Context.Prompt.Fits.{build_llm_payload-fits}

-- A JSON value that is a text or an object of texts.
data Json : Type 0 where
  text : String → Json
  fields : List (String × String) → Json

abbrev json_text : Json → String
json_text (text s) = s
json_text (fields fs) = join "," (map (λ f. f.1) fs)

abbrev json_get : Json → String → Option Json
json_get (text s) key = none
json_get (fields fs) key = elim (lookup key fs) [ none ↦ none | some s ↦ some (text s) ]

abbrev json_str : Json → Option String
json_str (text s) = some s
json_str (fields fs) = none

abbrev is_fields : Json → Bool
is_fields (text s) = false
is_fields (fields fs) = true

abbrev same_score : ℕ → ℕ
same_score n = n

abbrev unequal : ℕ → ℕ → Bool
unequal a b = not (a == b)

abbrev above : ℕ → ℕ → Bool
above a b = ltb b a

abbrev same : String → String
same s = s

abbrev crates : Crates Json
crates = record {
  to_string = json_text;
  is_object = is_fields;
  get = json_get;
  as_str = json_str;
  as_bool = λ v. none;
  as_i64 = λ v. none;
  object = λ fs. fields (map (λ f. (f.0, json_text f.1)) fs);
  string = text;
  number = λ n. text "0";
  insert = λ key v o. o;
  remove = λ key o. o;
  read_envelope = λ s. none;
  envelope_value = λ e. none;
  write_envelope = λ e. none;
  encode = char_count;
  patterns = record {
    encoded_lt = same;
    encoded_gt = same;
    dangerous_tags = same;
    boundary_tag = same;
    to_lowercase = same;
  };
}

abbrev turn_of : String → String → Turn Json
turn_of id said' = record {
  turn_id = id;
  user_message = said';
  messages = text_message "user" said' ∷ text_message "model" "done" ∷ [];
}

abbrev two_turns : List (Turn Json)
two_turns = turn_of "t1" "first" ∷ turn_of "t2" "second" ∷ []

thinking_test : strip_thinking_tags "a<think>b</think>c<think>d" ≡ "ac"
unfolding strip_thinking_tags rust_claw_oc.Context.Sanitize.strip_thoughts rust_claw_oc.Prelude.find
    trim
thinking_test = refl

strip_thinking_tags-clean_example :
    find "<think>" (strip_thinking_tags "a<think>b</think>c<think>d") ≡ none
strip_thinking_tags-clean_example = strip_thinking_tags-clean "a<think>b</think>c<think>d"

build_history_with_token_budget-HistoryWindow_example : HistoryWindow crates two_turns 12
build_history_with_token_budget-HistoryWindow_example =
    build_history_with_token_budget-HistoryWindow crates two_turns 12

history_test : (build_history_with_token_budget crates two_turns 12).turns_included ≡ 1
unfolding build_history_with_token_budget rust_claw_oc.Context.History.collect
    rust_claw_oc.Context.History.shape sanitize_turn is_blank sum_tokens
    rust_claw_oc.Context.Clean.prepare_turn_for_llm
    rust_claw_oc.Context.Shorten.truncate_old_tool_results rust_claw_oc.Context.estimate_tokens
history_test = refl

-- A message without content is filled, and one of an unknown role is dropped.
abbrev unclean : Turn Json
unclean = record {
  turn_id = "t";
  user_message = "";
  messages = text_message "user" "  " ∷ text_message "system" "x" ∷ [];
}

abbrev cleaned : Turn Json
cleaned = record unclean { messages = text_message "user" "[Acknowledged]" ∷ [] }

abbrev one : ℕ
one = 1

rule_based_compact_lem_example :
    (((one ≡ 0) ⊎ (two_turns ≡ []))
      × (rule_based_compact crates "u" 1 two_turns [] ≡ (none, two_turns, [])))
    ⊎ (((rule_based_compact crates "u" 1 two_turns []).2
            ++ drop 1 (rule_based_compact crates "u" 1 two_turns []).1
          ≡ [] ++ two_turns)
        × (take 1 (rule_based_compact crates "u" 1 two_turns []).1
            ≡ compacted_turn "u" (summary_text crates (take (min 1 (length two_turns)) two_turns))
              ∷ [])
        × (length (rule_based_compact crates "u" 1 two_turns []).1 + min 1 (length two_turns) ≡ 3)
        × (is_some (rule_based_compact crates "u" 1 two_turns []).0 ≡ true))
rule_based_compact_lem_example = rule_based_compact_lem crates "u" 1 two_turns []

abbrev result_message : String → Message Json
result_message result = record {
  role = "function";
  parts =
      record no_part {
        function_response =
            some (record { name = "bash"; response = fields (("result", result) ∷ []); id = none });
      }
      ∷ [];
}

abbrev long_turn : List (Message Json)
long_turn = text_message "user" "go" ∷ result_message "first result" ∷ result_message "second" ∷ []

compress_turn-keeps_example :
    (get_elem? (compress_turn crates 10 long_turn).0 2 ≡ some (result_message "second"))
    × (length (compress_turn crates 10 long_turn).0 ≡ 3)
unfolding function_indices
compress_turn-keeps_example =
    compress_turn-keeps crates 10 long_turn 2 (result_message "second") refl (inr refl)

abbrev session : List (TurnEvent Json)
session =
    started "t1" "first"
    ∷ said (text_message "model" "done")
    ∷ ended
    ∷ started "t2" "second"
    ∷ said (text_message "model" "done")
    ∷ ended
    ∷ []

-- A codec for the turns of the session.
abbrev write_id : Turn Json → String
write_id turn = turn.turn_id

abbrev read_id : String → Option (Turn Json)
read_id s = if str_eq s "t1" then some (turn_of "t1" "first") else some (turn_of "t2" "second")

restarted-apply_all_example :
    restarted write_id read_id (apply_all session fresh).transcript
    ≡ (apply_all session fresh).dialogue_history
unfolding apply_all trim is_blank
restarted-apply_all_example =
    restarted-apply_all write_id read_id session ((refl, refl), ((refl, refl), tt))

restarted-rule_based_compact_example :
    restarted write_id read_id
      (rule_based_compact crates "u" 1
        (apply_all session fresh).dialogue_history
        (apply_all session fresh).transcript).2
    ≡ (apply_all session fresh).dialogue_history
      ++ take
          (min 1 (length (apply_all session fresh).dialogue_history))
          (apply_all session fresh).dialogue_history
unfolding apply_all rule_based_compact trim is_blank
restarted-rule_based_compact_example =
    restarted-rule_based_compact write_id read_id crates "u" 1 session
      ((refl, refl), ((refl, refl), ((refl, refl), tt)))

abbrev scores : Scores ℕ
scores = record { of = same_score; differs = unequal; exceeds = above }

abbrev workspace : Workspace
workspace = record {
  os = "linux";
  arch = "x86_64";
  current_dir = none;
  claw_prompt = none;
  agents_md = none;
  memory_md = some "notes";
  files = λ path. none;
  now = 0;
}

abbrev context : AgentContext Json ℕ
context = record {
  system_prompts = "You are an agent." ∷ [];
  dialogue_history = two_turns;
  current_turn = some (turn_of "t3" "third");
  max_history_tokens = 1000;
  transcript_path = none;
  retrieved_memory = none;
  retrieved_memory_sources = [];
  active_evidence = [];
  skill_contract = none;
  skill_instructions = none;
  skill_state_summary = none;
  execution_notices = none;
}

build_llm_payload-fits_example :
    (build_llm_payload crates scores workspace empty_state context).2.total_prompt_tokens
      + response_token_reserve 1000
    ≤ 1000
unfolding current_messages sum_tokens response_token_reserve sanitize_turn is_blank
    rust_claw_oc.Context.estimate_tokens rust_claw_oc.Context.Clean.prepare_turn_for_llm
build_llm_payload-fits_example =
    build_llm_payload-fits crates scores workspace empty_state context refl refl (omega arith)

-- Evidence that does not fit leaves a tombstone that is counted with the cost of the evidence.
abbrev large : Evidence ℕ
large = record {
  schema_version = 1;
  evidence_id = "e";
  source_kind = "web";
  source_path = "p";
  source_version = none;
  retrieved_at = 0;
  score = 5;
  summary = "";
  content =
      "0123456789012345678901234567890123456789012345678901234567890123456789012345678901234567890123456789012345678901234567890123456789012345678901234567890123456789";
}

abbrev sources : Sources ℕ
sources = record {
  system_static = "sys";
  tool_schemas = "";
  memory = none;
  contract = none;
  instructions = none;
  state_summary = none;
  notices = none;
  task_state = empty_state;
  active_evidence = large ∷ [];
  transcript_tail = [];
}

overcount_test : ltb 30 (assemble_prompt scores 30 workspace.files 0 sources).1.used_tokens ≡ true
unfolding assemble_prompt rust_claw_oc.Context.Assembler.allocate is_blank
    rust_claw_oc.Context.Evidence.stale_tombstone summary trim
overcount_test = refl
