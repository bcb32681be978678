-- ===== src/Context/Prompt.antt =====
-- src/context/prompt.rs and agent_context.rs: what a request to the provider holds. The platform, the
-- working directory and the files of the workspace are the fields of `Workspace`.
pub mod Fits
use rust_claw_oc.Prelude.{
  ℕ, ◌+◌, ◌-◌, String, Bool, true, false, Option, none, some, List, [], ◌∷◌, ◌++◌, push, length,
  last, if◌then◌else◌, concat, join, trim, is_blank, str_eq,
}
use rust_claw_oc.Context.{
  Crates, Message, Turn, truncate_chars, text_message, estimate_tokens, sum_tokens,
  turn_token_estimate,
}
use rust_claw_oc.Context.Clean.{sanitize_turn, prepare_turn_for_llm}
use rust_claw_oc.Context.Budget.{response_token_reserve, effective_history_budget}
use rust_claw_oc.Context.History.{build_history_with_token_budget}
use rust_claw_oc.Context.TaskState.{TaskStateSnapshot}
use rust_claw_oc.Context.Evidence.{Evidence, FileSystem, new_evidence}
use rust_claw_oc.Context.Assembler.{Scores, Sources, AssemblyReport, assemble_prompt}

pub record Workspace : Type 0 where
  pub os : String
  pub arch : String
  pub current_dir : Option String
  -- .claw_prompt.md, AGENTS.md and MEMORY.md, where they can be read
  pub claw_prompt : Option String
  pub agents_md : Option String
  pub memory_md : Option String
  pub files : FileSystem
  pub now : ℕ

-- The fields of `AgentContext` that a prompt is made of.
pub record AgentContext (V : Type 0) (Score : Type 0) : Type 0 where
  pub system_prompts : List String
  pub dialogue_history : List (Turn V)
  pub current_turn : Option (Turn V)
  pub max_history_tokens : ℕ
  pub transcript_path : Option String
  pub retrieved_memory : Option String
  pub retrieved_memory_sources : List String
  pub active_evidence : List (Evidence Score)
  pub skill_contract : Option String
  pub skill_instructions : Option String
  pub skill_state_summary : Option String
  pub execution_notices : Option String

pub record DetailedContextStats : Type 0 where
  pub system_static : ℕ
  pub system_runtime : ℕ
  pub system_custom : ℕ
  pub system_project : ℕ
  pub system_task_plan : ℕ
  pub memory : ℕ
  pub history : ℕ
  pub current_turn : ℕ
  pub last_turn : ℕ
  pub total : ℕ
  pub max_tokens : ℕ
  pub truncated_chars : ℕ

pub record PromptReport : Type 0 where
  pub max_history_tokens : ℕ
  pub history_tokens_used : ℕ
  pub history_turns_included : ℕ
  pub current_turn_tokens : ℕ
  pub system_prompt_tokens : ℕ
  pub total_prompt_tokens : ℕ
  pub retrieved_memory_snippets : ℕ
  pub retrieved_memory_sources : List String
  pub detailed_stats : DetailedContextStats

unfoldable pub build_prompt_section : String → String → ℕ → Option String
build_prompt_section title content max_chars =
    let trimmed = trim content in
    if str_eq trimmed ""
    then none
    else some (concat ("## " ∷ title ∷ "\n" ∷ truncate_chars trimmed max_chars ∷ "\n" ∷ []))

abbrev task_planning : String
task_planning =
    "### Task Planning\nIf the user request is complex (e.g. multi-step refactoring, new feature implementation), you MUST use the `task_plan` tool immediately to create a structured plan (action='add').\n\n"

abbrev file_section : String → ℕ → Option String → List String
file_section heading max_chars none = []
file_section heading max_chars (some content) =
    heading ∷ truncate_chars content max_chars ∷ "\n\n" ∷ []

abbrev project_context : Bool → Workspace → List String
project_context include_task_planning ws =
    (if include_task_planning then task_planning ∷ [] else [])
    ++ file_section "### AGENTS.md\n" 3000 ws.agents_md

abbrev project_context_with_inline_memory : Workspace → String
project_context_with_inline_memory ws =
    concat (project_context true ws ++ file_section "### MEMORY.md\n" 1500 ws.memory_md)

abbrev directory_line : Option String → List String
directory_line none = []
directory_line (some dir) = concat ("Current Directory: " ∷ dir ∷ "\n" ∷ []) ∷ []

abbrev transcript_line : Option String → List String
transcript_line none = []
transcript_line (some path) = concat ("Session Transcript: " ∷ path ∷ "\n" ∷ []) ∷ []

abbrev platform_lines : Workspace → List String
platform_lines ws =
    concat ("OS: " ∷ ws.os ∷ "\n" ∷ [])
    ∷ concat ("Architecture: " ∷ ws.arch ∷ "\n" ∷ [])
    ∷ directory_line ws.current_dir

abbrev section_of : String → ℕ → Option String → Option String
section_of title max_chars none = none
section_of title max_chars (some content) = build_prompt_section title content max_chars

abbrev custom_section : Workspace → Option String
custom_section ws = section_of "User Custom Instructions" 4000 ws.claw_prompt

abbrev project_section : Workspace → Option String
project_section ws =
    build_prompt_section "Project Context" (project_context_with_inline_memory ws) 7000

abbrev given : Option String → List String
given none = []
given (some section) = section ∷ []

abbrev sum_stats : DetailedContextStats → DetailedContextStats
sum_stats s = record s {
  total =
      s.system_static + s.system_runtime + s.system_custom + s.system_project + s.system_task_plan
      + s.memory + s.history + s.current_turn;
}

abbrev custom_instructions : Option String → List String
custom_instructions none = []
custom_instructions (some custom) = concat ("## Custom Instructions\n" ∷ custom ∷ []) ∷ []

module _ {V : Type 0} {Score : Type 0} where
  abbrev identity_section : AgentContext V Score → Option String
  identity_section ctx = build_prompt_section "Identity" (join "\n\n" ctx.system_prompts) 4000

  abbrev runtime_section : Workspace → AgentContext V Score → Option String
  runtime_section ws ctx =
      build_prompt_section "Runtime Environment"
        (concat (platform_lines ws ++ transcript_line ctx.transcript_path)) 1000

  abbrev memory_section : AgentContext V Score → Option String
  memory_section ctx = section_of "Retrieved Memory" 3000 ctx.retrieved_memory

  unfoldable pub build_system_prompt : Workspace → AgentContext V Score → String
  build_system_prompt ws ctx = join "\n" (
      given (identity_section ctx)
      ++ given (runtime_section ws ctx)
      ++ given (custom_section ws)
      ++ given (project_section ws)
      ++ given (memory_section ctx))

module _ {V : Type 0} (crates : Crates V) where
  abbrev section_tokens : Option String → ℕ
  section_tokens none = 0
  section_tokens (some section) = crates.encode section

  abbrev turn_tokens : Option (Turn V) → ℕ
  turn_tokens none = 0
  turn_tokens (some turn) = turn_token_estimate crates turn

  abbrev current_or_last : Option (Turn V) → List (Turn V) → ℕ
  current_or_last (some turn) history = turn_token_estimate crates turn
  current_or_last none history = turn_tokens (last history)

  abbrev pending_tokens : Option (Turn V) → Option String → ℕ
  pending_tokens none none = 0
  pending_tokens none (some input) = crates.encode input
  pending_tokens (some turn) pending = turn_token_estimate crates turn

  -- The messages of the current turn under their separator.
  unfoldable pub current_messages : Option (Turn V) → List (Message V)
  current_messages none = []
  current_messages (some turn) = elim (sanitize_turn turn) [
    | none ↦ []
    | some sanitized ↦
        text_message "user" "--- [CURRENT TASK] ---"
        ∷ (prepare_turn_for_llm crates sanitized).messages
  ]

module _ {V : Type 0} {Score : Type 0} (crates : Crates V) where
  -- The history that `build_history_with_budget` chooses.
  unfoldable pub history_budget : Workspace → AgentContext V Score → ℕ
  unfolding build_system_prompt
  history_budget ws ctx =
      effective_history_budget ctx.max_history_tokens (crates.encode (build_system_prompt ws ctx))
        (turn_tokens crates ctx.current_turn)

  unfoldable pub get_detailed_stats :
      Workspace → AgentContext V Score → Option String → DetailedContextStats
  unfolding history_budget
  get_detailed_stats ws ctx pending_user_input =
      let history =
        build_history_with_token_budget crates ctx.dialogue_history (history_budget ws ctx) in
      sum_stats (record {
        system_static = section_tokens crates (identity_section ctx);
        system_runtime = section_tokens crates (runtime_section ws ctx);
        system_custom = section_tokens crates (custom_section ws);
        system_project = section_tokens crates (project_section ws);
        system_task_plan = 0;
        memory = section_tokens crates (memory_section ctx);
        history = history.current_tokens;
        current_turn = pending_tokens crates ctx.current_turn pending_user_input;
        last_turn = turn_tokens crates (last ctx.dialogue_history);
        total = 0;
        max_tokens = ctx.max_history_tokens;
        truncated_chars = history.truncated_chars;
      })

  -- The total, the window, the number of turns, and the tokens of the system prompt and of the turn.
  unfoldable pub get_context_status : Workspace → AgentContext V Score → ℕ × ℕ × ℕ × ℕ × ℕ
  get_context_status ws ctx =
      let current = current_or_last crates ctx.current_turn ctx.dialogue_history in
      let system = crates.encode (build_system_prompt ws ctx) in
      let budget = effective_history_budget ctx.max_history_tokens system current in
      let history = build_history_with_token_budget crates ctx.dialogue_history budget in
      (
        history.current_tokens + current + system,
        ctx.max_history_tokens,
        length ctx.dialogue_history,
        system,
        current,
      )

  abbrev system_static : Workspace → AgentContext V Score → String
  system_static ws ctx = join "\n\n" (
      join "\n\n" ctx.system_prompts
        ∷ concat ("## Runtime Environment\n" ∷ platform_lines ws)
        ∷ custom_instructions ws.claw_prompt
      ++ concat ("## Project Context\n" ∷ project_context false ws) ∷ [])

-- The retrieved memory as a piece of evidence.
abbrev with_memory :
    {Score : Type 0}
    → Scores Score
    → Workspace
    → Option String
    → List (Evidence Score)
    → List (Evidence Score)
with_memory scores ws none active = active
with_memory scores ws (some mem) active = push active (
    new_evidence ws.files ws.now "legacy_rag" "memory" "retrieved" (scores.of 1)
      "Retrieved memory snippets" mem)

module _ {V : Type 0} {Score : Type 0} (crates : Crates V) (scores : Scores Score) where
  abbrev pub sources : Workspace → TaskStateSnapshot → AgentContext V Score → Sources Score
  sources ws task_state ctx = record {
    system_static = system_static crates ws ctx;
    tool_schemas = "";
    memory = ws.memory_md;
    contract = ctx.skill_contract;
    instructions = ctx.skill_instructions;
    state_summary = ctx.skill_state_summary;
    notices = ctx.execution_notices;
    task_state = task_state;
    active_evidence = with_memory scores ws ctx.retrieved_memory ctx.active_evidence;
    transcript_tail = [];
  }

  abbrev pub system_budget : AgentContext V Score → ℕ
  system_budget ctx =
      ctx.max_history_tokens
      - sum_tokens crates (current_messages crates ctx.current_turn)
      - response_token_reserve ctx.max_history_tokens

  -- The messages, the system message and the report.
  unfoldable pub build_llm_payload :
      Workspace
      → TaskStateSnapshot
      → AgentContext V Score
      → List (Message V) × Message V × PromptReport
  unfolding current_messages get_detailed_stats
  build_llm_payload ws task_state ctx =
      let current = current_messages crates ctx.current_turn in
      let current_turn_tokens = sum_tokens crates current in
      let (system_text, assembly) =
        assemble_prompt scores (system_budget ctx) ws.files ws.now (sources ws task_state ctx) in
      let budget =
        effective_history_budget ctx.max_history_tokens assembly.used_tokens current_turn_tokens in
      let history = build_history_with_token_budget crates ctx.dialogue_history budget in
      (
        history.messages ++ current,
        text_message "system" system_text,
        record {
          max_history_tokens = ctx.max_history_tokens;
          history_tokens_used = history.current_tokens;
          history_turns_included = history.turns_included;
          current_turn_tokens = current_turn_tokens;
          system_prompt_tokens = assembly.used_tokens;
          total_prompt_tokens = history.current_tokens + current_turn_tokens + assembly.used_tokens;
          retrieved_memory_snippets = length ctx.retrieved_memory_sources;
          retrieved_memory_sources = ctx.retrieved_memory_sources;
          detailed_stats = get_detailed_stats crates ws ctx none;
        },
      )
