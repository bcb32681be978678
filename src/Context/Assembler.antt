-- ===== src/Context/Assembler.antt =====
-- src/context_assembler.rs: the parts of the system prompt, chosen by their cost and put in order.
-- `f32` and its comparisons are the fields of `Scores`.
pub mod Allocation
use Prim.Native.String.{compare}
use Prim.Native.Nat.{Ordering}
use rust_claw_oc.Prelude.{
  ℕ, ◌+◌, ◌-◌, ◌/◌, String, Bool, true, false, not, ◌&&◌, Option, none, some, List, [], ◌∷◌, ◌++◌,
  push, keep, length, leb, ltb, if◌then◌else◌, concat, join, byte_len, is_blank, map,
}
use rust_claw_oc.Prelude.Decimal.{show}
use rust_claw_oc.Prelude.Sort.{sort_by}
use rust_claw_oc.Context.TaskState.{TaskStateSnapshot, summary}
use rust_claw_oc.Context.Evidence.{Evidence, FileSystem, stale_tombstone}

pub record Scores (Score : Type 0) : Type 0 where
  pub of : ℕ → Score
  -- `(a - b).abs() > f32::EPSILON`
  pub differs : Score → Score → Bool
  -- `a > b`
  pub exceeds : Score → Score → Bool

pub data CandidateKind : Type 0 where
  system_instruction durable_memory tool_schema task_state_summary : CandidateKind
  evidence : String → CandidateKind
  volatile_turn : ℕ → CandidateKind
  skill_contract skill_instructions skill_state_summary execution_notices : CandidateKind

abbrev pub is_evidence : CandidateKind → Bool
is_evidence (evidence id) = true
is_evidence _ = false

pub record PromptCandidate (Score : Type 0) : Type 0 where
  pub id : String
  pub kind : CandidateKind
  pub priority_score : Score
  pub token_cost : ℕ
  pub layer : ℕ
  pub required : Bool
  pub content : String

pub record AssemblyReport : Type 0 where
  pub used_tokens : ℕ
  pub stable_tokens : ℕ
  pub volatile_tokens : ℕ
  pub total_candidates : ℕ
  pub evicted_items : List String
  pub refreshed_evidence : ℕ

abbrev pub est_tokens : String → ℕ
est_tokens text = byte_len text / 4 + 1

-- What `assemble_prompt` puts together, besides the scores and the files.
pub record Sources (Score : Type 0) : Type 0 where
  pub system_static : String
  pub tool_schemas : String
  pub memory : Option String
  pub contract : Option String
  pub instructions : Option String
  pub state_summary : Option String
  pub notices : Option String
  pub task_state : TaskStateSnapshot
  pub active_evidence : List (Evidence Score)
  pub transcript_tail : List String

module _ {Score : Type 0} (scores : Scores Score) where
  abbrev candidate : String → CandidateKind → ℕ → ℕ → Bool → String → String → PromptCandidate Score
  candidate id kind priority layer required costs content = record {
    id = id;
    kind = kind;
    priority_score = scores.of priority;
    token_cost = est_tokens costs;
    layer = layer;
    required = required;
    content = content;
  }

  -- A part that may be missing or blank. The cost is that of its text alone, without the heading.
  abbrev optional_part :
      String → CandidateKind → ℕ → ℕ → String → Option String → List (PromptCandidate Score)
  optional_part id kind priority layer heading none = []
  optional_part id kind priority layer heading (some text) =
      if is_blank text
      then []
      else candidate id kind priority layer false text (concat (heading ∷ text ∷ [])) ∷ []

  abbrev tools_part : String → List (PromptCandidate Score)
  tools_part schemas =
      if is_blank schemas
      then []
      else candidate "tools" tool_schema 900 0 true schemas
          (concat ("TOOLS AVAILABLE:\n" ∷ schemas ∷ []))
        ∷ []

  -- Fresh evidence, or its tombstone.
  abbrev evidence_part : Evidence Score → Option String → PromptCandidate Score
  evidence_part ev none =
      let text = concat ("--- EVIDENCE (" ∷ ev.source_path ∷ ") ---\n" ∷ ev.content ∷ []) in
      record {
        id = ev.evidence_id;
        kind = evidence ev.evidence_id;
        priority_score = ev.score;
        token_cost = est_tokens text;
        layer = 2;
        required = false;
        content = text;
      }
  evidence_part ev (some tombstone) = record {
    id = ev.evidence_id;
    kind = evidence ev.evidence_id;
    priority_score = scores.of 999;
    token_cost = 20;
    layer = 2;
    required = false;
    content = tombstone;
  }

  evidence_parts : FileSystem → ℕ → List (Evidence Score) → List (PromptCandidate Score)
  evidence_parts files now [] = []
  evidence_parts files now (ev ∷ evs) =
      evidence_part ev (stale_tombstone files now ev) ∷ evidence_parts files now evs

  turn_parts : ℕ → List String → List (PromptCandidate Score)
  turn_parts i [] = []
  turn_parts i (turn ∷ turns) =
      candidate (concat ("turn_" ∷ show i ∷ [])) (volatile_turn i) (100 + i) 7 false turn turn
      ∷ turn_parts (i + 1) turns

  abbrev last_parts : Sources Score → List (PromptCandidate Score)
  last_parts src =
      candidate "task_state" task_state_summary 500 6 true (summary src.task_state)
        (concat ("TASK STATE:\n" ∷ summary src.task_state ∷ []))
      ∷ turn_parts 0 src.transcript_tail

  unfoldable pub candidates : FileSystem → ℕ → Sources Score → List (PromptCandidate Score)
  unfolding evidence_parts turn_parts
  candidates files now src =
      candidate "sys_static" system_instruction 1000 0 true src.system_static src.system_static
        ∷ tools_part src.tool_schemas
      ++ optional_part "durable_memory" durable_memory 800 1 "WORKSPACE MEMORY:\n" src.memory
      ++ evidence_parts files now src.active_evidence
      ++ optional_part "execution_notices" execution_notices 850 2 "--- [EXECUTION NOTICES] ---\n"
          src.notices
      ++ optional_part "skill_contract" skill_contract 650 3 "--- [ACTIVE SKILL CONTRACT] ---\n"
          src.contract
      ++ optional_part "skill_instructions" skill_instructions 625 4
          "--- [ACTIVE SKILL INSTRUCTIONS] ---\n" src.instructions
      ++ optional_part "skill_state_summary" skill_state_summary 600 5
          "--- [ACTIVE SKILL STATE] ---\n" src.state_summary
      ++ last_parts src

  abbrev id_before : Ordering → Bool
  id_before Ordering.lt = true
  id_before Ordering.eq = false
  id_before Ordering.gt = false

  -- Is `a` less than `b` in the order of the optional parts?
  abbrev pub precedes : PromptCandidate Score → PromptCandidate Score → Bool
  precedes a b =
      if scores.differs a.priority_score b.priority_score
      then scores.exceeds a.priority_score b.priority_score
      else id_before (compare a.id b.id)

abbrev evicted_text : String → String
evicted_text id = concat ("[Evidence '" ∷ id ∷ "' evicted due to context budget]" ∷ [])

-- The variables of the allocation.
pub record Allocated (Score : Type 0) : Type 0 where
  pub budget_remaining : ℕ
  pub final_selection : List (PromptCandidate Score)
  pub evicted_items : List String

module _ {Score : Type 0} where
  -- A required part that does not fit takes the whole budget.
  unfoldable pub reserve_required : List (PromptCandidate Score) → Allocated Score → Allocated Score
  reserve_required [] state = state
  reserve_required (req ∷ reqs) state =
      let fits = reserve_required reqs (record state {
        budget_remaining = state.budget_remaining - req.token_cost;
        final_selection = push state.final_selection req;
      }) in
      let starved = reserve_required reqs (record state { budget_remaining = 0 }) in
      if leb req.token_cost state.budget_remaining then fits else starved

  -- An optional part that does not fit; evidence leaves a tombstone if that fits. The tombstone is
  -- a copy of the part with another content.
  unfoldable pub evict : PromptCandidate Score → Allocated Score → Allocated Score
  evict opt state =
      let text = evicted_text opt.id in
      let listed = record state { evicted_items = push state.evicted_items opt.id } in
      if is_evidence opt.kind && leb (est_tokens text) state.budget_remaining
      then record listed {
        budget_remaining = state.budget_remaining - est_tokens text;
        final_selection = push state.final_selection (record opt { content = text });
      }
      else listed

  unfoldable pub admit_optional : List (PromptCandidate Score) → Allocated Score → Allocated Score
  unfolding evict
  admit_optional [] state = state
  admit_optional (opt ∷ opts) state =
      let fits = admit_optional opts (record state {
        budget_remaining = state.budget_remaining - opt.token_cost;
        final_selection = push state.final_selection opt;
      }) in
      let evicted = admit_optional opts (evict opt state) in
      if leb opt.token_cost state.budget_remaining then fits else evicted

  -- The sum of the costs of the parts.
  unfoldable pub cost_of : List (PromptCandidate Score) → ℕ
  cost_of [] = 0
  cost_of (c ∷ cs) = c.token_cost + cost_of cs

  abbrev is_stable : PromptCandidate Score → Bool
  is_stable c = leb c.layer 6

module _ {Score : Type 0} (scores : Scores Score) where
  unfoldable pub allocate : ℕ → List (PromptCandidate Score) → Allocated Score
  unfolding reserve_required admit_optional sort_by
  allocate budget cs = admit_optional (sort_by (precedes scores) (keep (λ c. not c.required) cs)) (
      reserve_required (keep (λ c. c.required) cs)
        (record { budget_remaining = budget; final_selection = []; evicted_items = [] }))

  abbrev is_some_text : Option String → Bool
  is_some_text none = false
  is_some_text (some t) = true

  unfoldable pub assemble_prompt : ℕ → FileSystem → ℕ → Sources Score → String × AssemblyReport
  unfolding allocate candidates sort_by cost_of
  assemble_prompt budget files now src =
      let cs = candidates scores files now src in
      let end = allocate budget cs in
      let chosen = sort_by (λ a b. ltb a.layer b.layer) end.final_selection in
      (
        join "\n\n" (map (λ c. c.content) chosen),
        record {
          used_tokens = cost_of chosen;
          stable_tokens = cost_of (keep is_stable chosen);
          volatile_tokens = cost_of (keep (λ c. not (is_stable c)) chosen);
          total_candidates = length cs;
          evicted_items = end.evicted_items;
          refreshed_evidence =
              length (keep (λ ev. is_some_text (stale_tombstone files now ev)) src.active_evidence);
        },
      )
