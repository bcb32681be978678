-- ===== src/Context/TaskState.antt =====
-- src/task_state.rs: the plan of a session and its summary. The file is a value; its JSON text is
-- serde_json's.
use rust_claw_oc.Prelude.{
  ℕ, ◌+◌, String, Bool, false, not, ◌&&◌, Option, none, some, List, [], ◌∷◌, ◌++◌, is_empty,
  if◌then◌else◌, concat, trim, str_eq, unwrap_or, Result, ok, err,
}
use rust_claw_oc.Prelude.Decimal.{show}

pub record PlanStep : Type 0 where
  pub step : String
  -- pending, in_progress or completed
  pub status : String
  pub note : Option String

pub record TaskStateSnapshot : Type 0 where
  pub schema_version : ℕ
  pub task_id : Option String
  pub derived_from_event_id : Option String
  pub derived_at : ℕ
  pub status : String
  pub goal : Option String
  pub current_step : Option String
  pub finish_summary : Option String
  pub plan_steps : List PlanStep

abbrev pub current_schema_version : ℕ
current_schema_version = 1

abbrev pub empty_state : TaskStateSnapshot
empty_state = record {
  schema_version = current_schema_version;
  task_id = none;
  derived_from_event_id = none;
  derived_at = 0;
  status = "initialized";
  goal = none;
  current_step = none;
  finish_summary = none;
  plan_steps = [];
}

-- `writeln!` of the pieces
abbrev line : List String → String
line pieces = concat (pieces ++ "\n" ∷ [])

abbrev optional_line : String → Option String → List String
optional_line label none = []
optional_line label (some text) = line (label ∷ text ∷ []) ∷ []

-- The first step that is not completed.
active_step : List PlanStep → Option PlanStep
active_step [] = none
active_step (p ∷ ps) =
    let rest = active_step ps in if str_eq p.status "completed" then rest else some p

step_line : Option String → List PlanStep → List String
unfolding active_step
step_line (some step) steps = line ("- Current step: " ∷ step ∷ []) ∷ []
step_line none steps = elim (active_step steps) [
  | none ↦ []
  | some p ↦ line ("- Current step: " ∷ p.step ∷ " (" ∷ p.status ∷ ")" ∷ []) ∷ []
]

abbrev note_text : String → String
note_text note = if str_eq note "" then " " else concat (" - " ∷ note ∷ [])

plan_lines : ℕ → List PlanStep → List String
plan_lines i [] = []
plan_lines i (p ∷ ps) =
    line (
      "  [" ∷ show i ∷ "] " ∷ p.step ∷ " (" ∷ p.status ∷ ")" ∷ note_text (unwrap_or p.note "") ∷ [])
    ∷ plan_lines (i + 1) ps

unfoldable pub summary : TaskStateSnapshot → String
unfolding step_line plan_lines
summary s = trim (
    concat (
      (if str_eq s.status "finished"
        then []
        else line ("Current task (" ∷ s.status ∷ ")" ∷ []) ∷ [])
      ++ optional_line "" s.finish_summary
      ++ optional_line "- Goal: " s.goal
      ++ step_line s.current_step s.plan_steps
      ++ (if not (is_empty s.plan_steps) && not (str_eq s.status "finished")
          then line ("\nPlan steps:" ∷ []) ∷ plan_lines 0 s.plan_steps
          else [])))

-- `load` of the file's text, if there is a file that can be read; an invalid text is an empty state.
unfoldable pub load_state :
    (String → Option TaskStateSnapshot)
    → Result String (Option String)
    → Result String TaskStateSnapshot
load_state parse (err e) = err e
load_state parse (ok none) = ok empty_state
load_state parse (ok (some content)) = ok (unwrap_or (parse content) empty_state)

unfoldable pub has_active_plan : Result String TaskStateSnapshot → Bool
has_active_plan (err e) = false
has_active_plan (ok state) = not (is_empty state.plan_steps) && str_eq state.status "in_progress"
