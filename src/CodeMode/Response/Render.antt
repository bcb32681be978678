-- ===== src/CodeMode/Response/Render.antt =====
-- The text of a report (src/code_mode/response.rs, `render_output`). A JSON value is read by two
-- functions of serde_json: `as_str` and `to_string`.
use rust_claw_oc.Prelude.{
  ℕ, String, Bool, true, false, Option, none, some, is_some, List, [], ◌∷◌, ◌++◌, map, is_empty,
  concat, join, trim, is_blank, str_eq, if◌then◌else◌, ◌||◌,
}
use rust_claw_oc.Prelude.Decimal.{show}
use rust_claw_oc.Context.{truncate_chars}
use rust_claw_oc.CodeMode.Response.{
  ExecRunResult, ExecLifecycle, ExecProgressKind, running, completed, failed, cancelled,
  explicit_flush, auto_flush,
}

-- `format!` with the cell, a text and the number of calls.
abbrev cell_status : String → ℕ → String → String → String
cell_status cell_id calls did more = concat (
    "Code mode cell `"
    ∷ cell_id
    ∷ "` "
    ∷ did
    ∷ " after "
    ∷ show calls
    ∷ " nested tool call(s)."
    ∷ more
    ∷ [])

abbrev progress_status : String → ℕ → ExecProgressKind → String
progress_status cell_id calls explicit_flush =
    cell_status cell_id calls "flushed" " Call `wait` to sync more output."
progress_status cell_id calls auto_flush =
    cell_status cell_id calls "published an automatic progress update"
      " Call `wait` to sync more output."

abbrev waiting_status : String → ℕ → Option String → Bool → String
waiting_status cell_id calls (some id) timer =
    cell_status cell_id calls (concat ("is processing nested tool request " ∷ id ∷ []))
      " Call `wait` to poll for more output."
waiting_status cell_id calls none true =
    cell_status cell_id calls "is still running in the background"
      " Call `wait` to poll for more output."
waiting_status cell_id calls none false =
    cell_status cell_id calls "is still running" " Call `wait` to poll for more output."

abbrev lifecycle_status :
    String → ℕ → Option ExecProgressKind → Option String → Bool → ExecLifecycle → String
lifecycle_status cell_id calls kind request timer cancelled =
    cell_status cell_id calls "was cancelled" ""
lifecycle_status cell_id calls kind request timer failed = cell_status cell_id calls "failed" ""
lifecycle_status cell_id calls kind request timer completed =
    cell_status cell_id calls "completed" ""
lifecycle_status cell_id calls (some kind) request timer running =
    progress_status cell_id calls kind
lifecycle_status cell_id calls none request timer running =
    waiting_status cell_id calls request timer

abbrev text_lines : String → List String
text_lines text = if is_blank text then [] else "Text output:" ∷ trim text ∷ []

abbrev reason_lines : String → String → List String
reason_lines label reason = if is_blank reason then [] else label ∷ reason ∷ []

abbrev notification_lines : List String → List String
notification_lines notifications =
    if is_empty notifications
    then []
    else "Notifications:" ∷ map (λ item. concat ("- " ∷ item ∷ [])) notifications

abbrev truncation_lines : Bool → List String
truncation_lines true = "[output truncated to stay within the code-mode budget]" ∷ []
truncation_lines false = []

abbrev pub default_status_line : {V : Type 0} → ExecRunResult V → String
default_status_line r =
    lifecycle_status r.cell_id r.nested_tool_calls r.progress_kind r.waiting_on_tool_request_id
      (is_some r.waiting_on_timer_ms) r.lifecycle

module _ {V : Type 0} (as_str : V → Option String) (to_string : V → String) where
  abbrev rendered_value : V → String
  rendered_value value = elim (as_str value) [ none ↦ to_string value | some s ↦ s ]

  abbrev value_lines : String → Option V → List String
  value_lines label none = []
  value_lines label (some value) =
      let rendered = rendered_value value in
      if is_blank rendered || str_eq rendered "null"
      then []
      else label ∷ truncate_chars rendered 4000 ∷ []

  -- How the run has ended, or its value.
  abbrev outcome_lines : Option String → Option String → Option V → Option V → List String
  outcome_lines (some reason) failure flush returned = reason_lines "Cancellation reason:" reason
  outcome_lines none (some error) flush returned = reason_lines "Failure:" error
  outcome_lines none none (some value) returned = value_lines "Flush value:" (some value)
  outcome_lines none none none returned = value_lines "Return value:" returned

  unfoldable pub render_output : ExecRunResult V → String
  render_output r = join "\n" (
      (default_status_line r ∷ [])
      ++ text_lines r.output_text
      ++ outcome_lines r.cancellation r.failure r.flush_value r.return_value
      ++ notification_lines r.notifications
      ++ truncation_lines r.truncated)
