-- ===== src/CodeMode/Response/Tests.antt =====
-- Tests of src/code_mode/response.rs.
use rust_claw_oc.Prelude.{String, ◌≡◌, refl, false, none, some, [], ◌∷◌, trim, is_blank, Option}
use rust_claw_oc.Prelude.Decimal.{show}
use rust_claw_oc.CodeMode.Response.{ExecRunResult, running, failed, explicit_flush}
use rust_claw_oc.CodeMode.Response.Render.{render_output}

abbrev as_str : String → Option String
as_str s = some s

abbrev itself : String → String
itself s = s

abbrev failure_report : ExecRunResult String
failure_report = record {
  cell_id = "cell-7";
  output_text = "partial output";
  return_value = none;
  flush_value = none;
  lifecycle = failed;
  progress_kind = none;
  flushed = false;
  waiting_on_tool_request_id = none;
  waiting_on_timer_ms = none;
  notifications = "half done" ∷ [];
  failure = some "ReferenceError: boom";
  cancellation = none;
  nested_tool_calls = 2;
  truncated = false;
}

failure_rendered :
    render_output as_str itself failure_report
    ≡ "Code mode cell `cell-7` failed after 2 nested tool call(s).\nText output:\npartial output\nFailure:\nReferenceError: boom\nNotifications:\n- half done"
unfolding render_output trim is_blank show
failure_rendered = refl

flush_rendered :
    render_output as_str itself (record failure_report {
      lifecycle = running;
      progress_kind = some explicit_flush;
      output_text = " ";
      flush_value = some "42";
      failure = none;
      notifications = [];
    })
    ≡ "Code mode cell `cell-7` flushed after 2 nested tool call(s). Call `wait` to sync more output.\nFlush value:\n42"
unfolding render_output trim is_blank show
flush_rendered = refl
