-- ===== src/Tools/Protocol.antt =====
-- src/tools/protocol.rs and src/trace/model.rs: the error and status types of every tool.
use rust_claw_oc.Prelude.{String, [], ◌∷◌, concat}

pub data ToolError : Type 0 where
  execution_failed : String → ToolError
  invalid_arguments : String → ToolError
  timeout : ToolError
  cancelled : String → ToolError
  -- the text of the `std::io::Error`
  io_error : String → ToolError

-- The `Display` instance that `thiserror` derives.
unfoldable pub display : ToolError → String
display (execution_failed s) = concat ("Execution failed: " ∷ s ∷ [])
display (invalid_arguments s) = concat ("Invalid arguments: " ∷ s ∷ [])
display timeout = "Timeout"
display (cancelled s) = concat ("Cancelled: " ∷ s ∷ [])
display (io_error s) = concat ("IO error: " ∷ s ∷ [])

pub data TraceStatus : Type 0 where
  ok error cancelled timed_out yielded retrying skipped running : TraceStatus
