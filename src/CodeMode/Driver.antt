-- ===== src/CodeMode/Driver.antt =====
-- src/code_mode/driver.rs: how the events of a worker are gathered into one update of the host.
-- The channel and the idle timer are an explicit schedule: what each `try_recv`, `recv` or
-- `sleep` of the loop yields, in order.
pub mod Delivery
mod Tests
use rust_claw_oc.Prelude.{
  ℕ, String, Bool, true, false, Option, none, some, List, [], ◌∷◌, push, Result, ok, err,
  if◌then◌else◌,
}
use rust_claw_oc.Tools.Protocol.{ToolError, execution_failed}
use rust_claw_oc.CodeMode.Protocol.{
  RuntimeEvent, RuntimeTerminalResult, text, notification, flush, waiting_for_timer,
  tool_call_requested, tool_call_done, worker_completed,
}

pub data CellStatus (V : Type 0) : Type 0 where
  progress pending_tool idle : CellStatus V
  terminal : RuntimeTerminalResult V → CellStatus V

pub record DriverUpdate (V : Type 0) : Type 0 where
  pub events : List (RuntimeEvent V)
  pub status : CellStatus V

-- What the loop meets next: an event, the end of its `sleep(timeout)`, or a closed channel.
pub data Arrival (V : Type 0) : Type 0 where
  received : RuntimeEvent V → Arrival V
  timer_fired : Arrival V
  disconnected : Arrival V

-- `ready` with what the schedule still holds; `waiting` when the schedule ends first.
pub data Outcome (V : Type 0) : Type 0 where
  ready : Result ToolError (DriverUpdate V) → List (Arrival V) → Outcome V
  waiting : List (RuntimeEvent V) → Outcome V

module _ {V : Type 0} where
  abbrev update : List (RuntimeEvent V) → CellStatus V → DriverUpdate V
  update es st = record { events = es; status = st }

  -- The buffer after the call, and the update that ends the batch, if the event is one that does.
  pub classify_event :
      List (RuntimeEvent V)
      → RuntimeEvent V
      → List (RuntimeEvent V) × Result ToolError (Option (DriverUpdate V))
  classify_event events (tool_call_requested req) =
      ([], ok (some (update (push events (tool_call_requested req)) pending_tool)))
  classify_event events (worker_completed (ok result)) =
      ([], ok (some (update events (terminal result))))
  classify_event events (worker_completed (err message)) = (events, err (execution_failed message))
  classify_event events (flush seq value) =
      ([], ok (some (update (push events (flush seq value)) progress)))
  classify_event events (waiting_for_timer seq after) =
      ([], ok (some (update (push events (waiting_for_timer seq after)) progress)))
  classify_event events event = (push events event, ok none)

  -- `cancelled` is `cancel_flag` when the channel is found closed. Without a timeout no timer fires.
  pub gather : Bool → Bool → List (RuntimeEvent V) → List (Arrival V) → Outcome V
  unfolding classify_event
  gather cancelled has_timeout events [] = waiting events
  gather cancelled has_timeout events (timer_fired ∷ rest) =
      let onward = gather cancelled has_timeout events rest in
      if has_timeout then ready (ok (update [] idle)) rest else onward
  gather cancelled has_timeout events (disconnected ∷ rest) =
      ready
        (err (
          execution_failed (
            if cancelled
            then "Code mode cell execution was cancelled."
            else "Worker thread unexpectedly terminated.")))
        rest
  gather cancelled has_timeout events (received event ∷ rest) =
      let (events', outcome) = classify_event events event in
      let onward = gather cancelled has_timeout events' rest in
      elim outcome [
        | ok none ↦ onward
        | ok (some u) ↦ ready (ok u) rest
        | err e ↦ ready (err e) rest
      ]

  unfoldable pub next_update : Bool → Option ℕ → List (Arrival V) → Outcome V
  unfolding gather
  next_update cancelled none arrivals = gather cancelled false [] arrivals
  next_update cancelled (some idle_timeout) arrivals = gather cancelled true [] arrivals
