-- ===== src/CodeMode/Driver/Delivery.antt =====
-- Which of the worker's events an update of the driver carries (src/code_mode/driver.rs).
use mathlib.Core.List.{append_assoc, append-nil}
use mathlib.Core.Path.{subst}
use rust_claw_oc.Prelude.{
  ℕ, ◌≡◌, ◌≢◌, refl, sym, Bool, true, false, Option, none, some, List, [], ◌∷◌, ◌++◌, push, map, ok,
  err, All,
}
use rust_claw_oc.CodeMode.Protocol.{
  RuntimeEvent, text, notification, flush, waiting_for_timer, tool_call_requested, tool_call_done,
  worker_completed,
}
use rust_claw_oc.CodeMode.Driver.{
  CellStatus, DriverUpdate, progress, pending_tool, idle, terminal, Arrival, received, timer_fired,
  disconnected, Outcome, ready, waiting, gather, next_update,
}

module _ {V : Type 0} where
  abbrev pub events_of : List (Arrival V) → List (RuntimeEvent V)
  events_of [] = []
  events_of (received e ∷ arrived) = e ∷ events_of arrived
  events_of (timer_fired ∷ arrived) = events_of arrived
  events_of (disconnected ∷ arrived) = events_of arrived

  -- The event that a terminal status stands for: it is consumed and not listed.
  abbrev pub closing : CellStatus V → List (RuntimeEvent V)
  closing (terminal r) = worker_completed (ok r) ∷ []
  closing _ = []

  abbrev Account :
      CellStatus V → List (RuntimeEvent V) → List (RuntimeEvent V) → List (RuntimeEvent V) → Type 0
  Account idle total es rest = es ≡ []
  Account progress total es rest = total ≡ es ++ rest
  Account pending_tool total es rest = total ≡ es ++ rest
  Account (terminal r) total es rest = total ≡ es ++ worker_completed (ok r) ∷ rest

  abbrev Delivers : List (RuntimeEvent V) → Outcome V → Type 0
  Delivers total (ready (ok u) rest) = Account u.status total u.events (events_of rest)
  Delivers total (ready (err e) rest) = Unit
  Delivers total (waiting held) = total ≡ held

  push-then :
      (es : List (RuntimeEvent V)) (e : RuntimeEvent V) (rest : List (RuntimeEvent V))
      → es ++ e ∷ rest ≡ push es e ++ rest
  push-then es e rest = sym (append_assoc es (e ∷ []) rest)

  gather-Delivers :
      (c t : Bool) (es : List (RuntimeEvent V)) (arrived : List (Arrival V))
      → Delivers (es ++ events_of arrived) (gather c t es arrived)
  unfolding gather
  gather-Delivers c t es [] = append-nil es
  gather-Delivers c true es (timer_fired ∷ arrived) = refl
  gather-Delivers c false es (timer_fired ∷ arrived) = gather-Delivers c false es arrived
  gather-Delivers c t es (disconnected ∷ arrived) = tt
  gather-Delivers c t es (received (text n s) ∷ arrived) =
      rw (push-then es (text n s) (events_of arrived))
        (gather-Delivers c t (push es (text n s)) arrived)
  gather-Delivers c t es (received (notification n s) ∷ arrived) =
      rw (push-then es (notification n s) (events_of arrived))
        (gather-Delivers c t (push es (notification n s)) arrived)
  gather-Delivers c t es (received (tool_call_done n s) ∷ arrived) =
      rw (push-then es (tool_call_done n s) (events_of arrived))
        (gather-Delivers c t (push es (tool_call_done n s)) arrived)
  gather-Delivers c t es (received (flush n v) ∷ arrived) =
      push-then es (flush n v) (events_of arrived)
  gather-Delivers c t es (received (waiting_for_timer n v) ∷ arrived) =
      push-then es (waiting_for_timer n v) (events_of arrived)
  gather-Delivers c t es (received (tool_call_requested r) ∷ arrived) =
      push-then es (tool_call_requested r) (events_of arrived)
  gather-Delivers c t es (received (worker_completed (ok r)) ∷ arrived) = refl
  gather-Delivers c t es (received (worker_completed (err r)) ∷ arrived) = tt

  next_update-Delivers :
      (c : Bool) (timeout : Option ℕ) (arrived : List (Arrival V))
      → Delivers (events_of arrived) (next_update c timeout arrived)
  unfolding next_update
  next_update-Delivers c none arrived = gather-Delivers c false [] arrived
  next_update-Delivers c (some n) arrived = gather-Delivers c true [] arrived

  total_of_Account :
      (st : CellStatus V) (total es rest : List (RuntimeEvent V))
      → st ≢ idle
      → Account st total es rest
      → total ≡ es ++ (closing st ++ rest)
  total_of_Account idle total es rest h a = absurd (h refl)
  total_of_Account progress total es rest h a = a
  total_of_Account pending_tool total es rest h a = a
  total_of_Account (terminal r) total es rest h a = a

  -- An update whose status is not idle carries, in order, every event that was received before it
  -- was made: with the completion that a terminal status stands for, and with what the channel
  -- still holds, it is exactly what arrived.
  pub next_update-conserves :
      (c : Bool) (timeout : Option ℕ) (arrived rest : List (Arrival V)) (u : DriverUpdate V)
      → next_update c timeout arrived ≡ ready (ok u) rest
      → u.status ≢ idle
      → events_of arrived ≡ u.events ++ (closing u.status ++ events_of rest)
  next_update-conserves c timeout arrived rest u e h =
      total_of_Account u.status (events_of arrived) u.events (events_of rest) h
        (subst (Delivers (events_of arrived)) e (next_update-Delivers c timeout arrived))

  abbrev pub IsQuiet : RuntimeEvent V → Type 0
  IsQuiet (text n s) = Unit
  IsQuiet (notification n s) = Unit
  IsQuiet (tool_call_done n i) = Unit
  IsQuiet _ = ⊥

  gather-drops :
      (c : Bool) (es held : List (RuntimeEvent V)) (rest : List (Arrival V))
      → All IsQuiet held
      → gather c true es (map received held ++ timer_fired ∷ rest)
        ≡ ready (ok (record { events = []; status = idle })) rest
  unfolding gather
  gather-drops c es [] rest h = refl
  gather-drops c es (text n s ∷ held) rest h = gather-drops c (push es (text n s)) held rest h.1
  gather-drops c es (notification n s ∷ held) rest h =
      gather-drops c (push es (notification n s)) held rest h.1
  gather-drops c es (tool_call_done n i ∷ held) rest h =
      gather-drops c (push es (tool_call_done n i)) held rest h.1
  gather-drops c es (_ ∷ held) rest h = absurd h.0

  -- Text, notifications and finished tool calls that arrive before the idle timer fires are in no
  -- update: the idle update is empty, and the channel no longer holds them.
  pub next_update-idle_drops :
      (c : Bool) (timeout : ℕ) (held : List (RuntimeEvent V)) (rest : List (Arrival V))
      → All IsQuiet held
      → next_update c (some timeout) (map received held ++ timer_fired ∷ rest)
        ≡ ready (ok (record { events = []; status = idle })) rest
  unfolding next_update
  next_update-idle_drops c timeout held rest h = gather-drops c [] held rest h
