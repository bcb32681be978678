-- ===== src/CodeMode/Timers.antt =====
-- The timers of a cell (src/code_mode/runtime/timers.rs). `Vec<RecordedTimerCall>` is a list, and the
-- in-place edits return the new list. Times are milliseconds in u64.
pub mod Registry
pub mod Pending
pub mod Naming
mod Tests
use rust_claw_oc.Prelude.{
  ℕ, ◌+◌, ◌-◌, min, Bool, true, false, not, ◌&&◌, ◌||◌, String, Option, none, some, List, [], ◌∷◌,
  length, push, concat, if◌then◌else◌, ltb, ◌==◌, str_eq,
}
use rust_claw_oc.Prelude.Decimal.{show}

abbrev pub u64_max : ℕ
u64_max = 18446744073709551615

-- `u64::saturating_add`
abbrev pub saturating_add : ℕ → ℕ → ℕ
saturating_add a b = min (a + b) u64_max

pub record RecordedTimerCall : Type 0 where
  pub timer_id : String
  pub delay_ms : ℕ
  pub due_at_ms : ℕ
  pub completed : Bool
  pub cleared : Bool

pub record TimerRegistration : Type 0 where
  pub timer_id : String

pub record PendingTimerState : Type 0 where
  pub pending_timers : ℕ
  pub next_timer_id : Option String
  pub resume_after_ms : Option ℕ
  pub due_timer_ids : List String

unfoldable pub has_pending_timers : PendingTimerState → Bool
has_pending_timers s = ltb 0 s.pending_timers

-- The name of the `n`th timer.
abbrev pub timer_name : ℕ → String
timer_name n = concat ("timer_" ∷ show n ∷ [])

abbrev pub new_timer : ℕ → ℕ → ℕ → RecordedTimerCall
new_timer n delay now = record {
  timer_id = timer_name n;
  delay_ms = delay;
  due_at_ms = saturating_add now delay;
  completed = false;
  cleared = false;
}

unfoldable pub register_timeout :
    List RecordedTimerCall → ℕ → ℕ → TimerRegistration × List RecordedTimerCall
register_timeout calls delay_ms now_ms = (
  record { timer_id = timer_name (length calls + 1) },
  push calls (new_timer (length calls + 1) delay_ms now_ms),
)

-- `iter_mut().find(..)` with the edit of what it finds.
edit_first :
    (RecordedTimerCall → RecordedTimerCall)
    → String
    → List RecordedTimerCall
    → List RecordedTimerCall
edit_first f timer_id [] = []
edit_first f timer_id (c ∷ cs) =
    let rest = edit_first f timer_id cs in if str_eq c.timer_id timer_id then f c ∷ cs else c ∷ rest

abbrev pub set_cleared : RecordedTimerCall → RecordedTimerCall
set_cleared c = record c { cleared = true }

abbrev pub set_completed : RecordedTimerCall → RecordedTimerCall
set_completed c = record c { completed = true }

unfoldable pub clear_timeout : List RecordedTimerCall → String → List RecordedTimerCall
unfolding edit_first
clear_timeout calls timer_id = edit_first set_cleared timer_id calls

unfoldable pub mark_timeout_completed : List RecordedTimerCall → String → List RecordedTimerCall
unfolding edit_first
mark_timeout_completed calls timer_id = edit_first set_completed timer_id calls

abbrev pub remaining_ms : ℕ → RecordedTimerCall → ℕ
remaining_ms now c = c.due_at_ms - now

abbrev pub is_pending : RecordedTimerCall → Bool
is_pending c = not (c.cleared || c.completed)

abbrev pub should_replace : Option ℕ → ℕ → Bool
should_replace none remaining = true
should_replace (some current) remaining = ltb remaining current

-- The body of the loop, for a timer that is neither cleared nor completed.
abbrev pub observe_pending : ℕ → RecordedTimerCall → PendingTimerState → PendingTimerState
observe_pending now c s =
    let replace = should_replace s.resume_after_ms (remaining_ms now c) in
    record {
      pending_timers = s.pending_timers + 1;
      next_timer_id = if replace then some c.timer_id else s.next_timer_id;
      resume_after_ms = if replace then some (remaining_ms now c) else s.resume_after_ms;
      due_timer_ids =
          if remaining_ms now c == 0 then push s.due_timer_ids c.timer_id else s.due_timer_ids;
    }

abbrev pub observe_timer : ℕ → RecordedTimerCall → PendingTimerState → PendingTimerState
observe_timer now c s = if is_pending c then observe_pending now c s else s

pending_from : ℕ → PendingTimerState → List RecordedTimerCall → PendingTimerState
pending_from now s [] = s
pending_from now s (c ∷ cs) = pending_from now (observe_timer now c s) cs

abbrev pub nothing_pending : PendingTimerState
nothing_pending = record {
  pending_timers = 0;
  next_timer_id = none;
  resume_after_ms = none;
  due_timer_ids = [];
}

unfoldable pub pending_timer_state : List RecordedTimerCall → ℕ → PendingTimerState
unfolding pending_from
pending_timer_state calls now_ms = pending_from now_ms nothing_pending calls
