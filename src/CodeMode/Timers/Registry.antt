-- ===== src/CodeMode/Timers/Registry.antt =====
-- `TimerRegistry` of src/code_mode/runtime/timers.rs. `notified` counts the calls of
-- `Notify::notify_one`. `now` is the time of the call, on the clock of `clock_start`.
use rust_claw_oc.Prelude.{ℕ, ◌+◌, ◌-◌, min, String, List, []}
use rust_claw_oc.CodeMode.Timers
use rust_claw_oc.CodeMode.Timers.{
  RecordedTimerCall, TimerRegistration, PendingTimerState, pending_timer_state, u64_max,
}

pub record TimerRegistry : Type 0 where
  pub timer_calls : List RecordedTimerCall
  pub clock_start : ℕ
  pub notified : ℕ

abbrev pub new_registry : ℕ → TimerRegistry
new_registry clock_start = record { timer_calls = []; clock_start = clock_start; notified = 0 }

abbrev pub monotonic_elapsed_ms : ℕ → ℕ → ℕ
monotonic_elapsed_ms start now = min (now - start) u64_max

unfoldable pub register_timeout : TimerRegistry → ℕ → ℕ → TimerRegistration × TimerRegistry
register_timeout r delay_ms now =
    let (registration, calls) =
      Timers.register_timeout r.timer_calls delay_ms (monotonic_elapsed_ms r.clock_start now) in
    (registration, record r { timer_calls = calls; notified = r.notified + 1 })

unfoldable pub clear_timeout : TimerRegistry → String → TimerRegistry
clear_timeout r timer_id = record r {
  timer_calls = Timers.clear_timeout r.timer_calls timer_id;
  notified = r.notified + 1;
}

unfoldable pub mark_timeout_completed : TimerRegistry → String → TimerRegistry
mark_timeout_completed r timer_id = record r {
  timer_calls = Timers.mark_timeout_completed r.timer_calls timer_id;
  notified = r.notified + 1;
}

unfoldable pub pending_state : TimerRegistry → ℕ → PendingTimerState
pending_state r now = pending_timer_state r.timer_calls (monotonic_elapsed_ms r.clock_start now)
