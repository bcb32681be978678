-- ===== src/CodeMode/Timers/Tests.antt =====
-- Two timers, of which one is cleared (src/code_mode/runtime/timers.rs).
use rust_claw_oc.Prelude.{◌≡◌, List, [], ◌∷◌, length, keep}
use rust_claw_oc.CodeMode.Timers.{
  RecordedTimerCall, register_timeout, clear_timeout, mark_timeout_completed, pending_timer_state,
  is_pending,
}
use rust_claw_oc.CodeMode.Timers.Naming.{
  TimerStep, register, clear, complete, take_timer_steps, register_timeout-clear_timeout,
}
use rust_claw_oc.CodeMode.Timers.Pending.{
  timer_ids, is_due, IsEarliest, pending_timer_state-IsEarliest,
}

abbrev history : List TimerStep
history = register 25 1000 ∷ register 0 1000 ∷ complete "timer_1" ∷ clear "timer_9" ∷ []

abbrev timers : List RecordedTimerCall
timers = take_timer_steps history []

register_timeout-clear_timeout_example :
    (pending_timer_state
        (clear_timeout
          (register_timeout timers 40 1010).1
          (register_timeout timers 40 1010).0.timer_id)
        1020
      ≡ pending_timer_state timers 1020)
    × (pending_timer_state
          (mark_timeout_completed
            (register_timeout timers 40 1010).1
            (register_timeout timers 40 1010).0.timer_id)
          1020
        ≡ pending_timer_state timers 1020)
register_timeout-clear_timeout_example = register_timeout-clear_timeout history 40 1010 1020

pending_timer_state-IsEarliest_example :
    ((pending_timer_state timers 1025).pending_timers ≡ length (keep is_pending timers))
    × ((pending_timer_state timers 1025).due_timer_ids ≡ timer_ids (keep (is_due 1025) timers))
    × IsEarliest 1025 timers
        (pending_timer_state timers 1025).next_timer_id
        (pending_timer_state timers 1025).resume_after_ms
pending_timer_state-IsEarliest_example = pending_timer_state-IsEarliest timers 1025
