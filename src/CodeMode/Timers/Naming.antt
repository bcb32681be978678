-- ===== src/CodeMode/Timers/Naming.antt =====
-- The names of timers, and what clearing one by its name does (src/code_mode/runtime/timers.rs).
use rust_claw_oc.Prelude.{
  Bool-cases, inl, inr, ◌≡◌, ◌∙◌, refl, sym, ap, ℕ, suc, ◌+◌, ◌<◌, false, String, List, [], ◌∷◌,
  ◌++◌, length, push, arith, eq_iff, str_eq,
}
use rust_claw_oc.Prelude.Decimal.{show, show-injective}
use text.Mathlib.TextLemmas.{append_cancel_left}
use rust_claw_oc.CodeMode.Timers.{
  RecordedTimerCall, PendingTimerState, timer_name, new_timer, register_timeout, edit_first,
  clear_timeout, mark_timeout_completed, set_cleared, set_completed, is_pending,
  pending_timer_state, pending_from, observe_timer, nothing_pending,
}

timer_name-injective : (a b : ℕ) → timer_name a ≡ timer_name b → a ≡ b
timer_name-injective a b e = show-injective a b (append_cancel_left "timer_" (show a) (show b) e)

-- The timers are named in order, from `suc n` on.
abbrev pub IsNumberedFrom : ℕ → List RecordedTimerCall → Type 0
IsNumberedFrom n [] = Unit {0}
IsNumberedFrom n (c ∷ cs) = (c.timer_id ≡ timer_name (suc n)) × IsNumberedFrom (suc n) cs

push-IsNumberedFrom :
    (n : ℕ) (cs : List RecordedTimerCall) (c : RecordedTimerCall)
    → c.timer_id ≡ timer_name (n + length cs + 1)
    → IsNumberedFrom n cs
    → IsNumberedFrom n (push cs c)
push-IsNumberedFrom n [] c e h = (e ∙ ap timer_name (omega arith), tt)
push-IsNumberedFrom n (d ∷ cs) c e h =
    (h.0, push-IsNumberedFrom (suc n) cs c (e ∙ ap timer_name (omega arith)) h.1)

edit_first-IsNumberedFrom :
    (f : RecordedTimerCall → RecordedTimerCall) (id : String) (n : ℕ) (cs : List RecordedTimerCall)
    → ((c : RecordedTimerCall) → (f c).timer_id ≡ c.timer_id)
    → IsNumberedFrom n cs
    → IsNumberedFrom n (edit_first f id cs)
unfolding edit_first
edit_first-IsNumberedFrom f id n [] same h = h
edit_first-IsNumberedFrom f id n (c ∷ cs) same h =
    ground (arith, edit_first-IsNumberedFrom f id (suc n) cs same h.1, same c ∙ h.0)

timer_name-differs :
    (a b : ℕ) (id : String) → a < b → id ≡ timer_name a → str_eq id (timer_name b) ≡ false
timer_name-differs a b id less e = elim (Bool-cases (str_eq id (timer_name b))) [
  | inr other ↦ other
  | inl equal ↦
      let same : a ≡ b = timer_name-injective a b (sym e ∙ (eq_iff id (timer_name b)).0 equal) in
      ground arith
]

-- To edit the timer that was registered last edits no other.
edit_first-last :
    (f : RecordedTimerCall → RecordedTimerCall) (n : ℕ) (cs : List RecordedTimerCall)
    (c : RecordedTimerCall) (k : ℕ)
    → n + length cs < k
    → c.timer_id ≡ timer_name k
    → IsNumberedFrom n cs
    → edit_first f (timer_name k) (push cs c) ≡ push cs (f c)
unfolding edit_first
edit_first-last f n [] c k le e h = ground (arith, eq_iff c.timer_id (timer_name k))
edit_first-last f n (d ∷ cs) c k le e h =
    let differs : str_eq d.timer_id (timer_name k) ≡ false =
      timer_name-differs (suc n) k d.timer_id (omega arith) h.0 in
    rw (differs, edit_first-last f (suc n) cs c k (omega arith) e h.1) refl

-- The edits of the list of timers.
pub data TimerStep : Type 0 where
  register : ℕ → ℕ → TimerStep
  clear : String → TimerStep
  complete : String → TimerStep

unfoldable pub take_timer_step : TimerStep → List RecordedTimerCall → List RecordedTimerCall
take_timer_step (register delay now) calls = (register_timeout calls delay now).1
take_timer_step (clear id) calls = clear_timeout calls id
take_timer_step (complete id) calls = mark_timeout_completed calls id

unfoldable pub take_timer_steps : List TimerStep → List RecordedTimerCall → List RecordedTimerCall
unfolding take_timer_step
take_timer_steps [] calls = calls
take_timer_steps (s ∷ steps) calls = take_timer_steps steps (take_timer_step s calls)

take_timer_step-IsNumbered :
    (s : TimerStep) (calls : List RecordedTimerCall)
    → IsNumberedFrom 0 calls
    → IsNumberedFrom 0 (take_timer_step s calls)
unfolding take_timer_step register_timeout clear_timeout mark_timeout_completed
take_timer_step-IsNumbered (register delay now) calls h =
    push-IsNumberedFrom 0 calls (new_timer (length calls + 1) delay now)
      (ap timer_name (omega arith)) h
take_timer_step-IsNumbered (clear id) calls h =
    edit_first-IsNumberedFrom set_cleared id 0 calls (λ c. refl) h
take_timer_step-IsNumbered (complete id) calls h =
    edit_first-IsNumberedFrom set_completed id 0 calls (λ c. refl) h

-- Whatever is registered, cleared and completed, the `n`th timer of the list has the `n`th name.
pub take_timer_steps-IsNumbered :
    (steps : List TimerStep) (calls : List RecordedTimerCall)
    → IsNumberedFrom 0 calls
    → IsNumberedFrom 0 (take_timer_steps steps calls)
unfolding take_timer_steps
take_timer_steps-IsNumbered [] calls h = h
take_timer_steps-IsNumbered (s ∷ steps) calls h =
    take_timer_steps-IsNumbered steps (take_timer_step s calls)
      (take_timer_step-IsNumbered s calls h)

pending_from-append :
    (now : ℕ) (s : PendingTimerState) (xs ys : List RecordedTimerCall)
    → pending_from now s (xs ++ ys) ≡ pending_from now (pending_from now s xs) ys
unfolding pending_from
pending_from-append now s [] ys = refl
pending_from-append now s (x ∷ xs) ys = pending_from-append now (observe_timer now x s) xs ys

edit_new_timer :
    (f : RecordedTimerCall → RecordedTimerCall) (calls : List RecordedTimerCall) (delay t now : ℕ)
    → IsNumberedFrom 0 calls
    → is_pending (f (new_timer (length calls + 1) delay t)) ≡ false
    → pending_from now nothing_pending (
        edit_first f
          (timer_name (length calls + 1))
          (push calls (new_timer (length calls + 1) delay t)))
      ≡ pending_from now nothing_pending calls
unfolding pending_from
edit_new_timer f calls delay t now h off =
    let c = new_timer (length calls + 1) delay t in
    ap (pending_from now nothing_pending)
      (edit_first-last f 0 calls c (length calls + 1) (omega arith) refl h)
    ∙ pending_from-append now nothing_pending calls (f c ∷ [])
    ∙ rw off refl

-- After any history, a timer that is registered and then cleared, or completed, by the name that its
-- registration gave leaves what is pending as it was: no other timer goes with it.
pub register_timeout-clear_timeout :
    (steps : List TimerStep) (delay t now : ℕ)
    → (pending_timer_state
          (clear_timeout
            (register_timeout (take_timer_steps steps []) delay t).1
            (register_timeout (take_timer_steps steps []) delay t).0.timer_id)
          now
        ≡ pending_timer_state (take_timer_steps steps []) now)
      × (pending_timer_state
            (mark_timeout_completed
              (register_timeout (take_timer_steps steps []) delay t).1
              (register_timeout (take_timer_steps steps []) delay t).0.timer_id)
            now
          ≡ pending_timer_state (take_timer_steps steps []) now)
unfolding register_timeout clear_timeout mark_timeout_completed pending_timer_state
register_timeout-clear_timeout steps delay t now =
    let calls = take_timer_steps steps [] in
    let numbered = take_timer_steps-IsNumbered steps [] tt in
    (
      edit_new_timer set_cleared calls delay t now numbered refl,
      edit_new_timer set_completed calls delay t now numbered refl,
    )
