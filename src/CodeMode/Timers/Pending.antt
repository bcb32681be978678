-- ===== src/CodeMode/Timers/Pending.antt =====
-- What `pending_timer_state` reports (src/code_mode/runtime/timers.rs).
use rust_claw_oc.Prelude.{
  Bool-cases, All-append, All-map, ◌≡◌, ◌∙◌, refl, sym, ap, ℕ, ◌+◌, ◌≤◌, ◌<◌, Bool, true, false,
  ◌&&◌, ◌==◌, String, Option, none, some, List, [], ◌∷◌, ◌++◌, length, push, keep, map, All, inl,
  inr, arith,
}
use mathlib.Core.List.{append_assoc, append-nil}
use mathlib.Core.Path.{subst}
use rust_claw_oc.CodeMode.Timers.{
  should_replace, RecordedTimerCall, PendingTimerState, pending_timer_state, pending_from,
  observe_timer, nothing_pending, remaining_ms, is_pending,
}

abbrev pub timer_ids : List RecordedTimerCall → List String
timer_ids cs = map (λ c. c.timer_id) cs

abbrev pub is_due : ℕ → RecordedTimerCall → Bool
is_due now c = is_pending c && (remaining_ms now c == 0)

observe_timer_counts :
    (now : ℕ) (c : RecordedTimerCall) (s : PendingTimerState)
    → ((observe_timer now c s).pending_timers
        ≡ s.pending_timers + length (keep is_pending (c ∷ [])))
      × ((observe_timer now c s).due_timer_ids
          ≡ s.due_timer_ids ++ timer_ids (keep (is_due now) (c ∷ [])))
observe_timer_counts now c s = ground (arith, append-nil s.due_timer_ids)

-- The counters of the loop.
pending_from_counts :
    (now : ℕ) (s : PendingTimerState) (cs : List RecordedTimerCall)
    → ((pending_from now s cs).pending_timers ≡ s.pending_timers + length (keep is_pending cs))
      × ((pending_from now s cs).due_timer_ids
          ≡ s.due_timer_ids ++ timer_ids (keep (is_due now) cs))
unfolding pending_from
pending_from_counts now s [] = (omega arith, sym (append-nil s.due_timer_ids))
pending_from_counts now s (c ∷ cs) =
    let (n, ids) = pending_from_counts now (observe_timer now c s) cs in
    let (n1, ids1) = observe_timer_counts now c s in
    (
      n ∙ ground (arith, n1),
      ids
          ∙ ap (λ l. l ++ timer_ids (keep (is_due now) cs)) ids1
          ∙ append_assoc s.due_timer_ids (timer_ids (keep (is_due now) (c ∷ [])))
              (timer_ids (keep (is_due now) cs))
          ∙ ap (λ l. s.due_timer_ids ++ l) (ground arith),
    )

-- The timer named `id` is pending with `m` left, is the first of the list with so little left, and
-- without a name no timer is pending.
abbrev pub IsEarliest : ℕ → List RecordedTimerCall → Option String → Option ℕ → Type 0
IsEarliest now cs none none = All (λ c. is_pending c ≡ false) cs
IsEarliest now cs (some id) (some m) =
    (before : List RecordedTimerCall) × (c : RecordedTimerCall) × (after : List RecordedTimerCall)
    × (cs ≡ before ++ c ∷ after)
    × (c.timer_id ≡ id)
    × (is_pending c ≡ true)
    × (remaining_ms now c ≡ m)
    × All (λ b. is_pending b ≡ true → m < remaining_ms now b) before
    × All (λ a. is_pending a ≡ true → m ≤ remaining_ms now a) after
IsEarliest now cs none (some m) = ⊥
IsEarliest now cs (some id) none = ⊥

abbrev IsLater : ℕ → ℕ → RecordedTimerCall → Type 0
IsLater now m b = is_pending b ≡ true → m < remaining_ms now b

abbrev IsNoSooner : ℕ → ℕ → RecordedTimerCall → Type 0
IsNoSooner now m b = is_pending b ≡ true → m ≤ remaining_ms now b

-- A timer that does not come before the earliest leaves it.
IsEarliest-kept :
    (now : ℕ) (c : RecordedTimerCall) (cs : List RecordedTimerCall) (id : Option String) (m : ℕ)
    → IsNoSooner now m c
    → IsEarliest now cs id (some m)
    → IsEarliest now (push cs c) id (some m)
IsEarliest-kept now c cs (some id) m later (before, d, after, e, named, pending, rest, h1, h2) = (
  before,
  d,
  push after c,
  ap (λ l. push l c) e ∙ append_assoc before (d ∷ after) (c ∷ []),
  named,
  pending,
  rest,
  h1,
  All-append (IsNoSooner now m) after (c ∷ []) h2 (later, tt),
)
IsEarliest-kept now c cs none m later h = elim h [ ]

IsEarliest-skipped :
    (now : ℕ) (c : RecordedTimerCall) (cs : List RecordedTimerCall) (id : Option String)
    (m : Option ℕ)
    → is_pending c ≡ false
    → IsEarliest now cs id m
    → IsEarliest now (push cs c) id m
IsEarliest-skipped now c cs none none off h =
    All-append (λ c. is_pending c ≡ false) cs (c ∷ []) h (off, tt)
IsEarliest-skipped now c cs (some id) none off h = elim h [ ]
IsEarliest-skipped now c cs id (some m) off h = IsEarliest-kept now c cs id m (λ on. ground arith) h

-- A timer that comes before all others replaces it.
IsEarliest-replaced :
    (now : ℕ) (c : RecordedTimerCall) (cs : List RecordedTimerCall) (id : Option String)
    (m : Option ℕ)
    → is_pending c ≡ true
    → should_replace m (remaining_ms now c) ≡ true
    → IsEarliest now cs id m
    → IsEarliest now (push cs c) (some c.timer_id) (some (remaining_ms now c))
IsEarliest-replaced now c cs none none on new h = (
  cs,
  c,
  [],
  refl,
  refl,
  on,
  refl,
  All-map (λ b. is_pending b ≡ false) (IsLater now (remaining_ms now c)) cs
      (λ b off on'. ground arith) h,
  tt,
)
IsEarliest-replaced now c cs (some id) (some m) on new
      (before, d, after, e, named, pending, rest, h1, h2) =
    let k = remaining_ms now c in
    let sooner : k < m = ground arith in
    (
      cs,
      c,
      [],
      refl,
      refl,
      on,
      refl,
      subst (All (IsLater now k)) (sym e) (
          All-append (IsLater now k) before (d ∷ after)
            (All-map (IsLater now m) (IsLater now k) before (λ b f on'. omega (arith, f on')) h1)
            (
              λ on'. omega arith,
              All-map (IsNoSooner now m) (IsLater now k) after (λ b f on'. omega (arith, f on')) h2,
            )),
      tt,
    )
IsEarliest-replaced now c cs none (some m) on new h = elim h [ ]
IsEarliest-replaced now c cs (some id) none on new h = elim h [ ]

IsEarliest-unreplaced :
    (now : ℕ) (c : RecordedTimerCall) (cs : List RecordedTimerCall) (id : Option String)
    (m : Option ℕ)
    → should_replace m (remaining_ms now c) ≡ false
    → IsEarliest now cs id m
    → IsEarliest now (push cs c) id m
IsEarliest-unreplaced now c cs id none old h = ground arith
IsEarliest-unreplaced now c cs id (some m) old h =
    IsEarliest-kept now c cs id m (λ on. ground arith) h

observe_timer-IsEarliest :
    (now : ℕ) (c : RecordedTimerCall) (cs : List RecordedTimerCall) (s : PendingTimerState)
    → IsEarliest now cs s.next_timer_id s.resume_after_ms
    → IsEarliest now
        (push cs c)
        (observe_timer now c s).next_timer_id
        (observe_timer now c s).resume_after_ms
observe_timer-IsEarliest now c cs s h = elim (Bool-cases (is_pending c)) [
  | inr off ↦ rw off (IsEarliest-skipped now c cs s.next_timer_id s.resume_after_ms off h)
  | inl on ↦ elim (Bool-cases (should_replace s.resume_after_ms (remaining_ms now c))) [
    | inl new ↦
        rw (on, new) (IsEarliest-replaced now c cs s.next_timer_id s.resume_after_ms on new h)
    | inr old ↦
        rw (on, old) (IsEarliest-unreplaced now c cs s.next_timer_id s.resume_after_ms old h)
  ]
]

pending_from-IsEarliest :
    (now : ℕ) (s : PendingTimerState) (seen cs : List RecordedTimerCall)
    → IsEarliest now seen s.next_timer_id s.resume_after_ms
    → IsEarliest now
        (seen ++ cs)
        (pending_from now s cs).next_timer_id
        (pending_from now s cs).resume_after_ms
unfolding pending_from
pending_from-IsEarliest now s seen [] h =
    subst (λ l. IsEarliest now l s.next_timer_id s.resume_after_ms) (sym (append-nil seen)) h
pending_from-IsEarliest now s seen (c ∷ cs) h =
    let t = observe_timer now c s in
    let u = pending_from now t cs in
    subst (λ l. IsEarliest now l u.next_timer_id u.resume_after_ms) (append_assoc seen (c ∷ []) cs)
      (pending_from-IsEarliest now t (push seen c) cs (observe_timer-IsEarliest now c seen s h))

-- The state names how many timers are pending, the names of those that are due, in the order of
-- registration, and the first of the timers that have the least time left.
pub pending_timer_state-IsEarliest :
    (calls : List RecordedTimerCall) (now : ℕ)
    → ((pending_timer_state calls now).pending_timers ≡ length (keep is_pending calls))
      × ((pending_timer_state calls now).due_timer_ids ≡ timer_ids (keep (is_due now) calls))
      × IsEarliest now calls
          (pending_timer_state calls now).next_timer_id
          (pending_timer_state calls now).resume_after_ms
unfolding pending_timer_state
pending_timer_state-IsEarliest calls now = (
  omega (arith, (pending_from_counts now nothing_pending calls).0),
  (pending_from_counts now nothing_pending calls).1,
  pending_from-IsEarliest now nothing_pending [] calls tt,
)
