-- ===== src/Subagent/Debug/Window.antt =====
-- The window of recent debug events (src/subagent_runtime.rs, `push_recent_debug_event`).
use rust_claw_oc.Prelude.{
  ◌≡◌, ◌∙◌, refl, sym, ap, ℕ, zero, suc, ◌-◌, ◌≤◌, ◌<◌, List, [], ◌∷◌, ◌++◌, push, drop, length,
  length-append, length-drop, ltb, arith, Bool-cases, ltb→lt, inl, inr,
}
use mathlib.Core.List.{append_assoc, append-nil}
use rust_claw_oc.Subagent.Debug.{
  SubagentDebugEvent, SubagentDebugSnapshot, push_recent, push_recent_debug_event,
  max_recent_events, new_debug,
}

-- The last twelve of a list.
abbrev pub newest : List SubagentDebugEvent → List SubagentDebugEvent
newest es = drop (length es - max_recent_events) es

drop-drop : (n : ℕ) (xs : List SubagentDebugEvent) → drop 1 (drop n xs) ≡ drop (suc n) xs
drop-drop zero xs = refl
drop-drop (suc n) [] = refl
drop-drop (suc n) (x ∷ xs) = drop-drop n xs

drop-push :
    (n : ℕ) (xs : List SubagentDebugEvent) (e : SubagentDebugEvent)
    → n ≤ length xs
    → drop n (push xs e) ≡ push (drop n xs) e
drop-push zero xs e h = refl
drop-push (suc n) [] e h = absurd (omega (arith, h))
drop-push (suc n) (x ∷ xs) e h = drop-push n xs e (omega (arith, h))

push_recent_lem :
    (es : List SubagentDebugEvent) (e : SubagentDebugEvent) → push_recent es e ≡ newest (push es e)
push_recent_lem es e = elim (Bool-cases (ltb 12 (length (push es e)))) [
  | inl many ↦ rw (many, push_recent) refl
  | inr few ↦
      let none_over : 0 ≡ length (push es e) - 12 = ground arith in
      rw (few, push_recent) (ap (λ n. drop n (push es e)) none_over)
]

newest-push :
    (es : List SubagentDebugEvent) (e : SubagentDebugEvent)
    → newest (push (newest es) e) ≡ newest (push es e)
newest-push es e = elim (Bool-cases (ltb 12 (length es))) [
  | inr few ↦
      let none_over : length es - 12 ≡ 0 = ground arith in
      ap (λ n. newest (push (drop n es) e)) none_over
  | inl many ↦
      let n = length es - 12 in
      let over : 12 < length es = ltb→lt 12 (length es) many in
      let one_more : length (push (newest es) e) - 12 ≡ 1 =
        omega (arith, over, length-append (newest es) (e ∷ []), length-drop n es) in
      let all : suc n ≡ length (push es e) - 12 = omega (arith, over, length-append es (e ∷ [])) in
      ap (λ k. drop k (push (newest es) e)) one_more
      ∙ ap (drop 1) (sym (drop-push n es e (omega arith)))
      ∙ drop-drop n (push es e)
      ∙ ap (λ k. drop k (push es e)) all
]

unfoldable pub push_all : List SubagentDebugEvent → SubagentDebugSnapshot → SubagentDebugSnapshot
unfolding push_recent_debug_event
push_all [] debug = debug
push_all (e ∷ es) debug = push_all es (push_recent_debug_event e debug)

push_all-from :
    (es seen : List SubagentDebugEvent) (debug : SubagentDebugSnapshot)
    → debug.recent_events ≡ newest seen
    → (push_all es debug).recent_events ≡ newest (seen ++ es)
unfolding push_all push_recent_debug_event
push_all-from [] seen debug h = h ∙ ap newest (sym (append-nil seen))
push_all-from (e ∷ es) seen debug h =
    push_all-from es (push seen e) (push_recent_debug_event e debug)
      (ap (λ l. push_recent l e) h ∙ push_recent_lem (newest seen) e ∙ newest-push seen e)
    ∙ ap newest (append_assoc seen (e ∷ []) es)

-- A debug snapshot shows the last twelve events of all that were recorded, in order.
push_all-newest :
    (es : List SubagentDebugEvent) (now : ℕ)
    → (push_all es (new_debug now)).recent_events ≡ newest es
unfolding new_debug
push_all-newest es now = push_all-from es [] (new_debug now) refl
