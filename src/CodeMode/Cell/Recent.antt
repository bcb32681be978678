-- ===== src/CodeMode/Cell/Recent.antt =====
-- The window of events that a snapshot shows (src/code_mode/cell.rs, `recent_visible_events`).
use mathlib.Core.List.{reverse-append, reverse-cons, reverse-reverse, append-nil}
use rust_claw_oc.Prelude.{
  ℕ, ◌+◌, ◌-◌, ◌≤◌, ◌<◌, ◌≡◌, refl, sym, ap, ◌∙◌, inl, inr, List, [], ◌∷◌, ◌++◌, reverse, keep,
  keep-append, ltb, Bool-cases, arith,
}
use rust_claw_oc.CodeMode.Protocol.{RuntimeEvent, is_visible_in_snapshot}
use rust_claw_oc.CodeMode.Cell.{
  ActiveCellHandle, event_chars, recent_event_budget_chars, recent_from, recent_visible_events,
}

module _ {V : Type 0} where
  abbrev pub visible : List (RuntimeEvent V) → List (RuntimeEvent V)
  visible es = keep is_visible_in_snapshot es

  unfoldable pub total_chars : List (RuntimeEvent V) → ℕ
  total_chars [] = 0
  total_chars (e ∷ es) = event_chars e + total_chars es

  -- What follows the window in the list `rest`, newest first, did not fit in the budget.
  abbrev pub Overflows : ℕ → ℕ → List (RuntimeEvent V) → Type 0
  Overflows budget used [] = Unit
  Overflows budget used (e ∷ rest) = budget < used + event_chars e

  abbrev Window : ℕ → List (RuntimeEvent V) → List (RuntimeEvent V) → Type 0
  Window budget newest shown =
      (older : List (RuntimeEvent V)) × (visible newest ≡ shown ++ older)
      × (total_chars shown ≤ budget)
      × Overflows budget (total_chars shown) older

  Overflows-step :
      (budget c used : ℕ) (older : List (RuntimeEvent V))
      → c ≤ budget
      → Overflows (budget - c) used older
      → Overflows budget (c + used) older
  Overflows-step budget c used [] h o = tt
  Overflows-step budget c used (e ∷ older) h o = omega arith

  recent_from-Window :
      (budget : ℕ) (es : List (RuntimeEvent V)) → Window budget es (recent_from budget es)
  unfolding recent_from total_chars
  recent_from-Window budget [] = ([], refl, omega arith, tt)
  recent_from-Window budget (e ∷ es) = elim (Bool-cases (is_visible_in_snapshot e)) [
    | inr hidden ↦ rw hidden (recent_from-Window budget es)
    | inl shown ↦ elim (Bool-cases (ltb budget (event_chars e))) [
      | inl big ↦ rw (shown, big) (e ∷ visible es, refl, omega arith, ground arith)
      | inr fits ↦
          let (older, split, within, over) = recent_from-Window (budget - event_chars e) es in
          rw (shown, fits)
            (
              older,
              ap (λ l. e ∷ l) split,
              ground arith,
              Overflows-step budget (event_chars e) _ older (ground arith) over,
            )
    ]
  ]

  visible-reverse : (es : List (RuntimeEvent V)) → visible (reverse es) ≡ reverse (visible es)
  visible-reverse [] = refl
  visible-reverse (e ∷ es) =
      ap visible (reverse-cons e es)
      ∙ keep-append is_visible_in_snapshot (reverse es) (e ∷ [])
      ∙ ap (λ l. l ++ visible (e ∷ [])) (visible-reverse es)
      ∙ elim (Bool-cases (is_visible_in_snapshot e)) [
        | inl shown ↦ rw shown (sym (reverse-cons e (visible es)))
        | inr hidden ↦ rw hidden (append-nil (reverse (visible es)))
      ]

  total_chars-append :
      (xs ys : List (RuntimeEvent V)) → total_chars (xs ++ ys) ≡ total_chars xs + total_chars ys
  unfolding total_chars
  total_chars-append [] ys = omega arith
  total_chars-append (x ∷ xs) ys = omega (arith, total_chars-append xs ys)

  total_chars-reverse : (xs : List (RuntimeEvent V)) → total_chars (reverse xs) ≡ total_chars xs
  unfolding total_chars
  total_chars-reverse [] = refl
  total_chars-reverse (x ∷ xs) =
      ap total_chars (reverse-cons x xs)
      ∙ omega (arith, total_chars-append (reverse xs) (x ∷ []), total_chars-reverse xs)

  -- The snapshot shows the newest visible events: what it shows follows, in the order of the
  -- events, some older ones, costs at most 8000 characters, and leaves out only if the next older
  -- event would exceed that budget.
  pub recent_visible_events_window :
      (c : ActiveCellHandle V)
      → (older : List (RuntimeEvent V)) × (visible c.events
          ≡ reverse older ++ recent_visible_events c)
        × (total_chars (recent_visible_events c) ≤ recent_event_budget_chars)
        × Overflows recent_event_budget_chars (total_chars (recent_visible_events c)) older
  unfolding recent_visible_events
  recent_visible_events_window c =
      let newest = reverse c.events in
      let shown = recent_from recent_event_budget_chars newest in
      let (older, split, within, over) = recent_from-Window recent_event_budget_chars newest in
      let same : total_chars (reverse shown) ≡ total_chars shown = total_chars-reverse shown in
      (
        older,
        sym (reverse-reverse (visible c.events))
            ∙ ap reverse (sym (visible-reverse c.events) ∙ split)
            ∙ reverse-append shown older,
        rw same within,
        rw same over,
      )
