-- ===== src/Context/History/Selection.antt =====
-- The turns that the budget selects (src/context/history.rs).
use mathlib.Core.List.{append_assoc, append-nil}
use rust_claw_oc.Prelude.{
  ℕ, ◌+◌, ◌≤◌, ◌<◌, ◌≡◌, refl, sym, ap, ◌∙◌, Bool, false, none, some, List, [], ◌∷◌, ◌++◌, reverse,
  take, length, ltb, ltb→lt, Bool-cases, Option-cases, inl, inr, arith,
}
use rust_claw_oc.Context.{Crates, Turn, sum_tokens}
use rust_claw_oc.Context.Clean.{sanitize_turn}
use rust_claw_oc.Context.History.{
  Block, Collected, nothing_collected, shape, asks_for_context, counted, included, collect, flatten,
  build_history_with_token_budget,
}

module _ {V : Type 0} where
  unfoldable pub hidden_chars : List (Block V) → ℕ
  hidden_chars [] = 0
  hidden_chars (b ∷ bs) = b.hidden + hidden_chars bs

module _ {V : Type 0} (crates : Crates V) where
  -- All turns that have content as the prompt would show them, the newest first, with no budget.
  unfoldable pub shapes : ℕ → Bool → List (Turn V) → List (Block V)
  shapes i protected [] = []
  shapes i protected (t ∷ ts) = elim (sanitize_turn t) [
    | none ↦ shapes (i + 1) protected ts
    | some sanitized ↦
        shape crates i protected sanitized ∷ shapes (i + 1) (asks_for_context crates i t) ts
  ]

  unfoldable pub block_tokens : List (Block V) → ℕ
  block_tokens [] = 0
  block_tokens (b ∷ bs) = sum_tokens crates b.messages + block_tokens bs

  -- The first of the older blocks, if there is one, does not fit any more.
  abbrev pub Overflows : ℕ → ℕ → List (Block V) → Type 0
  Overflows budget used [] = Unit
  Overflows budget used (b ∷ bs) = budget < used + sum_tokens crates b.messages

  abbrev Window : ℕ → ℕ → Collected V → List (Turn V) → Type 0
  Window budget i state ts =
      let end = collect crates budget i state ts in
      (shown : List (Block V)) × (older : List (Block V)) × (shapes i state.protect_next_turn ts
        ≡ shown ++ older)
      × (end.blocks ≡ state.blocks ++ shown)
      × (end.current_tokens ≡ state.current_tokens + block_tokens shown)
      × (end.current_tokens ≤ budget)
      × (end.turns_included ≡ state.turns_included + length shown)
      × (end.truncated_chars
          ≡ state.truncated_chars + (hidden_chars shown + hidden_chars (take 1 older)))
      × Overflows budget end.current_tokens older

  collect-Window :
      (budget i : ℕ) (state : Collected V) (ts : List (Turn V))
      → state.current_tokens ≤ budget
      → Window budget i state ts
  unfolding collect shapes block_tokens hidden_chars
  collect-Window budget i state [] h =
      ([], [], refl, sym (append-nil state.blocks), omega arith, h, omega arith, omega arith, tt)
  collect-Window budget i state (t ∷ ts) h = elim (Option-cases (sanitize_turn t)) [
    | inl e ↦ rw (e, collect, shapes) (collect-Window budget (i + 1) state ts h)
    | inr (s, e) ↦
        let b = shape crates i state.protect_next_turn s in
        let next = counted crates i state t b in
        elim (Bool-cases (ltb budget (state.current_tokens + sum_tokens crates b.messages))) [
          | inl big ↦
              rw (e, collect, shapes, big)
                (
                  [],
                  b ∷ shapes (i + 1) (asks_for_context crates i t) ts,
                  refl,
                  sym (append-nil state.blocks),
                  omega arith,
                  h,
                  omega arith,
                  omega arith,
                  ltb→lt budget (state.current_tokens + sum_tokens crates b.messages) big,
                )
          | inr fits ↦
              let (shown, older, split, blocks, tokens, within, turns, hidden, over) =
                collect-Window budget (i + 1) (included crates next b) ts (ground arith) in
              rw (e, collect, shapes, fits)
                (
                  b ∷ shown,
                  older,
                  ap (λ l. b ∷ l) split,
                  blocks ∙ append_assoc state.blocks (b ∷ []) shown,
                  omega (arith, tokens),
                  within,
                  omega (arith, turns),
                  omega (arith, hidden),
                  over,
                )
        ]
  ]

  -- What the history of a conversation holds under a budget.
  abbrev pub HistoryWindow : List (Turn V) → ℕ → Type 0
  HistoryWindow dialogue_history budget =
      let history = build_history_with_token_budget crates dialogue_history budget in
      (shown : List (Block V)) × (older : List (Block V)) × (shapes 0 false
          (reverse dialogue_history)
        ≡ shown ++ older)
      × (history.messages ≡ flatten none (reverse shown))
      × (history.current_tokens ≡ block_tokens shown)
      × (history.current_tokens ≤ budget)
      × (history.turns_included ≡ length shown)
      × (history.truncated_chars ≡ hidden_chars shown + hidden_chars (take 1 older))
      × Overflows budget history.current_tokens older

  -- The history is a window of the turns that have content, each shaped by its distance from the
  -- newest: the newest ones, shown oldest first under the labels of their zones. Their messages cost
  -- what the history reports, at most the budget, and the next older turn would exceed it. The
  -- report counts the characters hidden in these turns and in that next older one.
  pub build_history_with_token_budget-HistoryWindow :
      (dialogue_history : List (Turn V)) (budget : ℕ) → HistoryWindow dialogue_history budget
  unfolding build_history_with_token_budget
  build_history_with_token_budget-HistoryWindow dialogue_history budget =
      let (shown, older, split, blocks, tokens, within, turns, hidden, over) =
        collect-Window budget 0 nothing_collected (reverse dialogue_history) (omega arith) in
      (
        shown,
        older,
        split,
        ap (λ l. flatten none (reverse l)) blocks,
        omega (arith, tokens),
        within,
        omega (arith, turns),
        omega (arith, hidden),
        over,
      )
