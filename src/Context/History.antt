-- ===== src/Context/History.antt =====
-- src/context/history.rs, `build_history_with_token_budget`: the newest turns that fit in a budget,
-- shortened by their age, under labels.
pub mod Selection
use rust_claw_oc.Prelude.{
  ℕ, zero, suc, ◌+◌, ◌-◌, String, Bool, true, false, not, ◌&&◌, Option, none, some, List, [], ◌∷◌,
  ◌++◌, reverse, push, any, ltb, leb, ◌==◌, if◌then◌else◌, contains, length,
}
use rust_claw_oc.Context.{Crates, Message, Turn, text_message, sum_tokens}
use rust_claw_oc.Context.Clean.{sanitize_turn, prepare_turn_for_llm}
use rust_claw_oc.Context.Shorten.{truncate_old_tool_results}
use rust_claw_oc.Context.Rebuild.{reconstruct_turn_for_history}

abbrev pub history_keywords : List String
history_keywords =
    "previous command" ∷ "last command" ∷ "previous output" ∷ "last output" ∷ "what did it say"
    ∷ "fix the error" ∷ "look above" ∷ "check the error" ∷ "what was the error"
    ∷ "show me the output" ∷ "full output" ∷ "上次" ∷ "之前" ∷ "刚才" ∷ "前面" ∷ "上面" ∷ "修复错误" ∷ "看看输出"
    ∷ "检查错误" ∷ "什么错误" ∷ "历史" ∷ "回顾" ∷ "重新看" ∷ []

-- A turn of the history as the prompt shows it: its distance from the newest, its messages, and the
-- characters that were hidden in it.
pub record Block (V : Type 0) : Type 0 where
  pub distance : ℕ
  pub messages : List (Message V)
  pub hidden : ℕ

pub record History (V : Type 0) : Type 0 where
  pub messages : List (Message V)
  pub current_tokens : ℕ
  pub turns_included : ℕ
  pub truncated_chars : ℕ

-- The variables of the loop.
pub record Collected (V : Type 0) : Type 0 where
  pub blocks : List (Block V)
  pub current_tokens : ℕ
  pub turns_included : ℕ
  pub truncated_chars : ℕ
  pub protect_next_turn : Bool

-- The zone of a distance: 0 is earlier history, 1 recent context.
abbrev pub zone : ℕ → ℕ
zone distance = if leb 10 distance then 0 else if leb 3 distance then 1 else 2

module _ {V : Type 0} where
  abbrev pub nothing_collected : Collected V
  nothing_collected = record {
    blocks = [];
    current_tokens = 0;
    turns_included = 0;
    truncated_chars = 0;
    protect_next_turn = false;
  }

  abbrev label : ℕ → List (Message V)
  label zero = text_message "user" "--- [EARLIER HISTORY] ---" ∷ []
  label (suc zero) = text_message "user" "--- [RECENT CONTEXT] ---" ∷ []
  label (suc (suc n)) = []

  -- The label where the zone changes.
  unfoldable pub label_of : Option ℕ → ℕ → List (Message V)
  label_of none z = label z
  label_of (some previous) z = if previous == z then [] else label z

  -- The blocks, oldest first, flattened.
  unfoldable pub flatten : Option ℕ → List (Block V) → List (Message V)
  unfolding label_of
  flatten previous [] = []
  flatten previous (b ∷ bs) =
      label_of previous (zone b.distance) ++ b.messages ++ flatten (some (zone b.distance)) bs

module _ {V : Type 0} (crates : Crates V) where
  unfoldable pub is_user_referencing_history : String → Bool
  is_user_referencing_history msg =
      any (λ k. contains (crates.patterns.to_lowercase msg) k) history_keywords

  -- A sanitized turn at a distance: rebuilt if it is old and not protected, else shortened.
  unfoldable pub shape : ℕ → Bool → Turn V → Block V
  shape i protected turn =
      let (shaped, hidden) =
        if leb 3 i && not protected
        then reconstruct_turn_for_history crates turn
        else truncate_old_tool_results crates turn in
      record {
        distance = i;
        messages = (prepare_turn_for_llm crates shaped).messages;
        hidden = hidden;
      }

  -- Does the turn at a distance protect the turn before it?
  unfoldable pub asks_for_context : ℕ → Turn V → Bool
  asks_for_context i turn = ltb i 10 && is_user_referencing_history turn.user_message

  -- What a turn counts, whether it fits or not.
  abbrev pub counted : ℕ → Collected V → Turn V → Block V → Collected V
  counted i state turn block = record state {
    truncated_chars = state.truncated_chars + block.hidden;
    protect_next_turn = asks_for_context i turn;
  }

  abbrev pub included : Collected V → Block V → Collected V
  included state block = record state {
    blocks = push state.blocks block;
    current_tokens = state.current_tokens + sum_tokens crates block.messages;
    turns_included = state.turns_included + 1;
  }

  -- The loop over the turns, the newest first, until one does not fit.
  unfoldable pub collect : ℕ → ℕ → Collected V → List (Turn V) → Collected V
  unfolding shape asks_for_context
  collect history_budget i state [] = state
  collect history_budget i state (t ∷ ts) = elim (sanitize_turn t) [
    | none ↦ collect history_budget (i + 1) state ts
    | some sanitized ↦
        let block = shape i state.protect_next_turn sanitized in
        let next = counted i state t block in
        let rest = collect history_budget (i + 1) (included next block) ts in
        if ltb history_budget (state.current_tokens + sum_tokens crates block.messages)
        then next
        else rest
  ]

  unfoldable pub build_history_with_token_budget : List (Turn V) → ℕ → History V
  unfolding collect flatten
  build_history_with_token_budget dialogue_history history_budget =
      let end = collect history_budget 0 nothing_collected (reverse dialogue_history) in
      record {
        messages = flatten none (reverse end.blocks);
        current_tokens = end.current_tokens;
        turns_included = end.turns_included;
        truncated_chars = end.truncated_chars;
      }
