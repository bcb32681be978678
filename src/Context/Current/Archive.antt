-- ===== src/Context/Current/Archive.antt =====
-- The history and the transcript over the turns of a session (src/context).
use mathlib.Core.List.{append-nil, append_assoc}
use rust_claw_oc.Prelude.{
  ℕ, ◌≡◌, refl, sym, ap, ◌∙◌, inl, inr, String, false, Option, none, some, List, [], ◌∷◌, ◌++◌, map,
  push, All, take, length, min, is_blank, trim, Option-cases,
}
use rust_claw_oc.Context.{Crates, Message, Turn}
use rust_claw_oc.Context.Current.{Conversation, start_turn, add_message_to_current_turn, end_turn}
use rust_claw_oc.Context.Compact.{rule_based_compact}
use rust_claw_oc.Context.Compact.Effect.{rule_based_compact-archive}
use rust_claw_oc.Context.Transcript.{append_turn, append_turns, load_turns, load_into_context}

-- What a session does to its conversation between two compactions.
pub data TurnEvent (V : Type 0) : Type 0 where
  started : String → String → TurnEvent V
  said : Message V → TurnEvent V
  ended : TurnEvent V

module _ {V : Type 0} where
  unfoldable pub apply : TurnEvent V → Conversation V → Conversation V
  unfolding start_turn add_message_to_current_turn end_turn
  apply (started uuid text) ctx = start_turn uuid text ctx
  apply (said msg) ctx = add_message_to_current_turn msg ctx
  apply ended ctx = end_turn ctx

  unfoldable pub apply_all : List (TurnEvent V) → Conversation V → Conversation V
  unfolding apply
  apply_all [] ctx = ctx
  apply_all (e ∷ es) ctx = apply_all es (apply e ctx)

  abbrev pub fresh : Conversation V
  fresh = record { dialogue_history = []; current_turn = none; transcript = [] }

  apply-archives :
      (e : TurnEvent V) (ctx : Conversation V)
      → ctx.transcript ≡ ctx.dialogue_history
      → (apply e ctx).transcript ≡ (apply e ctx).dialogue_history
  unfolding apply start_turn add_message_to_current_turn end_turn
  apply-archives (started uuid text) ctx h = h
  apply-archives (said msg) ctx h = elim (Option-cases ctx.current_turn) [
    | inl e ↦ rw (e, apply, add_message_to_current_turn) h
    | inr (t, e) ↦ rw (e, apply, add_message_to_current_turn) h
  ]
  apply-archives ended ctx h = elim (Option-cases ctx.current_turn) [
    | inl e ↦ rw (e, apply, end_turn) h
    | inr (t, e) ↦ rw (e, apply, end_turn) (ap (λ l. push l t) h)
  ]

  apply_all-archives :
      (es : List (TurnEvent V)) (ctx : Conversation V)
      → ctx.transcript ≡ ctx.dialogue_history
      → (apply_all es ctx).transcript ≡ (apply_all es ctx).dialogue_history
  unfolding apply_all
  apply_all-archives [] ctx h = h
  apply_all-archives (e ∷ es) ctx h = apply_all-archives es (apply e ctx) (apply-archives e ctx h)

module _ {V : Type 0} (serialize : Turn V → String) (parse : String → Option (Turn V)) where
  -- serde_json reads back what it writes for these turns, and writes more than blanks.
  abbrev pub ReadsBack : List (Turn V) → Type 0
  ReadsBack ts =
      All (λ t. (parse (trim (serialize t)) ≡ some t) × (is_blank (serialize t) ≡ false)) ts

  -- The history of a session that starts again from the transcript `turns`.
  abbrev pub restarted : List (Turn V) → List (Turn V)
  restarted turns =
      (load_into_context parse (append_turns serialize (some []) turns) fresh).1.dialogue_history

  append_turns-map :
      (file : List String) (ts : List (Turn V))
      → append_turns serialize (some file) ts ≡ some (file ++ map serialize ts)
  unfolding append_turns append_turn
  append_turns-map file [] = ap some (sym (append-nil file))
  append_turns-map file (t ∷ ts) =
      append_turns-map (push file (serialize t)) ts
      ∙ ap some (append_assoc file (serialize t ∷ []) (map serialize ts))

  load_turns-map : (ts : List (Turn V)) → ReadsBack ts → load_turns parse (map serialize ts) ≡ ts
  unfolding load_turns
  load_turns-map [] r = refl
  load_turns-map (t ∷ ts) r = rw (r.0.1, r.0.0) (ap (λ l. t ∷ l) (load_turns-map ts r.1))

  restarted-same : (ts : List (Turn V)) → ReadsBack ts → restarted ts ≡ ts
  unfolding load_into_context
  restarted-same ts r = rw (restarted, append_turns-map [] ts) (load_turns-map ts r)

  -- If serde_json reads back the turns that a session has written, a session that starts again from
  -- its transcript has its history again, after any starts, messages and ends of turns.
  pub restarted-apply_all :
      (es : List (TurnEvent V))
      → ReadsBack (apply_all es fresh).transcript
      → restarted (apply_all es fresh).transcript ≡ (apply_all es fresh).dialogue_history
  restarted-apply_all es r =
      restarted-same (apply_all es fresh).transcript r ∙ apply_all-archives es fresh refl

  -- A compaction writes the turns that it drops to the transcript a second time: if serde_json reads
  -- back the turns, a session that starts again after it has all turns of the old history, and then
  -- the compacted ones once more.
  pub restarted-rule_based_compact :
      (crates : Crates V) (uuid : String) (n : ℕ) (es : List (TurnEvent V))
      → ReadsBack
          (rule_based_compact crates uuid n
            (apply_all es fresh).dialogue_history
            (apply_all es fresh).transcript).2
      → restarted
          (rule_based_compact crates uuid n
            (apply_all es fresh).dialogue_history
            (apply_all es fresh).transcript).2
        ≡ (apply_all es fresh).dialogue_history
          ++ take
              (min n (length (apply_all es fresh).dialogue_history))
              (apply_all es fresh).dialogue_history
  restarted-rule_based_compact crates uuid n es r =
      let ctx = apply_all es fresh in
      restarted-same (rule_based_compact crates uuid n ctx.dialogue_history ctx.transcript).2 r
      ∙ rule_based_compact-archive crates uuid n ctx.dialogue_history ctx.transcript
      ∙ ap (λ l. l ++ take (min n (length ctx.dialogue_history)) ctx.dialogue_history)
          (apply_all-archives es fresh refl)
