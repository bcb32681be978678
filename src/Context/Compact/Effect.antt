-- ===== src/Context/Compact/Effect.antt =====
-- What a compaction does to the history (src/context/history.rs).
use mathlib.Core.List.{append_assoc, append-nil}
use rust_claw_oc.Prelude.{
  ℕ, zero, suc, ◌+◌, ◌≡◌, refl, sym, ap, ◌∙◌, ◌⊎◌, inl, inr, String, true, false, is_some, none,
  List, [], ◌∷◌, ◌++◌, length, length-drop, take, drop, min, ◌==◌, take-append-drop, arith,
}
use rust_claw_oc.Context.{Crates, Turn}
use rust_claw_oc.Context.Compact.{rule_based_compact, compacted_turn, summary_text}

-- A compaction with nothing to compact changes nothing. Any other puts one turn, the summary of the
-- oldest `num_turns`, in their place and leaves the later ones: the turns of the archive followed by
-- those after the summary are the turns of the archive and the history before, in order.
pub rule_based_compact_lem :
    {V : Type 0} (crates : Crates V) (uuid : String) (num_turns : ℕ)
    (history archive : List (Turn V))
    → (((num_turns ≡ 0) ⊎ (history ≡ []))
        × (rule_based_compact crates uuid num_turns history archive ≡ (none, history, archive)))
      ⊎ (((rule_based_compact crates uuid num_turns history archive).2
              ++ drop 1 (rule_based_compact crates uuid num_turns history archive).1
            ≡ archive ++ history)
          × (take 1 (rule_based_compact crates uuid num_turns history archive).1
              ≡ compacted_turn uuid
                  (summary_text crates (take (min num_turns (length history)) history))
                ∷ [])
          × (length (rule_based_compact crates uuid num_turns history archive).1
                + min num_turns (length history)
              ≡ suc (length history))
          × (is_some (rule_based_compact crates uuid num_turns history archive).0 ≡ true))
unfolding rule_based_compact
rule_based_compact_lem crates uuid zero history archive = inl (inl refl, refl)
rule_based_compact_lem crates uuid (suc n) [] archive = inl (inr refl, ground arith)
rule_based_compact_lem crates uuid (suc n) (t ∷ ts) archive =
    let nonzero : (suc n == 0) ≡ false = ground arith in
    let k = min (suc n) (length (t ∷ ts)) in
    inr (
      rw (nonzero, rule_based_compact)
          (append_assoc archive (take k (t ∷ ts)) (drop k (t ∷ ts))
            ∙ ap (λ l. archive ++ l) (take-append-drop k (t ∷ ts))),
      rw (nonzero, rule_based_compact) refl,
      rw (nonzero, rule_based_compact) (omega (arith, length-drop k (t ∷ ts))),
      rw (nonzero, rule_based_compact) refl,
    )

-- The compacted turns are appended to the archive.
pub rule_based_compact-archive :
    {V : Type 0} (crates : Crates V) (uuid : String) (num_turns : ℕ)
    (history archive : List (Turn V))
    → (rule_based_compact crates uuid num_turns history archive).2
      ≡ archive ++ take (min num_turns (length history)) history
unfolding rule_based_compact
rule_based_compact-archive crates uuid zero history archive =
    let nothing : 0 ≡ min 0 (length history) = omega arith in
    sym (append-nil archive) ∙ ap (λ k. archive ++ take k history) nothing
rule_based_compact-archive crates uuid (suc n) [] archive =
    let nothing : 0 ≡ min (suc n) 0 = omega arith in
    let nonzero : (suc n == 0) ≡ false = ground arith in
    rw (nonzero, rule_based_compact)
      (sym (append-nil archive) ∙ ap (λ k. archive ++ take k []) nothing)
rule_based_compact-archive crates uuid (suc n) (t ∷ ts) archive =
    let nonzero : (suc n == 0) ≡ false = ground arith in rw (nonzero, rule_based_compact) refl
