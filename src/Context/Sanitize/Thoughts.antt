-- ===== src/Context/Sanitize/Thoughts.antt =====
-- What `strip_thinking_tags` leaves (src/context/sanitize.rs).
use Prim.Native.String.{String, count, ◌++◌}
use text.Mathlib.TextLemmas.{length-append, length-eq-zero_iff}
use rust_claw_oc.Prelude.{
  ℕ, zero, suc, ◌≤◌, ◌<◌, ◌≡◌, refl, sym, ap, ◌∙◌, inl, inr, Bool, true, false, Option, none, some,
  char_count, find, trim, Option-cases, arith,
}
use rust_claw_oc.Prelude.Find.Laws.{find-split, find-append_left, find-append_right}
use rust_claw_oc.Prelude.Text.Parts.{trim-infix}
use rust_claw_oc.Context.Sanitize.{strip_thought, strip_thoughts, strip_thinking_tags}

-- A round leaves a text without an opening tag, or a shorter one.
abbrev Progress : String → Option (String × Bool) → Type 0
Progress text none = find "<think>" text ≡ none
Progress text (some (rest, false)) = find "<think>" rest ≡ none
Progress text (some (rest, true)) = count rest < count text

strip_thought-Progress : (text : String) → Progress text (strip_thought text)
unfolding strip_thought
strip_thought-Progress text = elim (Option-cases (find "<think>" text)) [
  | inl e ↦ rw (e, strip_thought) e
  | inr (s, e) ↦
      let (split, clean) = find-split _ _ text s.0 s.1 e in
      elim (Option-cases (find "</think>" s.1)) [
        | inl f ↦ rw (e, f, strip_thought) clean
        | inr (t, f) ↦
            let (split', clean') = find-split _ _ s.1 t.0 t.1 f in
            rw (e, f, strip_thought)
              (omega (
                arith,
                length-append s.0 t.1,
                ap count split,
                length-append s.0 ("<think>" ++ s.1),
                length-append "<think>" s.1,
                ap count split',
                length-append t.0 ("</think>" ++ t.1),
                length-append "</think>" t.1,
              ))
      ]
]

abbrev Cleans : ℕ → Type 0
Cleans n = (text : String) → count text ≤ n → find "<think>" (strip_thoughts n text) ≡ none

round_clean :
    (n : ℕ) (text : String) (o : Option (String × Bool))
    → Cleans n
    → count text ≤ suc n
    → strip_thought text ≡ o
    → Progress text o
    → find "<think>" (strip_thoughts (suc n) text) ≡ none
unfolding strip_thoughts
round_clean n text none rec h e p = rw (e, strip_thoughts) p
round_clean n text (some (rest, false)) rec h e p = rw (e, strip_thoughts) p
round_clean n text (some (rest, true)) rec h e p =
    rw (e, strip_thoughts) (rec rest (omega (arith, h, p)))

strip_thoughts-clean : (n : ℕ) → Cleans n
unfolding strip_thoughts find
strip_thoughts-clean zero text h =
    let empty : text ≡ String.[] = length-eq-zero_iff.0 (omega (arith, h)) in
    ap (find "<think>") empty
strip_thoughts-clean (suc n) text h =
    round_clean n text (strip_thought text) (strip_thoughts-clean n) h refl
      (strip_thought-Progress text)

-- The text that `strip_thinking_tags` returns holds no opening tag: the loop has ended by then.
pub strip_thinking_tags-clean : (text : String) → find "<think>" (strip_thinking_tags text) ≡ none
unfolding strip_thinking_tags
strip_thinking_tags-clean text =
    let rest = strip_thoughts (char_count text) text in
    let (b, a, e) = trim-infix rest in
    find-append_left _ _ (trim rest) a (
      find-append_right "<think>" b (trim rest ++ a)
        (ap (find "<think>") (sym e) ∙ strip_thoughts-clean (count text) text (omega arith)))
