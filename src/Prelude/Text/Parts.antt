-- ===== src/Prelude/Text/Parts.antt =====
-- A trimmed text is a part of the text.
use mathlib.Core.Path.{◌≡◌, sym, ap, ◌∙◌}
use mathlib.Core.Logic.{inl, inr}
use Prim.Native.Char.{code}
use Prim.Native.String.{String, ◌++◌}
use text.Mathlib.TextLemmas.{nil-append, cons-append}
use rust_claw_oc.Prelude.Tests.{Bool-cases}
use rust_claw_oc.Prelude.Text.{is_whitespace, is_blank, trim_start, trim_end, trim}

trim_start-suffix : (s : String) → (b : String) × (s ≡ b ++ trim_start s)
unfolding trim_start
trim_start-suffix String.[] = (String.[], sym (nil-append String.[]))
trim_start-suffix (String.◌∷◌ c s) = elim (Bool-cases (is_whitespace (code c))) [
  | inl white ↦
      let (b, e) = trim_start-suffix s in
      (
        String.◌∷◌ c b,
        rw (white, trim_start) (ap (String.◌∷◌ c) e ∙ sym (cons-append c b (trim_start s))),
      )
  | inr black ↦ (String.[], rw (black, trim_start) (sym (nil-append (String.◌∷◌ c s))))
]

trim_end-prefix : (s : String) → (a : String) × (s ≡ trim_end s ++ a)
unfolding trim_end
trim_end-prefix String.[] = (String.[], sym (nil-append String.[]))
trim_end-prefix (String.◌∷◌ c s) = elim (Bool-cases (is_blank (String.◌∷◌ c s))) [
  | inl blank ↦ (String.◌∷◌ c s, rw (blank, trim_end) (sym (nil-append (String.◌∷◌ c s))))
  | inr full ↦
      let (a, e) = trim_end-prefix s in
      (a, rw (full, trim_end) (ap (String.◌∷◌ c) e ∙ sym (cons-append c (trim_end s) a)))
]

pub trim-infix : (s : String) → (b : String) × (a : String) × (s ≡ b ++ (trim s ++ a))
unfolding trim
trim-infix s =
    let (b, e) = trim_start-suffix s in
    let (a, f) = trim_end-prefix (trim_start s) in (b, a, e ∙ ap (λ t. b ++ t) f)
