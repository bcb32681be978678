-- ===== src/Security/Invisible.antt =====
-- What the normalisation of src/security.rs hides from the fences.
use rust_claw_oc.Prelude.{String, true, false, ◌≡◌, refl, sym, ap, ◌∙◌, arith}
use Prim.Native.Char.{Char}
use Prim.Native.String.{◌++◌}
use text.Mathlib.TextLemmas.{nil-append, cons-append}
use rust_claw_oc.Security.{
  Patterns, plain_chars, holds, confusable_lt, confusable_gt, zero_width_chars,
  normalize_confusables, fence_untrusted,
}

-- A change at the head that the characters after it do not see.
plain_chars-cons :
    (c : Char) (s t : String)
    → plain_chars s ≡ plain_chars t
    → plain_chars (String.◌∷◌ c s) ≡ plain_chars (String.◌∷◌ c t)
unfolding plain_chars
plain_chars-cons c s t h = rw h refl

plain_chars-under :
    (s t u : String) → plain_chars t ≡ plain_chars u → plain_chars (s ++ t) ≡ plain_chars (s ++ u)
plain_chars-under String.[] t u h = rw (nil-append t, nil-append u) h
plain_chars-under (String.◌∷◌ c s) t u h =
    rw (cons-append c s t, cons-append c s u)
      (plain_chars-cons c (s ++ t) (s ++ u) (plain_chars-under s t u h))

zero_width_plain :
    (c : Char)
    → holds zero_width_chars c ≡ true
    → (holds confusable_lt c ≡ false) × (holds confusable_gt c ≡ false)
zero_width_plain c h = ground arith

abbrev less_than : Char
less_than = "<"

less_than-append : (t : String) → "<" ++ t ≡ String.◌∷◌ less_than t
less_than-append t = cons-append less_than String.[] t ∙ ap (String.◌∷◌ less_than) (nil-append t)

plain_chars-zero_width :
    (c : Char) (t : String)
    → holds zero_width_chars c ≡ true
    → plain_chars (String.◌∷◌ c t) ≡ plain_chars t
unfolding plain_chars
plain_chars-zero_width c t h = let (lt, gt) = zero_width_plain c h in rw (lt, gt, h) refl

plain_chars-lt :
    (c : Char) (t : String)
    → holds confusable_lt c ≡ true
    → plain_chars (String.◌∷◌ c t) ≡ plain_chars ("<" ++ t)
unfolding plain_chars
plain_chars-lt c t h =
    rw h (less_than-append (plain_chars t) ∙ sym (ap plain_chars (less_than-append t)))

-- A fence around untrusted content is the same without a zero-width character, wherever it stands,
-- and the same with `<` in place of a character that looks like it.
pub fence_untrusted-sees_through :
    (patterns : Patterns) (source s t : String) (c d : Char)
    → holds zero_width_chars c ≡ true
    → holds confusable_lt d ≡ true
    → (fence_untrusted patterns source (s ++ String.◌∷◌ c t)
        ≡ fence_untrusted patterns source (s ++ t))
      × (fence_untrusted patterns source (s ++ String.◌∷◌ d t)
          ≡ fence_untrusted patterns source (s ++ ("<" ++ t)))
unfolding fence_untrusted normalize_confusables
fence_untrusted-sees_through patterns source s t c d hc hd = (
  rw (plain_chars-under s _ _ (plain_chars-zero_width c t hc)) refl,
  rw (plain_chars-under s _ _ (plain_chars-lt d t hd)) refl,
)
