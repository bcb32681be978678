-- ===== src/Prelude/Find/Laws.antt =====
-- Where `find` finds a pattern, and where it finds none.
use mathlib.Core.Bool.{true, false}
use mathlib.Core.Path.{◌≡◌, refl, sym, ap, ◌∙◌, subst}
use mathlib.Core.Logic.{inl, inr}
use mathlib.Core.Option.{none, some, some_inj}
use Prim.Native.Char.{Char, code}
use Prim.Native.String.{String, ◌++◌}
use native.Mathlib.Omega.{arith}
use text.Mathlib.TextLemmas.{nil-append, cons-append}
use text.Mathlib.TextEquality.{Char-path}
use rust_claw_oc.Prelude.Tests.{Bool-cases, Option-cases, ◌==◌, ==_iff}
use rust_claw_oc.Prelude.Find.{strip_prefix, find}

-- A pattern matches at a character, or there is none.
prefix_equal :
    (c d : Char) (p x : String)
    → (code c == code d) ≡ true
    → strip_prefix (String.◌∷◌ c p) (String.◌∷◌ d x) ≡ strip_prefix p x
unfolding strip_prefix
prefix_equal c d p x h = rw (h, strip_prefix) refl

prefix_unequal :
    (c d : Char) (p x r : String)
    → (code c == code d) ≡ false
    → strip_prefix (String.◌∷◌ c p) (String.◌∷◌ d x) ≡ some r
    → ⊥
unfolding strip_prefix
prefix_unequal c d p x r h e =
    let failed : strip_prefix (String.◌∷◌ c p) (String.◌∷◌ d x) ≡ none =
      rw (h, strip_prefix) refl in
    ground (arith, sym failed ∙ e)

strip_prefix-append :
    (p x y r : String) → strip_prefix p x ≡ some r → strip_prefix p (x ++ y) ≡ some (r ++ y)
unfolding strip_prefix
strip_prefix-append String.[] x y r h = ap some (ap (λ t. t ++ y) (some_inj.0 h))
strip_prefix-append (String.◌∷◌ c p) String.[] y r h = absurd (ground (arith, h))
strip_prefix-append (String.◌∷◌ c p) (String.◌∷◌ d x) y r h = elim (Bool-cases (code c == code d)) [
  | inr ne ↦ absurd (prefix_unequal c d p x r ne h)
  | inl eq ↦
      ap (strip_prefix (String.◌∷◌ c p)) (cons-append d x y)
      ∙ prefix_equal c d p (x ++ y) eq
      ∙ strip_prefix-append p x y r (sym (prefix_equal c d p x eq) ∙ h)
]

pub strip_prefix-split : (p s r : String) → strip_prefix p s ≡ some r → s ≡ p ++ r
unfolding strip_prefix
strip_prefix-split String.[] s r h = some_inj.0 h ∙ sym (nil-append r)
strip_prefix-split (String.◌∷◌ c p) String.[] r h = absurd (ground (arith, h))
strip_prefix-split (String.◌∷◌ c p) (String.◌∷◌ d s) r h = elim (Bool-cases (code c == code d)) [
  | inr ne ↦ absurd (prefix_unequal c d p s r ne h)
  | inl eq ↦
      let same : d ≡ c = sym (Char-path c d ((==_iff (code c) (code d)).0 eq)) in
      let rest : s ≡ p ++ r = strip_prefix-split p s r (sym (prefix_equal c d p s eq) ∙ h) in
      ap (String.◌∷◌ d) rest ∙ ap (λ e. String.◌∷◌ e (p ++ r)) same ∙ sym (cons-append c p r)
]

-- No match at the first character, and none later.
find-cons :
    (p s : String) (d : Char)
    → find p (String.◌∷◌ d s) ≡ none
    → (strip_prefix p (String.◌∷◌ d s) ≡ none) × (find p s ≡ none)
unfolding find
find-cons p s d h = elim (Option-cases (strip_prefix p (String.◌∷◌ d s))) [
  | inr (r, e) ↦
      let hit : find p (String.◌∷◌ d s) ≡ some (String.[], r) = rw (e, find) refl in
      absurd (ground (arith, sym hit ∙ h))
  | inl e ↦ elim (Option-cases (find p s)) [
    | inl f ↦ (e, f)
    | inr (r, f) ↦
        let hit : find p (String.◌∷◌ d s) ≡ some (String.◌∷◌ d r.0, r.1) = rw (e, f, find) refl in
        absurd (ground (arith, sym hit ∙ h))
  ]
]

find-none :
    (p s : String) (d : Char)
    → strip_prefix p (String.◌∷◌ d s) ≡ none
    → find p s ≡ none
    → find p (String.◌∷◌ d s) ≡ none
unfolding find
find-none p s d h k = rw (h, k, find) refl

-- A match in the beginning of a text is one in the text.
strip_prefix-none : (q x y : String) → strip_prefix q (x ++ y) ≡ none → strip_prefix q x ≡ none
strip_prefix-none q x y h = elim (Option-cases (strip_prefix q x)) [
  | inl e ↦ e
  | inr (r, e) ↦ absurd (ground (arith, sym (strip_prefix-append q x y r e) ∙ h))
]

-- A text without a match has none in its end.
pub find-append_right : (p x y : String) → find p (x ++ y) ≡ none → find p y ≡ none
find-append_right p String.[] y h = sym (ap (find p) (nil-append y)) ∙ h
find-append_right p (String.◌∷◌ d x) y h =
    find-append_right p x y (find-cons p (x ++ y) d (sym (ap (find p) (cons-append d x y)) ∙ h)).1

-- A text without a match has none in its beginning.
pub find-append_left :
    (c : Char) (p x y : String)
    → find (String.◌∷◌ c p) (x ++ y) ≡ none
    → find (String.◌∷◌ c p) x ≡ none
unfolding find strip_prefix
find-append_left c p String.[] y h = refl
find-append_left c p (String.◌∷◌ d x) y h =
    let q = String.◌∷◌ c p in
    let (here, later) = find-cons q (x ++ y) d (sym (ap (find q) (cons-append d x y)) ∙ h) in
    find-none q x d
      (strip_prefix-none q (String.◌∷◌ d x) y (ap (strip_prefix q) (cons-append d x y) ∙ here))
      (find-append_left c p x y later)

-- The text before the first match, the pattern and the text after it are the text, and there is no
-- match in the text before.
pub find-split :
    (c : Char) (p s b a : String)
    → find (String.◌∷◌ c p) s ≡ some (b, a)
    → (s ≡ b ++ (String.◌∷◌ c p ++ a)) × (find (String.◌∷◌ c p) b ≡ none)
unfolding find strip_prefix
find-split c p String.[] b a h = absurd (ground (arith, h))
find-split c p (String.◌∷◌ d s) b a h =
    let q = String.◌∷◌ c p in
    elim (Option-cases (strip_prefix q (String.◌∷◌ d s))) [
      | inr (r, e) ↦
          let hit : find q (String.◌∷◌ d s) ≡ some (String.[], r) = rw (e, find) refl in
          subst (λ t. (String.◌∷◌ d s ≡ t.0 ++ (q ++ t.1)) × (find q t.0 ≡ none))
            (some_inj.0 (sym hit ∙ h))
            (strip_prefix-split q (String.◌∷◌ d s) r e ∙ sym (nil-append (q ++ r)), refl)
      | inl e ↦ elim (Option-cases (find q s)) [
        | inl f ↦ absurd (ground (arith, sym (find-none q s d e f) ∙ h))
        | inr (r, f) ↦
            let hit : find q (String.◌∷◌ d s) ≡ some (String.◌∷◌ d r.0, r.1) =
              rw (e, f, find) refl in
            let (split, clean) = find-split c p s r.0 r.1 f in
            let whole : String.◌∷◌ d s ≡ String.◌∷◌ d r.0 ++ (q ++ r.1) =
              ap (String.◌∷◌ d) split ∙ sym (cons-append d r.0 (q ++ r.1)) in
            let before : strip_prefix q (String.◌∷◌ d r.0) ≡ none =
              strip_prefix-none q (String.◌∷◌ d r.0) (q ++ r.1)
                (sym (ap (strip_prefix q) whole) ∙ e) in
            subst (λ t. (String.◌∷◌ d s ≡ t.0 ++ (q ++ t.1)) × (find q t.0 ≡ none))
              (some_inj.0 (sym hit ∙ h)) (whole, find-none q r.0 d before clean)
      ]
    ]
