-- ===== src/Prelude/Find.antt =====
-- Rust's `str` searches that the components use: `find`, `contains`, `replace` and `lines`. A
-- pattern is not empty.
pub mod Laws
use Prim.Native.Nat.{ℕ, zero, suc, ◌-◌}
use Prim.Native.Char.{code}
use Prim.Native.String.{String, count, ◌++◌ as append}
use mathlib.Core.Bool.{Bool, false, ◌&&◌}
use mathlib.Core.List.{List, [], ◌∷◌}
use mathlib.Core.Option.{Option, none, some}
use mathlib.Core.Path.{◌≡◌, refl}
use rust_claw_oc.Prelude.Tests.{◌==◌, if◌then◌else◌}
use rust_claw_oc.Prelude.Outcome.{is_some}

-- What follows the pattern in a text that starts with it.
unfoldable pub strip_prefix : String → String → Option String
strip_prefix String.[] s = some s
strip_prefix (String.◌∷◌ c p) String.[] = none
strip_prefix (String.◌∷◌ c p) (String.◌∷◌ d s) =
    let rest = strip_prefix p s in if code c == code d then rest else none

-- `find`: the text before the first match and the text after it.
unfoldable pub find : String → String → Option (String × String)
unfolding strip_prefix
find p String.[] = elim (strip_prefix p String.[]) [ none ↦ none | some s ↦ some (String.[], s) ]
find p (String.◌∷◌ c s) = elim (strip_prefix p (String.◌∷◌ c s)) [
  | some rest ↦ some (String.[], rest)
  | none ↦ elim (find p s) [
    | none ↦ none
    | some (before, after) ↦ some (String.◌∷◌ c before, after)
  ]
]

abbrev pub contains : String → String → Bool
contains s p = is_some (find p s)

-- `replace`, past the `skip` characters that the last match still covers
replace_from : String → String → ℕ → String → String
replace_from p r skip String.[] = String.[]
replace_from p r (suc skip) (String.◌∷◌ c s) = replace_from p r skip s
replace_from p r zero (String.◌∷◌ c s) = elim (strip_prefix p (String.◌∷◌ c s)) [
  | some rest ↦ append r (replace_from p r (count p - 1) s)
  | none ↦ String.◌∷◌ c (replace_from p r zero s)
]

unfoldable pub replace : String → String → String → String
unfolding replace_from strip_prefix
replace s p r = replace_from p r zero s

cons_line : String → List String → List String
cons_line c [] = c ∷ []
cons_line c (l ∷ ls) = append c l ∷ ls

-- Does the text start with `\n`?
at_newline : String → Bool
at_newline String.[] = false
at_newline (String.◌∷◌ c s) = code c == 10

-- `lines`: a line ends at `\n` or `\r\n`, and the last may lack an end.
unfoldable pub lines : String → List String
unfolding cons_line at_newline
lines String.[] = []
lines (String.◌∷◌ c s) =
    let rest = lines s in
    if code c == 10
    then "" ∷ rest
    else if code c == 13 && at_newline s
    then rest
    else cons_line (String.◌∷◌ c String.[]) rest

replace_test : replace "a--b--c" "--" "+" ≡ "a+b+c"
unfolding replace
replace_test = refl

lines_test : lines "a\r\n\nb" ≡ "a" ∷ "" ∷ "b" ∷ []
unfolding lines
lines_test = refl
