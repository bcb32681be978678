-- ===== src/Prelude/Text.antt =====
-- Rust's `String` operations that the components use: `format!`, `join`, `trim` and character counts.
pub mod Parts
use Prim.Native.Nat.{ℕ, zero, suc}
use Prim.Native.Char.{code}
use Prim.Native.String.{String, count, len, ◌++◌ as append}
use mathlib.Core.Bool.{Bool, true, ◌&&◌, ◌||◌}
use mathlib.Core.List.{List, [], ◌∷◌}
use mathlib.Core.Path.{◌≡◌, refl}
use rust_claw_oc.Prelude.Tests.{leb, ◌==◌, if◌then◌else◌}

-- `format!`: the pieces in order.
abbrev pub concat : List String → String
concat [] = ""
concat (s ∷ []) = s
concat (s ∷ t ∷ ss) = append s (concat (t ∷ ss))

-- `slice::join`
abbrev pub join : String → List String → String
join sep [] = ""
join sep (s ∷ []) = s
join sep (s ∷ t ∷ ss) = append s (append sep (join sep (t ∷ ss)))

-- `chars().count()` and `len()`, the second in bytes.
abbrev pub char_count : String → ℕ
char_count s = count s

abbrev pub byte_len : String → ℕ
byte_len s = len s

-- `char::is_whitespace`: the code points with the property White_Space.
pub is_whitespace : ℕ → Bool
is_whitespace c =
    (leb 9 c && leb c 13)
    || c == 32
    || c == 0x85
    || c == 0xa0
    || c == 0x1680
    || (leb 0x2000 c && leb c 0x200a)
    || c == 0x2028
    || c == 0x2029
    || c == 0x202f
    || c == 0x205f
    || c == 0x3000

-- `s.trim().is_empty()`
unfoldable pub is_blank : String → Bool
unfolding is_whitespace
is_blank String.[] = true
is_blank (String.◌∷◌ c s) = is_whitespace (code c) && is_blank s

unfoldable pub trim_start : String → String
unfolding is_whitespace
trim_start String.[] = String.[]
trim_start (String.◌∷◌ c s) =
    let rest = trim_start s in if is_whitespace (code c) then rest else String.◌∷◌ c s

trim_end : String → String
unfolding is_blank
trim_end String.[] = String.[]
trim_end (String.◌∷◌ c s) =
    if is_blank (String.◌∷◌ c s) then String.[] else String.◌∷◌ c (trim_end s)

-- `str::trim`
unfoldable pub trim : String → String
unfolding trim_start trim_end
trim s = trim_end (trim_start s)

-- `chars().take(n).collect()` and `chars().skip(n).collect()`
unfoldable pub take_chars : ℕ → String → String
take_chars zero s = String.[]
take_chars (suc n) String.[] = String.[]
take_chars (suc n) (String.◌∷◌ c s) = String.◌∷◌ c (take_chars n s)

unfoldable pub skip_chars : ℕ → String → String
skip_chars zero s = s
skip_chars (suc n) String.[] = String.[]
skip_chars (suc n) (String.◌∷◌ c s) = skip_chars n s

trim_test : trim " a b  " ≡ "a b"
unfolding trim
trim_test = refl
