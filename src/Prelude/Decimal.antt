-- ===== src/Prelude/Decimal.antt =====
-- Numbers printed in decimal, as `format!` does, and that two numbers never print alike.
pub mod Parse
use Prim.Native.Nat.{ℕ, zero, suc, ◌+◌, ◌-◌, ◌*◌, ◌/◌, ◌%◌, ◌<◌}
use Prim.Native.Char.{code}
use Prim.Native.String.{String, ◌++◌ as append}
use mathlib.Core.Path.{◌≡◌, refl, sym, ap, ◌∙◌}
use mathlib.Core.Logic.{inl, inr}
use native.Mathlib.Omega.{arith}
use text.Mathlib.TextLemmas.{cons-append, nil-append}
use rust_claw_oc.Prelude.Tests.{ltb, ◌==◌, if◌then◌else◌, Bool-cases}

digit : ℕ → String
digit n =
    if n == 0
    then "0"
    else if n == 1
    then "1"
    else if n == 2
    then "2"
    else if n == 3
    then "3"
    else if n == 4
    then "4"
    else if n == 5
    then "5"
    else if n == 6
    then "6"
    else if n == 7
    then "7"
    else if n == 8
    then "8"
    else "9"

digits : ℕ → ℕ → String
digits zero n = ""
digits (suc fuel) n =
    let front = digits fuel (n / 10) in if ltb n 10 then digit n else append front (digit (n % 10))

unfoldable pub show : ℕ → String
unfolding digits digit
show n = digits (suc n) n

read : ℕ → String → ℕ
read acc String.[] = acc
read acc (String.◌∷◌ c s) = read (acc * 10 + (code c - 48)) s

read-append : (acc : ℕ) (s t : String) → read acc (append s t) ≡ read (read acc s) t
unfolding read
read-append acc String.[] t = ap (read acc) (nil-append t)
read-append acc (String.◌∷◌ c s) t =
    ap (read acc) (cons-append c s t) ∙ read-append (acc * 10 + (code c - 48)) s t

read-digit : (acc n : ℕ) → n < 10 → read acc (digit n) ≡ acc * 10 + n
unfolding read digit
read-digit acc zero h = omega arith
read-digit acc (suc zero) h = omega arith
read-digit acc (suc (suc zero)) h = omega arith
read-digit acc (suc (suc (suc zero))) h = omega arith
read-digit acc (suc (suc (suc (suc zero)))) h = omega arith
read-digit acc (suc (suc (suc (suc (suc zero))))) h = omega arith
read-digit acc (suc (suc (suc (suc (suc (suc zero)))))) h = omega arith
read-digit acc (suc (suc (suc (suc (suc (suc (suc zero))))))) h = omega arith
read-digit acc (suc (suc (suc (suc (suc (suc (suc (suc zero)))))))) h = omega arith
read-digit acc (suc (suc (suc (suc (suc (suc (suc (suc (suc zero))))))))) h = omega arith
read-digit acc (suc (suc (suc (suc (suc (suc (suc (suc (suc (suc n)))))))))) h =
    absurd (omega arith)

read-digits : (fuel n : ℕ) → n < fuel → read 0 (digits fuel n) ≡ n
unfolding digits
read-digits zero n h = elim h [ ]
read-digits (suc fuel) n h = elim (Bool-cases (ltb n 10)) [
  | inl small ↦ rw small (read-digit 0 n (ground arith) ∙ omega arith)
  | inr big ↦
      rw (big, read-append)
        (rw (read-digits fuel (n / 10) (ground arith))
          (read-digit (n / 10) (n % 10) (omega arith) ∙ omega arith))
]

-- Different numbers have different decimal texts.
pub show-injective : (a b : ℕ) → show a ≡ show b → a ≡ b
unfolding show
show-injective a b e =
    sym (read-digits (suc a) a (omega arith)) ∙ ap (read 0) e ∙ read-digits (suc b) b (omega arith)

show_test : show 1204 ≡ "1204"
unfolding show
show_test = refl
