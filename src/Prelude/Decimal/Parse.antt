-- ===== src/Prelude/Decimal/Parse.antt =====
-- Rust's `str::parse::<u64>`, and that it reads a printed number.
use Prim.Native.Nat.{ℕ, zero, suc, ◌+◌, ◌-◌, ◌*◌, ◌/◌, ◌%◌, ◌^◌, ◌<◌}
use Prim.Native.Char.{code}
use Prim.Native.String.{String, ◌++◌ as append}
use mathlib.Core.Path.{◌≡◌, refl, sym, ap, ◌∙◌}
use mathlib.Core.Bool.{Bool, true, false, ◌&&◌}
use mathlib.Core.Option.{Option, none, some}
use mathlib.Core.Logic.{inl, inr}
use native.Mathlib.Omega.{arith}
use text.Mathlib.Text.{◌==◌ as str_eq}
use text.Mathlib.TextLemmas.{cons-append, nil-append}
use rust_claw_oc.Prelude.Tests.{ltb, leb, ◌==◌, if◌then◌else◌, Bool-cases}
use rust_claw_oc.Prelude.Decimal.{digit, digits, show}

-- The digits of a `u64`, behind the number that was read so far.
unfoldable pub read_digits : ℕ → String → Option ℕ
read_digits n String.[] = some n
read_digits n (String.◌∷◌ c s) =
    let next = n * 10 + (code c - 48) in
    let rest = read_digits next s in
    if leb 48 (code c) && leb (code c) 57 && ltb next (2 ^ 64) then rest else none

-- Digits, perhaps behind a plus sign.
unfoldable pub parse_u64 : String → Option ℕ
unfolding read_digits
parse_u64 String.[] = none
parse_u64 (String.◌∷◌ c s) =
    if code c == 43
    then (if str_eq s "" then none else read_digits 0 s)
    else read_digits 0 (String.◌∷◌ c s)

abbrev continue_at : String → Option ℕ → Option ℕ
continue_at t none = none
continue_at t (some n) = read_digits n t

read_digits-append :
    (n : ℕ) (s t : String) → read_digits n (append s t) ≡ continue_at t (read_digits n s)
unfolding read_digits
read_digits-append n String.[] t = ap (read_digits n) (nil-append t)
read_digits-append n (String.◌∷◌ c s) t =
    let next = n * 10 + (code c - 48) in
    let good = leb 48 (code c) && leb (code c) 57 && ltb next (2 ^ 64) in
    ap (read_digits n) (cons-append c s t) ∙ elim (Bool-cases good) [
      | inl fits ↦ rw fits (read_digits-append next s t)
      | inr bad ↦ rw bad refl
    ]

read_digits-digit :
    (m n : ℕ) → n < 10 → m * 10 + n < 2 ^ 64 → read_digits m (digit n) ≡ some (m * 10 + n)
unfolding read_digits digit
read_digits-digit m zero h k = ground arith
read_digits-digit m (suc zero) h k = ground arith
read_digits-digit m (suc (suc zero)) h k = ground arith
read_digits-digit m (suc (suc (suc zero))) h k = ground arith
read_digits-digit m (suc (suc (suc (suc zero)))) h k = ground arith
read_digits-digit m (suc (suc (suc (suc (suc zero))))) h k = ground arith
read_digits-digit m (suc (suc (suc (suc (suc (suc zero)))))) h k = ground arith
read_digits-digit m (suc (suc (suc (suc (suc (suc (suc zero))))))) h k = ground arith
read_digits-digit m (suc (suc (suc (suc (suc (suc (suc (suc zero)))))))) h k = ground arith
read_digits-digit m (suc (suc (suc (suc (suc (suc (suc (suc (suc zero))))))))) h k = ground arith
read_digits-digit m (suc (suc (suc (suc (suc (suc (suc (suc (suc (suc n)))))))))) h k =
    absurd (omega arith)

read_digits-digits : (fuel n : ℕ) → n < fuel → n < 2 ^ 64 → read_digits 0 (digits fuel n) ≡ some n
unfolding digits
read_digits-digits zero n h k = elim h [ ]
read_digits-digits (suc fuel) n h k = elim (Bool-cases (ltb n 10)) [
  | inl small ↦
      rw small (read_digits-digit 0 n (ground arith) (omega arith) ∙ ap some (omega arith))
  | inr big ↦
      rw (big, read_digits-append)
        (rw (read_digits-digits fuel (n / 10) (ground arith) (omega arith))
          (read_digits-digit (n / 10) (n % 10) (omega arith) (omega arith) ∙ ap some (omega arith)))
]

abbrev pub all_digits : String → Bool
all_digits String.[] = true
all_digits (String.◌∷◌ c s) =
    let rest = all_digits s in leb 48 (code c) && (leb (code c) 57 && rest)

-- Digits, at least one.
abbrev pub is_numeral : String → Bool
is_numeral String.[] = false
is_numeral (String.◌∷◌ c s) = all_digits (String.◌∷◌ c s)

all_digits-append :
    (s t : String) → all_digits s ≡ true → all_digits t ≡ true → all_digits (append s t) ≡ true
all_digits-append String.[] t h k = ap all_digits (nil-append t) ∙ k
all_digits-append (String.◌∷◌ c s) t h k =
    ap all_digits (cons-append c s t)
    ∙ ground (arith, h, all_digits-append s t (ground (arith, h)) k)

is_numeral-append :
    (s t : String) → is_numeral s ≡ true → all_digits t ≡ true → is_numeral (append s t) ≡ true
is_numeral-append String.[] t h k = absurd (ground (arith, h))
is_numeral-append (String.◌∷◌ c s) t h k =
    ap is_numeral (cons-append c s t)
    ∙ sym (ap all_digits (cons-append c s t))
    ∙ all_digits-append (String.◌∷◌ c s) t h k

pub is_numeral-all_digits : (s : String) → is_numeral s ≡ true → all_digits s ≡ true
is_numeral-all_digits String.[] h = refl
is_numeral-all_digits (String.◌∷◌ c s) h = h

digit_numeral : (n : ℕ) → n < 10 → is_numeral (digit n) ≡ true
unfolding digit
digit_numeral zero h = refl
digit_numeral (suc zero) h = refl
digit_numeral (suc (suc zero)) h = refl
digit_numeral (suc (suc (suc zero))) h = refl
digit_numeral (suc (suc (suc (suc zero)))) h = refl
digit_numeral (suc (suc (suc (suc (suc zero))))) h = refl
digit_numeral (suc (suc (suc (suc (suc (suc zero)))))) h = refl
digit_numeral (suc (suc (suc (suc (suc (suc (suc zero))))))) h = refl
digit_numeral (suc (suc (suc (suc (suc (suc (suc (suc zero)))))))) h = refl
digit_numeral (suc (suc (suc (suc (suc (suc (suc (suc (suc zero))))))))) h = refl
digit_numeral (suc (suc (suc (suc (suc (suc (suc (suc (suc (suc n)))))))))) h = absurd (omega arith)

digits_numeral : (fuel n : ℕ) → n < fuel → is_numeral (digits fuel n) ≡ true
unfolding digits
digits_numeral zero n h = elim h [ ]
digits_numeral (suc fuel) n h = elim (Bool-cases (ltb n 10)) [
  | inl small ↦ rw small (digit_numeral n (ground arith))
  | inr big ↦ rw big (
      is_numeral-append (digits fuel (n / 10)) (digit (n % 10))
        (digits_numeral fuel (n / 10) (ground arith))
        (is_numeral-all_digits (digit (n % 10)) (digit_numeral (n % 10) (omega arith))))
]

pub show_numeral : (n : ℕ) → is_numeral (show n) ≡ true
unfolding show
show_numeral n = digits_numeral (suc n) n (omega arith)

numeral_read : (s : String) → is_numeral s ≡ true → parse_u64 s ≡ read_digits 0 s
unfolding parse_u64
numeral_read String.[] h = absurd (ground (arith, h))
numeral_read (String.◌∷◌ c s) h =
    let unsigned : (code c == 43) ≡ false = ground (arith, h) in rw unsigned refl

pub parse_u64-show : (n : ℕ) → n < 2 ^ 64 → parse_u64 (show n) ≡ some n
unfolding show
parse_u64-show n small =
    numeral_read (show n) (show_numeral n) ∙ read_digits-digits (suc n) n (omega arith) small
