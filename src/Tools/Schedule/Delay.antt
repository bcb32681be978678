-- ===== src/Tools/Schedule/Delay.antt =====
-- A delay that is printed is read back (src/tools/scheduler.rs).
use Prim.Native.Char.{Char, code}
use Prim.Native.String.{◌++◌ as append}
use text.Mathlib.TextLemmas.{cons-append, nil-append}
use rust_claw_oc.Prelude.{
  ℕ, ◌*◌, ◌%◌, ◌^◌, ◌<◌, ◌≡◌, refl, sym, ap, ◌∙◌, arith, String, true, false, some, ◌==◌, unwrap_or,
}
use rust_claw_oc.Prelude.Decimal.{show}
use rust_claw_oc.Prelude.Decimal.Parse.{
  parse_u64, all_digits, show_numeral, parse_u64-show, is_numeral-all_digits,
}
use rust_claw_oc.Tools.Schedule.{ends_with, trim_end_matches, delay_seconds}

ends_with-append :
    (c : ℕ) (s : String) (d : Char)
    → ends_with c (append s (String.◌∷◌ d String.[])) ≡ (code d == c)
unfolding ends_with
ends_with-append c String.[] d = ap (ends_with c) (nil-append (String.◌∷◌ d String.[]))
ends_with-append c (String.◌∷◌ e String.[]) d =
    ap (ends_with c) (cons-append e String.[] (String.◌∷◌ d String.[]))
    ∙ ap (λ t. ends_with c (String.◌∷◌ e t)) (nil-append (String.◌∷◌ d String.[]))
ends_with-append c (String.◌∷◌ e (String.◌∷◌ f s)) d =
    ap (ends_with c) (cons-append e (String.◌∷◌ f s) (String.◌∷◌ d String.[]))
    ∙ ap (λ t. ends_with c (String.◌∷◌ e t)) (cons-append f s (String.◌∷◌ d String.[]))
    ∙ sym (ap (ends_with c) (cons-append f s (String.◌∷◌ d String.[])))
    ∙ ends_with-append c (String.◌∷◌ f s) d

-- Behind digits, the unit is all that is cut off.
trim_end_matches-append :
    (c : ℕ) (s : String) (d : Char)
    → 57 < c
    → code d ≡ c
    → all_digits s ≡ true
    → trim_end_matches c (append s (String.◌∷◌ d String.[])) ≡ s
unfolding trim_end_matches
trim_end_matches-append c String.[] d above same h =
    ap (trim_end_matches c) (nil-append (String.◌∷◌ d String.[])) ∙ ground (arith, same)
trim_end_matches-append c (String.◌∷◌ e s) d above same h =
    let other : (code e == c) ≡ false = ground (arith, above, h) in
    let rest : trim_end_matches c (append s (String.◌∷◌ d String.[])) ≡ s =
      trim_end_matches-append c s d above same (ground (arith, h)) in
    ap (trim_end_matches c) (cons-append e s (String.◌∷◌ d String.[]))
    ∙ rw other (ap (λ t. String.◌∷◌ e t) rest)

read_back :
    (c n : ℕ) (d : Char)
    → 57 < c
    → code d ≡ c
    → n < 2 ^ 64
    → unwrap_or (parse_u64 (trim_end_matches c (append (show n) (String.◌∷◌ d String.[])))) 0 ≡ n
read_back c n d above same small =
    let cut =
      trim_end_matches-append c (show n) d above same
        (is_numeral-all_digits (show n) (show_numeral n)) in
    ap (λ s. unwrap_or (parse_u64 s) 0) cut ∙ ap (λ o. unwrap_or o 0) (parse_u64-show n small)

-- A number of seconds, minutes or hours that is printed with its unit is read back as seconds. The
-- number fits in 64 bits; the seconds wrap there.
pub delay_seconds-show :
    (n : ℕ)
    → n < 2 ^ 64
    → (delay_seconds (append (show n) "s") ≡ some n)
      × (delay_seconds (append (show n) "m") ≡ some (n * 60 % 2 ^ 64))
      × (delay_seconds (append (show n) "h") ≡ some (n * 3600 % 2 ^ 64))
unfolding delay_seconds
delay_seconds-show n small = (
  rw (delay_seconds, ends_with-append 115 (show n) "s")
      (ap some (read_back 115 n "s" (omega arith) refl small)),
  rw (delay_seconds, ends_with-append 115 (show n) "m", ends_with-append 109 (show n) "m")
      (ap (λ k. some (k * 60 % 2 ^ 64)) (read_back 109 n "m" (omega arith) refl small)),
  rw
      (
        delay_seconds,
        ends_with-append 115 (show n) "h",
        ends_with-append 109 (show n) "h",
        ends_with-append 104 (show n) "h",
      )
      (ap (λ k. some (k * 3600 % 2 ^ 64)) (read_back 104 n "h" (omega arith) refl small)),
)
