-- ===== src/ShellEscape/Tail.antt =====
-- What the tail of a shell's output holds (src/shell_escape.rs).
use rust_claw_oc.Prelude.{
  List, [], ◌∷◌, concat, refl, ℕ, zero, suc, ◌+◌, ◌-◌, ◌≤◌, ◌≡◌, refl, sym, ap, ◌∙◌, inl, inr,
  arith, String, List, [], ◌∷◌, ltb, leb, Bool-cases, char_count, skip_chars,
}
use native.Mathlib.Numerals.{unary_clauses}
use Prim.Native.String.{◌++◌ as append}
use text.Mathlib.TextLemmas.{
  cons-append, nil-append, append-nil, append_assoc, length-append, length-cons,
}
use mathlib.Core.Path.{subst}
use rust_claw_oc.ShellEscape.{TailBuffer, new_tail, push_chunk}

skip_chars-append :
    (k : ℕ) (s t : String)
    → k ≤ char_count s
    → append (skip_chars k s) t ≡ skip_chars k (append s t)
unfolding skip_chars
skip_chars-append zero s t h = refl
skip_chars-append (suc k) String.[] t h = absurd (omega (arith, h))
skip_chars-append (suc k) (String.◌∷◌ c s) t h =
    skip_chars-append k s t (omega (arith, h, length-cons c s))
    ∙ sym (ap (skip_chars (suc k)) (cons-append c s t))

skip_chars-skip_chars :
    (i j : ℕ) (s : String) → skip_chars i (skip_chars j s) ≡ skip_chars (j + i) s
unfolding skip_chars
skip_chars-skip_chars i zero s = ap (λ n. skip_chars n s) (omega arith)
skip_chars-skip_chars zero (suc j) String.[] = simp unary_clauses
skip_chars-skip_chars (suc i) (suc j) String.[] = simp unary_clauses
skip_chars-skip_chars i (suc j) (String.◌∷◌ c s) =
    let step : suc (j + i) ≡ suc j + i = omega arith in
    skip_chars-skip_chars i j s ∙ ap (λ n. skip_chars n (String.◌∷◌ c s)) step

char_count-skip_chars : (k : ℕ) (s : String) → char_count (skip_chars k s) ≡ char_count s - k
unfolding skip_chars
char_count-skip_chars zero s = omega arith
char_count-skip_chars (suc k) String.[] = omega arith
char_count-skip_chars (suc k) (String.◌∷◌ c s) =
    char_count-skip_chars k s ∙ omega (arith, length-cons c s)

-- The buffer holds the last characters of a text, and knows whether that is less than all.
abbrev pub IsTailOf : ℕ → String → TailBuffer → Type 0
IsTailOf m all b =
    (b.max_chars ≡ m)
    × (b.text ≡ skip_chars (char_count all - m) all)
    × (b.truncated ≡ ltb m (char_count all))

push_chunk-IsTailOf :
    (m : ℕ) (all chunk : String) (b : TailBuffer)
    → IsTailOf m all b
    → IsTailOf m (append all chunk) (push_chunk b chunk)
unfolding push_chunk
push_chunk-IsTailOf m all chunk b (room, text, cut) =
    let a = char_count all in
    let whole = append all chunk in
    let total : char_count whole ≡ a + char_count chunk = length-append all chunk in
    let joined : append b.text chunk ≡ skip_chars (a - m) whole =
      ap (λ t. append t chunk) text ∙ skip_chars-append (a - m) all chunk (omega arith) in
    let size : char_count (append b.text chunk) ≡ char_count whole - (a - m) =
      ap char_count joined ∙ char_count-skip_chars (a - m) whole in
    elim (Bool-cases (leb (char_count (append b.text chunk)) b.max_chars)) [
      | inl fits ↦
          rw (push_chunk, fits)
            (
              room,
              joined ∙ ap (λ n. skip_chars n whole) (ground (arith, total, size, fits, room)),
              cut ∙ ground (arith, total, size, fits, room),
            )
      | inr long ↦
          rw (push_chunk, long)
            (
              room,
              ap (λ t. skip_chars (char_count (append b.text chunk) - b.max_chars) t) joined
                  ∙ skip_chars-skip_chars (char_count (append b.text chunk) - b.max_chars) (a - m)
                      whole
                  ∙ ap (λ n. skip_chars n whole) (ground (arith, total, size, long, room)),
              ground (arith, total, size, long, room),
            )
    ]

-- The chunks of a run, one after the other.
abbrev pub push_all : TailBuffer → List String → TailBuffer
push_all b [] = b
push_all b (chunk ∷ chunks) = push_all (push_chunk b chunk) chunks

concat-cons : (s : String) (ss : List String) → concat (s ∷ ss) ≡ append s (concat ss)
concat-cons s [] = sym (append-nil s)
concat-cons s (t ∷ ss) = refl

push_all-after :
    (m : ℕ) (chunks : List String) (all : String) (b : TailBuffer)
    → IsTailOf m all b
    → IsTailOf m (append all (concat chunks)) (push_all b chunks)
push_all-after m [] all b h = subst (λ t. IsTailOf m t b) (sym (append-nil all)) h
push_all-after m (chunk ∷ chunks) all b h =
    subst (λ t. IsTailOf m t (push_all (push_chunk b chunk) chunks))
      (append_assoc all chunk (concat chunks) ∙ ap (append all) (sym (concat-cons chunk chunks)))
      (push_all-after m chunks (append all chunk) (push_chunk b chunk)
        (push_chunk-IsTailOf m all chunk b h))

-- However a run's output comes in chunks, the buffer holds its last characters, as many as it has room
-- for, and is marked as truncated exactly if the output has more.
pub push_all-IsTailOf :
    (m : ℕ) (chunks : List String) → IsTailOf m (concat chunks) (push_all (new_tail m) chunks)
unfolding skip_chars
push_all-IsTailOf m chunks =
    let none_cut : zero ≡ 0 - m = omega arith in
    let start : IsTailOf m "" (new_tail m) =
      (refl, ap (λ n. skip_chars n "") none_cut, ground arith) in
    subst (λ t. IsTailOf m t (push_all (new_tail m) chunks)) (nil-append (concat chunks))
      (push_all-after m chunks "" (new_tail m) start)
