-- ===== src/Context/Current/Compress.antt =====
-- What a compression leaves alone (src/context/history.rs).
use mathlib.Core.Option.{some_inj}
use mathlib.Core.Path.{subst}
use rust_claw_oc.Prelude.{
  ℕ, zero, suc, ◌+◌, ◌-◌, ◌<◌, ◌≡◌, refl, sym, ap, ◌∙◌, ◌⊎◌, inl, inr, ◌==◌, Bool, false, some,
  List, [], ◌∷◌, any, last, length, take, All, get_elem?, is_empty, leb, str_eq, Bool-cases,
  Option-cases, arith,
}
use rust_claw_oc.Context.{Crates, Message}
use rust_claw_oc.Context.Current.{
  Compression, function_indices, set_at, compress_message, size_at, compress_at, compress_turn,
}

abbrev pub among : List ℕ → ℕ → Bool
among is j = any (λ i. i == j) is

among-take : (n j : ℕ) (is : List ℕ) → among is j ≡ false → among (take n is) j ≡ false
among-take zero j is h = refl
among-take (suc n) j [] h = refl
among-take (suc n) j (i ∷ is) h =
    let rest = among-take n j is (ground arith) in ground (arith, h, rest)

abbrev Increasing : List ℕ → Type 0
Increasing [] = Unit
Increasing (i ∷ is) = All (λ k. i < k) is × Increasing is

last-All : (P : ℕ → Type 0) (is : List ℕ) (j : ℕ) → last is ≡ some j → All P is → P j
last-All P [] j h a = absurd (ground (arith, h))
last-All P (i ∷ []) j h a = subst P (some_inj.0 h) a.0
last-All P (i ∷ k ∷ is) j h a = last-All P (k ∷ is) j h a.1

-- All but the last of an increasing list are not the last.
among-last :
    (is : List ℕ) (j : ℕ)
    → Increasing is
    → last is ≡ some j
    → among (take (length is - 1) is) j ≡ false
among-last [] j inc h = refl
among-last (i ∷ []) j inc h = refl
among-last (i ∷ k ∷ is) j inc h =
    let rest : among (take (suc (length is) - 1) (k ∷ is)) j ≡ false =
      among-last (k ∷ is) j inc.1 h in
    let less : i < j = last-All (λ n. i < n) (k ∷ is) j h inc.0 in
    let here : suc (suc (length is)) - 1 ≡ suc (length is) = omega arith in
    let there : suc (length is) - 1 ≡ length is = omega arith in
    let rest' : among (take (length is) (k ∷ is)) j ≡ false =
      subst (λ n. among (take n (k ∷ is)) j ≡ false) there rest in
    rw here (ground (arith, rest', less))

module _ {V : Type 0} where
  get_elem-set_at :
      (i j : ℕ) (m : Message V) (ms : List (Message V))
      → (i == j) ≡ false
      → get_elem? (set_at i m ms) j ≡ get_elem? ms j
  unfolding set_at
  get_elem-set_at i j m [] h = refl
  get_elem-set_at zero zero m (n ∷ ms) h = absurd (ground arith)
  get_elem-set_at zero (suc j) m (n ∷ ms) h = refl
  get_elem-set_at (suc i) zero m (n ∷ ms) h = refl
  get_elem-set_at (suc i) (suc j) m (n ∷ ms) h = get_elem-set_at i j m ms (ground arith)

  set_at-length :
      (i : ℕ) (m : Message V) (ms : List (Message V)) → length (set_at i m ms) ≡ length ms
  unfolding set_at
  set_at-length i m [] = refl
  set_at-length zero m (n ∷ ms) = refl
  set_at-length (suc i) m (n ∷ ms) = ap suc (set_at-length i m ms)

  -- The places are counted from `i` on.
  below_indices :
      (i j : ℕ) (ms : List (Message V)) → j < i → among (function_indices i ms) j ≡ false
  unfolding function_indices
  below_indices i j [] h = refl
  below_indices i j (m ∷ ms) h =
      let rest = below_indices (suc i) j ms (omega (arith, h)) in ground (arith, rest)

  -- The place of a message with another role is not among them.
  other_indices :
      (i k : ℕ) (ms : List (Message V)) (m : Message V)
      → get_elem? ms k ≡ some m
      → str_eq m.role "function" ≡ false
      → among (function_indices i ms) (i + k) ≡ false
  unfolding function_indices
  other_indices i k [] m h r = refl
  other_indices i zero (n ∷ ms) m h r = elim (Bool-cases (str_eq n.role "function")) [
    | inl f ↦ absurd (ground (arith, sym f ∙ ap (λ x. str_eq x.role "function") (some_inj.0 h) ∙ r))
    | inr f ↦ rw f (below_indices (suc i) (i + 0) ms (omega arith))
  ]
  other_indices i (suc k) (n ∷ ms) m h r =
      let rest : among (function_indices (suc i) ms) (suc i + k) ≡ false =
        other_indices (suc i) k ms m h r in
      let here : i + suc k ≡ suc i + k = omega arith in rw here (ground (arith, rest))

  indices-All : (i k : ℕ) (ms : List (Message V)) → i < k → All (λ j. i < j) (function_indices k ms)
  unfolding function_indices
  indices-All i k [] h = tt
  indices-All i k (m ∷ ms) h =
      let rest = indices-All i (suc k) ms (omega (arith, h)) in ground (arith, rest)

  indices-Increasing : (i : ℕ) (ms : List (Message V)) → Increasing (function_indices i ms)
  unfolding function_indices
  indices-Increasing i [] = tt
  indices-Increasing i (m ∷ ms) =
      let rest = indices-Increasing (suc i) ms in
      let above = indices-All i (suc i) ms (omega arith) in ground (arith, rest, above)

module _ {V : Type 0} (crates : Crates V) where
  compress_message-keeps :
      (i j : ℕ) (m : Message V) (state : Compression V)
      → (i == j) ≡ false
      → get_elem? (compress_message crates i m state).messages j ≡ get_elem? state.messages j
  unfolding compress_message
  compress_message-keeps i j m state h = get_elem-set_at i j _ state.messages h

  compress_message-length :
      (i : ℕ) (m : Message V) (state : Compression V)
      → length (compress_message crates i m state).messages ≡ length state.messages
  unfolding compress_message
  compress_message-length i m state = set_at-length i _ state.messages

  compress_at-keeps :
      (max_bytes : ℕ) (is : List ℕ) (state : Compression V) (j : ℕ)
      → among is j ≡ false
      → get_elem? (compress_at crates max_bytes is state).messages j ≡ get_elem? state.messages j
  unfolding compress_at
  compress_at-keeps max_bytes [] state j h = refl
  compress_at-keeps max_bytes (i ∷ is) state j h =
      elim (Option-cases (get_elem? state.messages i)) [
        | inl e ↦ rw (e, compress_at) refl
        | inr (m, e) ↦
            let next = compress_message crates i m state in
            let here : get_elem? next.messages j ≡ get_elem? state.messages j =
              compress_message-keeps i j m state (ground (arith, h)) in
            let later = compress_at-keeps max_bytes is next j (ground (arith, h)) in
            elim (Bool-cases (leb next.current_size max_bytes)) [
              | inl small ↦ rw (e, compress_at, small) here
              | inr large ↦ rw (e, compress_at, large) (later ∙ here)
            ]
      ]

  compress_at-length :
      (max_bytes : ℕ) (is : List ℕ) (state : Compression V)
      → length (compress_at crates max_bytes is state).messages ≡ length state.messages
  unfolding compress_at
  compress_at-length max_bytes [] state = refl
  compress_at-length max_bytes (i ∷ is) state = elim (Option-cases (get_elem? state.messages i)) [
    | inl e ↦ rw (e, compress_at) refl
    | inr (m, e) ↦
        let next = compress_message crates i m state in
        let here : length next.messages ≡ length state.messages =
          compress_message-length i m state in
        elim (Bool-cases (leb next.current_size max_bytes)) [
          | inl small ↦ rw (e, compress_at, small) here
          | inr large ↦ rw (e, compress_at, large) (compress_at-length max_bytes is next ∙ here)
        ]
  ]

  compress_turn-at :
      (max_bytes : ℕ) (ms : List (Message V)) (j : ℕ)
      → among (take (length (function_indices 0 ms) - 1) (function_indices 0 ms)) j ≡ false
      → (get_elem? (compress_turn crates max_bytes ms).0 j ≡ get_elem? ms j)
        × (length (compress_turn crates max_bytes ms).0 ≡ length ms)
  unfolding compress_turn
  compress_turn-at max_bytes ms j h =
      let is = function_indices 0 ms in
      let state : Compression V = record {
        messages = ms;
        current_size = size_at crates is ms;
        compressed_count = 0;
      } in
      elim (Bool-cases (is_empty is)) [
        | inl nothing ↦ rw (nothing, compress_turn) (refl, refl)
        | inr some_left ↦ elim (Bool-cases (leb (size_at crates is ms) max_bytes)) [
          | inl small ↦ rw (some_left, small, compress_turn) (refl, refl)
          | inr large ↦
              rw (some_left, large, compress_turn)
                (
                  compress_at-keeps max_bytes (take (length is - 1) is) state j h,
                  compress_at-length max_bytes (take (length is - 1) is) state,
                )
        ]
      ]

  -- A compression of the current turn changes neither a message of another role than `function` nor
  -- the last message with that role, and keeps the number of messages.
  pub compress_turn-keeps :
      (max_bytes : ℕ) (ms : List (Message V)) (j : ℕ) (m : Message V)
      → get_elem? ms j ≡ some m
      → (str_eq m.role "function" ≡ false) ⊎ (last (function_indices 0 ms) ≡ some j)
      → (get_elem? (compress_turn crates max_bytes ms).0 j ≡ some m)
        × (length (compress_turn crates max_bytes ms).0 ≡ length ms)
  compress_turn-keeps max_bytes ms j m e (inl other) =
      let (here, size) = compress_turn-at max_bytes ms j (
        among-take (length (function_indices 0 ms) - 1) j (function_indices 0 ms)
          (ground (arith, other_indices 0 j ms m e other))) in
      (here ∙ e, size)
  compress_turn-keeps max_bytes ms j m e (inr final) =
      let (here, size) =
        compress_turn-at max_bytes ms j
          (among-last (function_indices 0 ms) j (indices-Increasing 0 ms) final) in
      (here ∙ e, size)
