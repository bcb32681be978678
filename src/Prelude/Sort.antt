-- ===== src/Prelude/Sort.antt =====
-- `sort_by` and `sort_by_key` of a list, by insertion: equals keep their order.
use mathlib.Core.Bool.{Bool}
use mathlib.Core.Logic.{inl, inr}
use mathlib.Core.List.{List, [], ◌∷◌}
use rust_claw_oc.Prelude.Tests.{if◌then◌else◌, Bool-cases}
use rust_claw_oc.Prelude.Lists.{All}

module _ {A : Type 0} (less : A → A → Bool) where
  unfoldable pub insert_sorted : A → List A → List A
  insert_sorted x [] = x ∷ []
  insert_sorted x (y ∷ ys) =
      let rest = insert_sorted x ys in if less y x then y ∷ rest else x ∷ y ∷ ys

  unfoldable pub sort_by : List A → List A
  unfolding insert_sorted
  sort_by [] = []
  sort_by (x ∷ xs) = insert_sorted x (sort_by xs)

module _ {A : Type 0} (P : A → Type 0) where
  All-insert :
      (less : A → A → Bool) (x : A) (xs : List A) → P x → All P xs → All P (insert_sorted less x xs)
  unfolding insert_sorted
  All-insert less x [] h hs = (h, tt)
  All-insert less x (y ∷ ys) h hs = elim (Bool-cases (less y x)) [
    | inl later ↦ rw (later, insert_sorted) (hs.0, All-insert less x ys h hs.1)
    | inr here ↦ rw (here, insert_sorted) (h, hs)
  ]

  pub All-sort : (less : A → A → Bool) (xs : List A) → All P xs → All P (sort_by less xs)
  unfolding sort_by
  All-sort less [] h = tt
  All-sort less (x ∷ xs) h = All-insert less x (sort_by less xs) h.0 (All-sort less xs h.1)
