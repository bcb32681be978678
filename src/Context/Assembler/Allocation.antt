-- ===== src/Context/Assembler/Allocation.antt =====
-- The costs of the parts that are chosen (src/context_assembler.rs).
use rust_claw_oc.Prelude.{
  ℕ, ◌+◌, ◌-◌, ◌≤◌, ◌≡◌, refl, ap, ◌∙◌, inl, inr, Bool, true, false, not, List, [], ◌∷◌, ◌++◌, push,
  keep, All, All-append, String, Option, none, some, is_blank, sym, ltb, leb, leb→le, Bool-cases,
  arith,
}
use rust_claw_oc.Context.Evidence.{Evidence, FileSystem}
use rust_claw_oc.Prelude.Sort.{insert_sorted, sort_by, All-sort}
use rust_claw_oc.Context.Assembler.{
  durable_memory, execution_notices, skill_contract, skill_instructions, skill_state_summary,
  Scores, PromptCandidate, Allocated, Sources, is_evidence, precedes, is_stable, CandidateKind,
  last_parts, optional_part, tools_part, turn_parts, evidence_parts, candidates, reserve_required,
  evict, admit_optional, cost_of, allocate, assemble_prompt,
}

module _ {Score : Type 0} where
  abbrev pub IsPlain : List (PromptCandidate Score) → Type 0
  IsPlain cs = All (λ c. is_evidence c.kind ≡ false) cs

  cost-append :
      (cs ds : List (PromptCandidate Score)) → cost_of (cs ++ ds) ≡ cost_of cs + cost_of ds
  unfolding cost_of
  cost-append [] ds = omega arith
  cost-append (c ∷ cs) ds = omega (arith, cost-append cs ds)

  -- The parts and what remains of the budget together stay within it.
  abbrev Within : ℕ → Allocated Score → Type 0
  Within budget state = cost_of state.final_selection + state.budget_remaining ≤ budget

  push-Within :
      (budget : ℕ) (state : Allocated Score) (c : PromptCandidate Score)
      → Within budget state
      → leb c.token_cost state.budget_remaining ≡ true
      → cost_of (push state.final_selection c) + (state.budget_remaining - c.token_cost) ≤ budget
  unfolding cost_of
  push-Within budget state c h fits = omega (
    arith,
    h,
    cost-append state.final_selection (c ∷ []),
    leb→le c.token_cost state.budget_remaining fits,
  )

  reserve-Within :
      (budget : ℕ) (reqs : List (PromptCandidate Score)) (state : Allocated Score)
      → Within budget state
      → Within budget (reserve_required reqs state)
  unfolding reserve_required
  reserve-Within budget [] state h = h
  reserve-Within budget (r ∷ reqs) state h =
      elim (Bool-cases (leb r.token_cost state.budget_remaining)) [
        | inl fits ↦
            rw (fits, reserve_required)
              (reserve-Within budget reqs _ (push-Within budget state r h fits))
        | inr over ↦ rw (over, reserve_required) (reserve-Within budget reqs _ (omega (arith, h)))
      ]

  evict-Within :
      (budget : ℕ) (opt : PromptCandidate Score) (state : Allocated Score)
      → is_evidence opt.kind ≡ false
      → Within budget state
      → Within budget (evict opt state)
  unfolding evict
  evict-Within budget opt state e h = rw (e, evict) h

  admit-Within :
      (budget : ℕ) (opts : List (PromptCandidate Score)) (state : Allocated Score)
      → IsPlain opts
      → Within budget state
      → Within budget (admit_optional opts state)
  unfolding admit_optional
  admit-Within budget [] state p h = h
  admit-Within budget (o ∷ opts) state p h =
      elim (Bool-cases (leb o.token_cost state.budget_remaining)) [
        | inl fits ↦
            rw (fits, admit_optional)
              (admit-Within budget opts _ p.1 (push-Within budget state o h fits))
        | inr over ↦
            rw (over, admit_optional)
              (admit-Within budget opts (evict o state) p.1 (evict-Within budget o state p.0 h))
      ]

  cost-insert :
      (less : PromptCandidate Score → PromptCandidate Score → Bool) (c : PromptCandidate Score)
      (cs : List (PromptCandidate Score))
      → cost_of (insert_sorted less c cs) ≡ c.token_cost + cost_of cs
  unfolding insert_sorted cost_of
  cost-insert less c [] = refl
  cost-insert less c (d ∷ cs) = elim (Bool-cases (less d c)) [
    | inl later ↦ rw (later, insert_sorted) (omega (arith, cost-insert less c cs))
    | inr here ↦ rw (here, insert_sorted) refl
  ]

  cost-sort :
      (less : PromptCandidate Score → PromptCandidate Score → Bool)
      (cs : List (PromptCandidate Score))
      → cost_of (sort_by less cs) ≡ cost_of cs
  unfolding sort_by cost_of
  cost-sort less [] = refl
  cost-sort less (c ∷ cs) =
      cost-insert less c (sort_by less cs) ∙ ap (λ n. c.token_cost + n) (cost-sort less cs)

  cost-keep :
      (p : PromptCandidate Score → Bool) (cs : List (PromptCandidate Score))
      → cost_of (keep p cs) + cost_of (keep (λ c. not (p c)) cs) ≡ cost_of cs
  unfolding cost_of
  cost-keep p [] = refl
  cost-keep p (c ∷ cs) = elim (Bool-cases (p c)) [
    | inl yes' ↦ rw yes' (omega (arith, cost-keep p cs))
    | inr no' ↦ rw no' (omega (arith, cost-keep p cs))
  ]

module _ {A : Type 0} (P : A → Type 0) where
  All-keep : (p : A → Bool) (xs : List A) → All P xs → All P (keep p xs)
  All-keep p [] h = tt
  All-keep p (x ∷ xs) h = elim (Bool-cases (p x)) [
    | inl yes' ↦ rw yes' (h.0, All-keep p xs h.1)
    | inr no' ↦ rw no' (All-keep p xs h.1)
  ]

module _ {Score : Type 0} (scores : Scores Score) where
  -- Of parts without evidence, those that are chosen cost at most the budget.
  pub allocate-within :
      (budget : ℕ) (cs : List (PromptCandidate Score))
      → IsPlain cs
      → cost_of (allocate scores budget cs).final_selection ≤ budget
  unfolding allocate cost_of
  allocate-within budget cs p =
      let start : Allocated Score = record {
        budget_remaining = budget;
        final_selection = [];
        evicted_items = [];
      } in
      let reqs = keep (λ c. c.required) cs in
      let opts = keep (λ c. not c.required) cs in
      let done =
        admit-Within budget (sort_by (precedes scores) opts) (reserve_required reqs start)
          (All-sort _ (precedes scores) opts (All-keep _ _ cs p))
          (reserve-Within budget reqs start (omega arith)) in
      omega (arith, done)

  turns-IsPlain : (i : ℕ) (turns : List String) → IsPlain (turn_parts scores i turns)
  unfolding turn_parts
  turns-IsPlain i [] = tt
  turns-IsPlain i (t ∷ ts) = (refl, turns-IsPlain (i + 1) ts)

  optional-IsPlain :
      (id : String) (kind : CandidateKind) (priority layer : ℕ) (heading : String)
      (part : Option String)
      → is_evidence kind ≡ false
      → IsPlain (optional_part scores id kind priority layer heading part)
  optional-IsPlain id kind priority layer heading none e = tt
  optional-IsPlain id kind priority layer heading (some text) e =
      elim (Bool-cases (is_blank text)) [ inl blank ↦ rw blank tt | inr full ↦ rw full (e, tt) ]

  tools-IsPlain : (schemas : String) → IsPlain (tools_part scores schemas)
  tools-IsPlain schemas = elim (Bool-cases (is_blank schemas)) [
    | inl blank ↦ rw blank tt
    | inr full ↦ rw full (refl, tt)
  ]

  no_evidence :
      (files : FileSystem) (now : ℕ) (evs : List (Evidence Score))
      → evs ≡ []
      → IsPlain (evidence_parts scores files now evs)
  unfolding evidence_parts
  no_evidence files now [] e = tt
  no_evidence files now (ev ∷ evs) e = absurd (ground (arith, e))

  candidates-IsPlain :
      (files : FileSystem) (now : ℕ) (src : Sources Score)
      → src.active_evidence ≡ []
      → IsPlain (candidates scores files now src)
  unfolding candidates
  candidates-IsPlain files now src e =
      let state : IsPlain (last_parts scores src) = (refl, turns-IsPlain 0 src.transcript_tail) in
      let memory =
        optional-IsPlain "durable_memory" durable_memory 800 1 "WORKSPACE MEMORY:\n" src.memory
          refl in
      let notices =
        optional-IsPlain "execution_notices" execution_notices 850 2 "--- [EXECUTION NOTICES] ---\n"
          src.notices refl in
      let contract =
        optional-IsPlain "skill_contract" skill_contract 650 3 "--- [ACTIVE SKILL CONTRACT] ---\n"
          src.contract refl in
      let instructions =
        optional-IsPlain "skill_instructions" skill_instructions 625 4
          "--- [ACTIVE SKILL INSTRUCTIONS] ---\n" src.instructions refl in
      let summary =
        optional-IsPlain "skill_state_summary" skill_state_summary 600 5
          "--- [ACTIVE SKILL STATE] ---\n" src.state_summary refl in
      let evidence = no_evidence files now src.active_evidence e in
      let base = All-append _ _ _ (tools-IsPlain src.tool_schemas) memory in
      let with_notices = All-append _ _ _ (All-append _ _ _ base evidence) notices in
      let with_skill =
        All-append _ _ _ (All-append _ _ _ (All-append _ _ _ with_notices contract) instructions)
          summary in
      (refl, All-append _ _ _ with_skill state)

  -- Without evidence, the report of a system prompt never counts more tokens than the budget that
  -- it was given, and the tokens that it counts are those of its stable and of its volatile parts.
  pub assemble_prompt-within :
      (budget : ℕ) (files : FileSystem) (now : ℕ) (src : Sources Score)
      → src.active_evidence ≡ []
      → ((assemble_prompt scores budget files now src).1.used_tokens ≤ budget)
        × ((assemble_prompt scores budget files now src).1.used_tokens
            ≡ (assemble_prompt scores budget files now src).1.stable_tokens
              + (assemble_prompt scores budget files now src).1.volatile_tokens)
  unfolding assemble_prompt
  assemble_prompt-within budget files now src e =
      let cs = candidates scores files now src in
      let chosen = (allocate scores budget cs).final_selection in
      let within = allocate-within budget cs (candidates-IsPlain files now src e) in
      (
        omega (arith, within, cost-sort (λ a b. ltb a.layer b.layer) chosen),
        sym (cost-keep is_stable (sort_by (λ a b. ltb a.layer b.layer) chosen)),
      )
