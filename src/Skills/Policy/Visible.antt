-- ===== src/Skills/Policy/Visible.antt =====
-- Which tools a skill sees (src/skills/policy.rs).
use rust_claw_oc.Prelude.{
  Bool, ◌≡◌, ◌∙◌, refl, sym, ap, true, false, ◌&&◌, ◌||◌, String, List, [], ◌∷◌, any, is_empty,
  keep, push, str_eq, eq_iff, arith, Bool-cases, inl, inr,
}
use rust_claw_oc.Skills.Definition.{SkillDef}
use rust_claw_oc.Skills.Policy.{
  contains, canonical_name, canonicalize_from, canonicalize_tools, filter_tools_by_allowed_names,
  can_call, can_call_with_allowed_names,
}

contains-push :
    (xs : List String) (x y : String) → contains (push xs x) y ≡ contains xs y || str_eq x y
contains-push [] x y = ground arith
contains-push (z ∷ xs) x y = ground (arith, contains-push xs x y)

same_tool :
    (canonical tools : List String) (c x : String)
    → contains canonical c ≡ true
    → contains canonical x || any (λ t. str_eq (canonical_name t) x) tools
      ≡ contains canonical x || (str_eq c x || any (λ t. str_eq (canonical_name t) x) tools)
same_tool canonical tools c x old = elim (Bool-cases (str_eq c x)) [
  | inr apart ↦ ground arith
  | inl same ↦
      let there : contains canonical x ≡ true =
        ap (contains canonical) (sym ((eq_iff c x).0 same)) ∙ old in
      ground arith
]

contains-canonicalize_from :
    (canonical tools : List String) (x : String)
    → contains (canonicalize_from canonical tools) x
      ≡ contains canonical x || any (λ t. str_eq (canonical_name t) x) tools
unfolding canonicalize_from
contains-canonicalize_from canonical [] x = ground arith
contains-canonicalize_from canonical (t ∷ tools) x =
    let c = canonical_name t in
    elim (Bool-cases (contains canonical c)) [
      | inr new ↦ rw new (
          contains-canonicalize_from (push canonical c) tools x
          ∙ ground (arith, contains-push canonical c x))
      | inl old ↦
          rw old (contains-canonicalize_from canonical tools x ∙ same_tool canonical tools c x old)
    ]

is_empty-push : (xs : List String) (x : String) → is_empty (push xs x) ≡ false
is_empty-push [] x = refl
is_empty-push (y ∷ xs) x = refl

is_empty-contains : (xs : List String) (x : String) → contains xs x ≡ true → is_empty xs ≡ false
is_empty-contains [] x h = ground arith
is_empty-contains (y ∷ xs) x h = refl

keep_lem : {A : Type 0} (xs : List A) → keep (λ x. true) xs ≡ xs
keep_lem [] = refl
keep_lem (x ∷ xs) = ap (λ l. x ∷ l) (keep_lem xs)

-- No name stands twice.
abbrev pub Distinct : List String → Type 0
Distinct [] = Unit {0}
Distinct (x ∷ xs) = (contains xs x ≡ false) × Distinct xs

pub push-Distinct :
    (xs : List String) (x : String) → contains xs x ≡ false → Distinct xs → Distinct (push xs x)
push-Distinct [] x new h = (refl, tt)
push-Distinct (y ∷ xs) x new (h1, h2) = (
  ground (arith, contains-push xs x y, eq_iff x y, eq_iff y x),
  push-Distinct xs x (ground arith) h2,
)

canonicalize_from-Distinct :
    (canonical tools : List String)
    → Distinct canonical
    → Distinct (canonicalize_from canonical tools)
unfolding canonicalize_from
canonicalize_from-Distinct canonical [] h = h
canonicalize_from-Distinct canonical (t ∷ tools) h =
    elim (Bool-cases (contains canonical (canonical_name t))) [
      | inl old ↦ rw (old, canonicalize_from) (canonicalize_from-Distinct canonical tools h)
      | inr new ↦
          rw (new, canonicalize_from)
            (canonicalize_from-Distinct (push canonical (canonical_name t)) tools
              (push-Distinct canonical (canonical_name t) new h))
    ]

-- The canonical names of a list of tools are each tool's own canonical name, and none stands twice.
canonicalize_tools-Distinct :
    (tools : List String) (name : String)
    → Distinct (canonicalize_tools tools)
      × (contains (canonicalize_tools tools) name
          ≡ any (λ tool. str_eq (canonical_name tool) name) tools)
unfolding canonicalize_tools
canonicalize_tools-Distinct tools name =
    (canonicalize_from-Distinct [] tools tt, contains-canonicalize_from [] tools name)

canonicalize_from-is_empty :
    (canonical tools : List String)
    → is_empty (canonicalize_from canonical tools) ≡ is_empty canonical && is_empty tools
unfolding canonicalize_from
canonicalize_from-is_empty canonical [] = ground arith
canonicalize_from-is_empty canonical (t ∷ tools) =
    elim (Bool-cases (contains canonical (canonical_name t))) [
      | inl old ↦
          rw (old, canonicalize_from)
            (canonicalize_from-is_empty canonical tools
              ∙ ground (arith, is_empty-contains canonical (canonical_name t) old))
      | inr new ↦
          rw (new, canonicalize_from)
            (canonicalize_from-is_empty (push canonical (canonical_name t)) tools
              ∙ ground (arith, is_empty-push canonical (canonical_name t)))
    ]

pub is_empty-canonicalize_tools :
    (names : List String) → is_empty (canonicalize_tools names) ≡ is_empty names
unfolding canonicalize_tools
is_empty-canonicalize_tools names = canonicalize_from-is_empty [] names

-- May a tool of this name be called, where these names are allowed? The plan of the task always may;
-- else the canonical name of one must be the tool's, or `exec` if the tool is `wait`.
abbrev pub is_listed : List String → String → Bool
is_listed names tool_name =
    str_eq "task_plan" tool_name
    || any (λ name. str_eq (canonical_name name) tool_name) names
    || (str_eq tool_name "wait" && any (λ name. str_eq (canonical_name name) "exec") names)

pub can_call_with_allowed_names_lem :
    (names : List String) (tool_name : String)
    → can_call_with_allowed_names (canonicalize_tools names) tool_name ≡ is_listed names tool_name
unfolding can_call_with_allowed_names canonicalize_tools
can_call_with_allowed_names_lem names tool_name =
    rw (contains-canonicalize_from [] names tool_name, contains-canonicalize_from [] names "exec")
      (ground arith)

pub keep-same {ℓ} :
    {A : Type ℓ} (p q : A → Bool) → ((x : A) → p x ≡ q x) → (xs : List A) → keep p xs ≡ keep q xs
keep-same p q same [] = refl
keep-same p q same (x ∷ xs) = rw (same x, keep-same p q same xs) refl

-- What a skill that allows these names may call: everything, if it names nothing.
abbrev pub is_visible : List String → String → Bool
is_visible names tool_name = is_empty names || is_listed names tool_name

can_call_lem :
    {V : Type 0} (skill : SkillDef V) (tool_name : String)
    → can_call tool_name skill ≡ is_visible skill.meta.allowed_tools tool_name
unfolding can_call
can_call_lem skill tool_name = elim (Bool-cases (is_empty skill.meta.allowed_tools)) [
  | inl free ↦ rw free refl
  | inr bound ↦ rw bound (can_call_with_allowed_names_lem skill.meta.allowed_tools tool_name)
]

pub filter_tools_by_allowed_names_lem :
    {T : Type 0} (tools : List (String × T)) (names : List String)
    → filter_tools_by_allowed_names tools (canonicalize_tools names)
      ≡ keep (λ tool. is_visible names tool.0) tools
unfolding filter_tools_by_allowed_names
filter_tools_by_allowed_names_lem tools names = elim (Bool-cases (is_empty names)) [
  | inl free ↦ rw (is_empty-canonicalize_tools names, free) (sym (keep_lem tools))
  | inr bound ↦
      rw (is_empty-canonicalize_tools names, bound)
        (keep-same (λ tool. can_call_with_allowed_names (canonicalize_tools names) tool.0)
          (λ tool. is_listed names tool.0) (λ tool. can_call_with_allowed_names_lem names tool.0)
          tools)
]
