-- ===== src/Skills/Arguments/Accepted.antt =====
-- Which arguments are accepted (src/skills/arguments.rs), where the parameters are no JSON schema. The
-- code takes them for one if they have a member `type` or `properties`.
use rust_claw_oc.Prelude.{
  String, ◌≡◌, refl, sym, ap, ◌∙◌, inl, inr, arith, Bool, true, false, ◌&&◌, ◌||◌, not, none, some,
  List, [], ◌∷◌, map, keep, is_empty, is_some, All, Result, Result-cases, ok, err, if◌then◌else◌,
  Bool-cases, Option-cases,
}
use rust_claw_oc.Prelude.Dict.{Dict, lookup, insert, lookup-insert}
use rust_claw_oc.Skills.Arguments.{
  Values, ParameterSpec, contains_key, is_required, expected_type, map_spec,
  normalize_parameter_spec, value_matches_type, check_required, check_types, unknown_keys,
  check_members, validate_object_args, validate_json_args,
}

abbrev pub is_ok {ℓ κ} : {E : Type ℓ} {A : Type κ} → Result E A → Bool
is_ok (ok a) = true
is_ok (err e) = false

abbrev pub every {ℓ} : {A : Type ℓ} → (A → Bool) → List A → Bool
every p [] = true
every p (x ∷ xs) = let rest = every p xs in p x && rest

every-same {ℓ} :
    {A : Type ℓ} (p q : A → Bool) → ((x : A) → p x ≡ q x) → (xs : List A) → every p xs ≡ every q xs
every-same p q same [] = refl
every-same p q same (x ∷ xs) = rw (same x, every-same p q same xs) refl

keep-every :
    (p : String → Bool) (xs : List String) → is_empty (keep (λ x. not (p x)) xs) ≡ every p xs
keep-every p [] = refl
keep-every p (x ∷ xs) = elim (Bool-cases (p x)) [
  | inl good ↦ rw good (keep-every p xs)
  | inr bad ↦ rw bad refl
]

every-map {ℓ} :
    {A : Type ℓ} (p : String → Bool) (f : A → String) (xs : List A)
    → every p (map f xs) ≡ every (λ x. p (f x)) xs
every-map p f [] = refl
every-map p f (x ∷ xs) = rw (every-map p f xs) refl

module _ {V : Type 0} (json : Values V) where
  check_required_lem :
      (keys : List String) (args : Dict V)
      → is_ok (check_required keys args) ≡ every (contains_key args) keys
  unfolding check_required
  check_required_lem [] args = refl
  check_required_lem (k ∷ keys) args = elim (Bool-cases (contains_key args k)) [
    | inl good ↦ rw good (check_required_lem keys args)
    | inr bad ↦ rw bad refl
  ]

  -- Has the argument the type that its parameter asks for?
  abbrev pub has_type : Dict V → String × V → Bool
  has_type properties entry = elim (expected_type json properties entry.0) [
    | none ↦ true
    | some t ↦ value_matches_type json entry.1 t
  ]

  check_types_lem :
      (properties args : Dict V)
      → is_ok (check_types json properties args) ≡ every (has_type properties) args
  unfolding check_types
  check_types_lem properties [] = refl
  check_types_lem properties ((name, value) ∷ args) =
      elim (Option-cases (expected_type json properties name)) [
        | inl untyped ↦ rw (untyped, check_types, has_type) (check_types_lem properties args)
        | inr (t, typed) ↦ elim (Bool-cases (value_matches_type json value t)) [
          | inl good ↦ rw (typed, check_types, has_type) (rw good (check_types_lem properties args))
          | inr bad ↦ rw (typed, check_types, has_type) (rw bad refl)
        ]
      ]

  check_members_lem :
      (spec : ParameterSpec V) (args : Dict V)
      → is_ok (check_members json spec args) ≡ (
          every (contains_key args) spec.required
          && ((spec.allow_additional || every (λ e. contains_key spec.properties e.0) args)
              && every (has_type spec.properties) args))
  unfolding check_members
  check_members_lem spec args =
      let need = check_required_lem spec.required args in
      let known : is_empty (unknown_keys spec.properties args)
          ≡ every (λ e. contains_key spec.properties e.0) args =
        keep-every (contains_key spec.properties) (map (λ e. e.0) args)
        ∙ every-map (contains_key spec.properties) (λ e. e.0) args in
      elim (Result-cases (check_required spec.required args)) [
        | inl (e, fails) ↦ rw (fails, check_members) (rw (sym need ∙ ap is_ok fails) refl)
        | inr (u, done) ↦
            let all_there : every (contains_key args) spec.required ≡ true =
              sym need ∙ ap is_ok done in
            let allowed =
              spec.allow_additional || every (λ e. contains_key spec.properties e.0) args in
            rw (done, check_members, all_there, known)
              (elim (Bool-cases allowed) [
                | inl good ↦ rw good (check_types_lem spec.properties args)
                | inr bad ↦ rw bad refl
              ])
      ]

  -- What the members of a skill's parameters ask for: a parameter has a description, and is required
  -- if it says so.
  abbrev pub needs : String × V → Bool
  needs entry = elim (json.as_object entry.1) [ none ↦ false | some spec ↦ is_required json spec ]

  -- The spec that the description of the parameters gives.
  abbrev IsSpecOf : Dict V → ParameterSpec V → Type 0
  IsSpecOf d spec =
      (spec.allow_additional ≡ false)
      × (((k : String) → lookup k spec.properties ≡ lookup k d)
          × ((p : String → Bool) → every p spec.required ≡ every (λ e. not (needs e) || p e.0) d))

  map_spec_lem :
      (d : Dict V)
      → All (λ e. is_some (json.as_object e.1) ≡ true) d
      → (spec : ParameterSpec V) × ((map_spec json d ≡ ok spec) × IsSpecOf d spec)
  unfolding map_spec lookup
  map_spec_lem [] h = (_, (refl, (refl, (λ k. refl, λ p. refl))))
  map_spec_lem ((name, v) ∷ d) (described, h) = elim (Option-cases (json.as_object v)) [
    | inl none_there ↦ absurd (ground (arith, sym described ∙ ap is_some none_there))
    | inr (o, is_o) ↦
        let (rest, (made, (closed, (same, needed)))) = map_spec_lem d h in
        let spec : ParameterSpec V = record {
          properties = insert name v rest.properties;
          required = if is_required json o then name ∷ rest.required else rest.required;
          allow_additional = false;
        } in
        let found : (k : String) → lookup k spec.properties ≡ lookup k ((name, v) ∷ d) =
          λ k. lookup-insert name k v rest.properties ∙ rw (same k) refl in
        (
          spec,
          (
            rw (is_o, map_spec, made) refl,
            (
              refl,
              (
                found,
                λ p. elim (Bool-cases (is_required json o)) [
                  | inl is_needed ↦
                      rw (is_o, needs) (rw is_needed (ap (λ b. p name && b) (needed p)))
                  | inr free ↦ rw (is_o, needs) (rw free (needed p))
                ],
              ),
            ),
          ),
        )
  ]

  has_type-same :
      (d d' : Dict V)
      → ((k : String) → lookup k d ≡ lookup k d')
      → (e : String × V) → has_type d e ≡ has_type d' e
  unfolding expected_type
  has_type-same d d' same e = rw (same e.0, has_type, expected_type) refl

  -- Where the parameters are an object whose members are all objects, none of them named `type` or
  -- `properties`, each member is a parameter and its description. Arguments that are an object are
  -- then accepted exactly if every parameter that says it is required is there, every argument is a
  -- parameter, and every argument has the type, if any, that the description of its parameter asks
  -- for.
  pub validate_json_args_lem :
      (parameters value : V) (d args : Dict V)
      → json.as_object parameters ≡ some d
      → contains_key d "type" ≡ false
      → contains_key d "properties" ≡ false
      → All (λ e. is_some (json.as_object e.1) ≡ true) d
      → json.as_object value ≡ some args
      → is_ok (validate_json_args json (some parameters) value) ≡ (
          every (λ e. not (needs e) || contains_key args e.0) d
          && (every (λ e. contains_key d e.0) args && every (has_type d) args))
  unfolding validate_json_args normalize_parameter_spec validate_object_args
  validate_json_args_lem parameters value d args is_d no_type no_properties described is_args =
      let (spec, (made, (closed, (same, needed)))) = map_spec_lem d described in
      let normal : normalize_parameter_spec json parameters ≡ ok spec =
        rw (is_d, normalize_parameter_spec, no_type, no_properties) made in
      let run : validate_json_args json (some parameters) value ≡ check_members json spec args =
        rw (normal, validate_json_args, is_args, validate_object_args) refl in
      let known =
        every-same (λ e. contains_key spec.properties e.0) (λ e. contains_key d e.0)
          (λ e. ap is_some (same e.0)) args in
      let typed =
        every-same (has_type spec.properties) (has_type d) (has_type-same spec.properties d same)
          args in
      ap is_ok run
      ∙ check_members_lem spec args
      ∙ rw (closed, needed (contains_key args), known, typed) refl
