-- ===== src/Skills/Arguments.antt =====
-- src/skills/arguments.rs: the arguments of a skill and their validation. A JSON value is
-- serde_json's, read by the operations of `Values`; an object is the list of its members.
pub mod Accepted
mod Tests
use rust_claw_oc.Prelude.{
  String, Bool, true, false, ◌||◌, not, Option, none, some, List, [], ◌∷◌, ◌++◌, map, keep,
  is_empty, is_some, unwrap_or, concat, join, trim, strip_prefix, is_blank, Result, ok, err,
  if◌then◌else◌, str_eq,
}
use rust_claw_oc.Prelude.Dict.{Dict, lookup, insert}

pub record Values (V : Type 0) : Type 0 where
  pub as_object : V → Option (Dict V)
  pub as_array : V → Option (List V)
  pub as_str : V → Option String
  pub as_bool : V → Option Bool
  -- `as_i64` or `as_u64` gives a number
  pub is_integer : V → Bool
  pub is_number : V → Bool
  pub is_null : V → Bool
  pub to_string : V → String
  -- `from_str`, with the text of its error
  pub from_str : String → Result String V

pub record SkillInvocationArgs (V : Type 0) : Type 0 where
  pub raw : Option String
  pub json : Option V

pub data SkillArgumentError : Type 0 where
  invalid_json validation : String → SkillArgumentError

unfoldable pub display : SkillArgumentError → String
display (invalid_json e) = concat ("Invalid JSON skill arguments: " ∷ e ∷ [])
display (validation e) = concat ("Skill argument validation failed: " ∷ e ∷ [])

-- `ParameterSpec::Object`
pub record ParameterSpec (V : Type 0) : Type 0 where
  pub properties : Dict V
  pub required : List String
  pub allow_additional : Bool

abbrev pub contains_key {ℓ} : {V : Type ℓ} → Dict V → String → Bool
contains_key d name = is_some (lookup name d)

abbrev raw_section : Option String → List String
raw_section none = []
raw_section (some raw) =
    if is_blank raw then [] else concat ("## Skill Arguments (Raw)\n" ∷ trim raw ∷ []) ∷ []

module _ {V : Type 0} where
  abbrev json_args : Result String V → Result SkillArgumentError (SkillInvocationArgs V)
  json_args (ok v) = ok (record { raw = none; json = some v })
  json_args (err e) = err (invalid_json e)

  abbrev no_args : SkillInvocationArgs V
  no_args = record { raw = none; json = none }

  unfoldable pub parse_invocation_args :
      Values V → Option String → Result SkillArgumentError (SkillInvocationArgs V)
  parse_invocation_args json none = ok no_args
  parse_invocation_args json (some input) =
      let raw_input = trim input in
      if str_eq raw_input ""
      then ok no_args
      else if is_some (strip_prefix "{" raw_input)
      then json_args (json.from_str raw_input)
      else ok (record { raw = some raw_input; json = none })

  abbrev json_section : Values V → Option V → List String
  json_section json none = []
  json_section json (some v) = concat ("## Skill Arguments (JSON)\n" ∷ json.to_string v ∷ []) ∷ []

  unfoldable pub format_prompt_argument_sections :
      Values V → Option String → Option V → Option String
  format_prompt_argument_sections json raw args =
      let sections = json_section json args ++ raw_section raw in
      if is_empty sections then none else some (join "\n\n" sections)

  -- The field of an object, read as what `get` says.
  abbrev field {κ} : {A : Type κ} → (V → Option A) → Dict V → String → Option A
  field get d name = elim (lookup name d) [ none ↦ none | some v ↦ get v ]

  abbrev strings : Values V → List V → List String
  strings json [] = []
  strings json (v ∷ vs) = elim (json.as_str v) [
    | none ↦ strings json vs
    | some s ↦ s ∷ strings json vs
  ]

  abbrev schema_spec : Values V → Dict V → ParameterSpec V
  schema_spec json object = record {
    properties = unwrap_or (field json.as_object object "properties") [];
    required = strings json (unwrap_or (field json.as_array object "required") []);
    allow_additional = unwrap_or (field json.as_bool object "additionalProperties") false;
  }

  abbrev pub is_required : Values V → Dict V → Bool
  is_required json spec = unwrap_or (field json.as_bool spec "required") false

  -- The spec with one parameter in front of those of the rest.
  abbrev with_parameter :
      Bool
      → String
      → V
      → Result SkillArgumentError (ParameterSpec V)
      → Result SkillArgumentError (ParameterSpec V)
  with_parameter needed name spec (err e) = err e
  with_parameter needed name spec (ok rest) = ok (record {
    properties = insert name spec rest.properties;
    required = if needed then name ∷ rest.required else rest.required;
    allow_additional = false;
  })

  unfoldable pub map_spec : Values V → Dict V → Result SkillArgumentError (ParameterSpec V)
  map_spec json [] = ok (record { properties = []; required = []; allow_additional = false })
  map_spec json ((name, spec) ∷ object) =
      let rest = map_spec json object in
      elim (json.as_object spec) [
        | none ↦
            err (validation (concat ("parameter '" ∷ name ∷ "' must be an object definition" ∷ [])))
        | some spec_object ↦ with_parameter (is_required json spec_object) name spec rest
      ]

  unfoldable pub normalize_parameter_spec :
      Values V → V → Result SkillArgumentError (ParameterSpec V)
  unfolding map_spec
  normalize_parameter_spec json parameters = elim (json.as_object parameters) [
    | none ↦ err (validation "parameters must be defined as an object")
    | some object ↦
        if contains_key object "type" || contains_key object "properties"
        then ok (schema_spec json object)
        else map_spec json object
  ]

  unfoldable pub value_matches_type : Values V → V → String → Bool
  value_matches_type json value expected_type =
      if str_eq expected_type "string"
      then is_some (json.as_str value)
      else if str_eq expected_type "number"
      then json.is_number value
      else if str_eq expected_type "integer"
      then json.is_integer value
      else if str_eq expected_type "boolean"
      then is_some (json.as_bool value)
      else if str_eq expected_type "object"
      then is_some (json.as_object value)
      else if str_eq expected_type "array"
      then is_some (json.as_array value)
      else if str_eq expected_type "null"
      then json.is_null value
      else true

  -- The type that the spec of a parameter asks for.
  unfoldable pub expected_type : Values V → Dict V → String → Option String
  expected_type json properties name = elim (field json.as_object properties name) [
    | none ↦ none
    | some spec ↦ field json.as_str spec "type"
  ]

  unfoldable pub check_required : List String → Dict V → Result SkillArgumentError (Unit {0})
  check_required [] args = ok tt
  check_required (key ∷ keys) args =
      let rest = check_required keys args in
      if contains_key args key
      then rest
      else err (validation (concat ("missing required parameter '" ∷ key ∷ "'" ∷ [])))

  unfoldable pub check_types : Values V → Dict V → Dict V → Result SkillArgumentError (Unit {0})
  check_types json properties [] = ok tt
  check_types json properties ((name, value) ∷ args) =
      let rest = check_types json properties args in
      elim (expected_type json properties name) [
        | none ↦ rest
        | some t ↦
            if value_matches_type json value t
            then rest
            else err (validation (concat ("parameter '" ∷ name ∷ "' must be of type " ∷ t ∷ [])))
      ]

  abbrev pub unknown_keys : Dict V → Dict V → List String
  unknown_keys properties args =
      keep (λ key. not (contains_key properties key)) (map (λ entry. entry.0) args)

  unfoldable pub check_members :
      Values V → ParameterSpec V → Dict V → Result SkillArgumentError (Unit {0})
  check_members json spec args = elim (check_required spec.required args) [
    | err e ↦ err e
    | ok u ↦
        if spec.allow_additional || is_empty (unknown_keys spec.properties args)
        then check_types json spec.properties args
        else err (
            validation (
              concat
                ("unknown parameter(s): " ∷ join ", " (unknown_keys spec.properties args) ∷ [])))
  ]

  unfoldable pub validate_object_args :
      Values V → V → ParameterSpec V → Result SkillArgumentError (Unit {0})
  unfolding check_members
  validate_object_args json args spec = elim (json.as_object args) [
    | none ↦ err (validation "structured skill arguments must be a JSON object")
    | some object ↦ check_members json spec object
  ]

  unfoldable pub validate_json_args : Values V → Option V → V → Result SkillArgumentError (Unit {0})
  validate_json_args json none args = ok tt
  validate_json_args json (some parameters) args = elim (normalize_parameter_spec json parameters) [
    | err e ↦ err e
    | ok spec ↦ validate_object_args json args spec
  ]
