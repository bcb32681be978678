-- ===== src/Skills/Arguments/Tests.antt =====
-- Tests of src/skills/arguments.rs.
use rust_claw_oc.Prelude.{
  String, ◌≡◌, refl, Bool, true, false, ◌&&◌, ◌||◌, not, Option, none, some, [], ◌∷◌, ok, err, trim,
  strip_prefix,
}
use rust_claw_oc.Prelude.Dict.{Dict, lookup, insert}
use rust_claw_oc.Skills.Arguments.{
  Values, contains_key, validate_json_args, validation, parse_invocation_args,
  normalize_parameter_spec, map_spec, validate_object_args, check_members, check_required,
}
use rust_claw_oc.Skills.Arguments.Accepted.{is_ok, every, needs, has_type, validate_json_args_lem}

-- A text, a Boolean or an object.
mutual
  data Json : Type 0 where
    text : String → Json
    flag : Bool → Json
    object : Members → Json

  data Members : Type 0 where
    no_members : Members
    member : String → Json → Members → Members

abbrev members_of : Members → Dict Json
members_of no_members = []
members_of (member name v ms) = (name, v) ∷ members_of ms

abbrev object_of : Json → Option (Dict Json)
object_of (text s) = none
object_of (flag b) = none
object_of (object ms) = some (members_of ms)

abbrev text_of : Json → Option String
text_of (text s) = some s
text_of (flag b) = none
text_of (object ms) = none

abbrev flag_of : Json → Option Bool
flag_of (text s) = none
flag_of (flag b) = some b
flag_of (object ms) = none

abbrev json : Values Json
json = record {
  as_object = object_of;
  as_array = λ v. none;
  as_str = text_of;
  as_bool = flag_of;
  is_integer = λ v. false;
  is_number = λ v. false;
  is_null = λ v. false;
  to_string = λ v. "{}";
  from_str = λ s. ok (text s);
}

abbrev path_description : Json
path_description = object (member "type" (text "string") (member "required" (flag true) no_members))

abbrev focus_description : Json
focus_description = object (member "type" (text "string") no_members)

abbrev parameters : Json
parameters = object (member "path" path_description (member "focus" focus_description no_members))

abbrev focus_only : Json
focus_only = object (member "focus" (text "bugs") no_members)

abbrev parameter_list : Dict Json
parameter_list = ("path", path_description) ∷ ("focus", focus_description) ∷ []

abbrev argument_list : Dict Json
argument_list = ("focus", text "bugs") ∷ []

missing_path :
    validate_json_args json (some parameters) focus_only
    ≡ err (validation "missing required parameter 'path'")
unfolding validate_json_args normalize_parameter_spec map_spec validate_object_args check_members
    check_required lookup insert
missing_path = refl

-- A parameter named `type` makes the map a JSON schema that has no properties.
abbrev kind_parameters : Json
kind_parameters = object (member "type" focus_description no_members)

type_refused :
    validate_json_args json (some kind_parameters) (object (member "type" (text "bug") no_members))
    ≡ err (validation "unknown parameter(s): type")
unfolding validate_json_args normalize_parameter_spec validate_object_args check_members
    check_required lookup
type_refused = refl

raw_kept :
    parse_invocation_args json (some " src/lib.rs ")
    ≡ ok (record { raw = some "src/lib.rs"; json = none })
unfolding parse_invocation_args trim strip_prefix
raw_kept = refl

validate_json_args_lem_example : is_ok (validate_json_args json (some parameters) focus_only) ≡ (
    every (λ e. not (needs json e) || contains_key argument_list e.0) parameter_list
    && (every (λ e. contains_key parameter_list e.0) argument_list
        && every (has_type json parameter_list) argument_list))
unfolding lookup
validate_json_args_lem_example =
    validate_json_args_lem json parameters focus_only parameter_list argument_list refl refl refl
      (refl, (refl, tt)) refl
