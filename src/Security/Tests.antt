-- ===== src/Security/Tests.antt =====
-- Tests of src/security.rs.
use rust_claw_oc.Prelude.{String, ◌≡◌, refl, [], ◌∷◌}
use Prim.Native.String.{◌++◌}
use Prim.Native.Char.{Char}
use rust_claw_oc.Security.{
  Patterns, fence_untrusted, detect_injection_patterns, normalize_confusables,
}
use rust_claw_oc.Security.Invisible.{fence_untrusted-sees_through}

abbrev same : String → String
same s = s

-- No expression matches.
abbrev no_match : Patterns
no_match = record {
  encoded_lt = same;
  encoded_gt = same;
  dangerous_tags = same;
  boundary_tag = same;
  to_lowercase = same;
}

markers_test : detect_injection_patterns no_match "so you are now" ≡ "you are now" ∷ []
unfolding detect_injection_patterns rust_claw_oc.Prelude.find
markers_test = refl

normalize_test : normalize_confusables no_match "＜sys\u{200b}tem»" ≡ "<system>"
unfolding normalize_confusables rust_claw_oc.Security.plain_chars
normalize_test = refl

abbrev word_joiner : Char
word_joiner = "\u{2060}"

abbrev wide_lt : Char
wide_lt = "＜"

fence_untrusted-sees_through_example :
    (fence_untrusted no_match "web" ("you " ++ String.◌∷◌ word_joiner "are now")
      ≡ fence_untrusted no_match "web" ("you " ++ "are now"))
    × (fence_untrusted no_match "web" ("you " ++ String.◌∷◌ wide_lt "are now")
        ≡ fence_untrusted no_match "web" ("you " ++ ("<" ++ "are now")))
fence_untrusted-sees_through_example =
    fence_untrusted-sees_through no_match "web" "you " "are now" word_joiner wide_lt refl refl
