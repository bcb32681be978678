-- ===== src/ShellEscape/Tests.antt =====
-- Tests of src/shell_escape.rs.
use rust_claw_oc.Prelude.{◌≡◌, refl, false, some, ok, err, [], ◌∷◌, strip_prefix, is_blank, concat}
use rust_claw_oc.Prelude.Text.{trim_start}
use rust_claw_oc.ShellEscape.{
  empty_command, parse_shell_escape, new_tail, handle_chunk, prefix_by_bytes, VisibleOutput,
}
use rust_claw_oc.ShellEscape.Tail.{push_all, IsTailOf, push_all-IsTailOf}

parsed : parse_shell_escape " !ls -l" ≡ some (ok "ls -l")
unfolding parse_shell_escape trim_start strip_prefix is_blank
parsed = refl

parsed_empty : parse_shell_escape "! " ≡ some (err empty_command)
unfolding parse_shell_escape trim_start strip_prefix is_blank
parsed_empty = refl

-- A character that does not fit leaves room that later chunks still fill.
abbrev almost_full : VisibleOutput
almost_full = record { visible_limit_bytes = 10; sent_bytes = 9; truncated = false }

shown_after_note : (handle_chunk "a" (handle_chunk "é" almost_full).1).0 ≡ "a" ∷ []
unfolding handle_chunk prefix_by_bytes
shown_after_note = refl

push_all-IsTailOf_example :
    IsTailOf 3 (concat ("ab" ∷ "cde" ∷ [])) (push_all (new_tail 3) ("ab" ∷ "cde" ∷ []))
push_all-IsTailOf_example = push_all-IsTailOf 3 ("ab" ∷ "cde" ∷ [])
