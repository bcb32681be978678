-- ===== src/ShellEscape.antt =====
-- src/shell_escape.rs: the parsing of a shell escape, its exit code, and what of its output is shown
-- and kept. Running the process is tokio's.
pub mod Tail
mod Tests
use rust_claw_oc.Prelude.{
  ◌++◌, ℕ, zero, ◌+◌, ◌-◌, String, Bool, true, false, ◌&&◌, ◌||◌, not, Option, none, some,
  unwrap_or, or_some, List, [], ◌∷◌, ltb, leb, ◌==◌, str_eq, if◌then◌else◌, Result, ok, err, trim,
  is_blank, strip_prefix, char_count, byte_len, skip_chars,
}
use Prim.Native.Char.{Char}
use Prim.Native.String.{◌++◌ as append}
use rust_claw_oc.Tools.Envelope.{ℤ, pos}
use rust_claw_oc.Prelude.Text.{trim_start}

pub data ShellEscapeParseError : Type 0 where
  empty_command : ShellEscapeParseError

pub record ShellRunSummary : Type 0 where
  pub exit_code : Option ℤ
  -- milliseconds
  pub duration : ℕ
  pub truncated : Bool
  pub timed_out : Bool
  pub cancelled : Bool
  pub tail : String

abbrev is_zero : Option ℤ → Bool
is_zero (some (pos zero)) = true
is_zero _ = false

unfoldable pub is_success : ShellRunSummary → Bool
is_success s = is_zero s.exit_code && (not s.timed_out && not s.cancelled)

unfoldable pub process_exit_code : ShellRunSummary → ℤ
process_exit_code s =
    if s.cancelled then pos 130 else if s.timed_out then pos 124 else unwrap_or s.exit_code (pos 1)

abbrev parsed_command : Option String → Option (Result ShellEscapeParseError String)
parsed_command none = none
parsed_command (some command) =
    if is_blank command then some (err empty_command) else some (ok command)

unfoldable pub parse_shell_escape : String → Option (Result ShellEscapeParseError String)
parse_shell_escape input = parsed_command (strip_prefix "!" (trim_start input))

-- The last characters of the output.
pub record TailBuffer : Type 0 where
  pub text : String
  pub max_chars : ℕ
  pub truncated : Bool

abbrev pub new_tail : ℕ → TailBuffer
new_tail max_chars = record { text = ""; max_chars = max_chars; truncated = false }

unfoldable pub push_chunk : TailBuffer → String → TailBuffer
push_chunk b chunk =
    let text = append b.text chunk in
    if leb (char_count text) b.max_chars
    then record b { text = text }
    else record b { text = skip_chars (char_count text - b.max_chars) text; truncated = true }

-- The longest prefix that ends at a character and has at most this many bytes.
unfoldable pub prefix_by_bytes : String → ℕ → String
prefix_by_bytes String.[] max_bytes = String.[]
prefix_by_bytes (String.◌∷◌ c s) max_bytes =
    let size = byte_len (String.◌∷◌ c String.[]) in
    let rest = prefix_by_bytes s (max_bytes - size) in
    if leb size max_bytes then String.◌∷◌ c rest else String.[]

-- `VisibleOutput` in the mode `Stream`.
pub record VisibleOutput : Type 0 where
  pub visible_limit_bytes : ℕ
  pub sent_bytes : ℕ
  pub truncated : Bool

abbrev truncation_note : String
truncation_note = "\n[shell output truncated; keeping latest output for summary]\n"

-- A chunk: what is sent, and the new state.
unfoldable pub handle_chunk : String → VisibleOutput → List String × VisibleOutput
unfolding prefix_by_bytes
handle_chunk chunk v =
    let visible = prefix_by_bytes chunk (v.visible_limit_bytes - v.sent_bytes) in
    let sent = if str_eq visible "" then [] else visible ∷ [] in
    let counted = record v { sent_bytes = v.sent_bytes + byte_len visible } in
    if ltb v.sent_bytes v.visible_limit_bytes
    then (if ltb (byte_len visible) (byte_len chunk)
        then (sent ++ truncation_note ∷ [], record counted { truncated = true })
        else (sent, counted))
    else if v.truncated
    then ([], v)
    else (truncation_note ∷ [], record v { truncated = true })
