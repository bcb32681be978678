-- ===== src/Context/Transcript.antt =====
-- src/context/transcript.rs: the file that a session appends its turns to and reads them back from,
-- by its lines. A turn's JSON text is serde_json's. An absent file has no lines.
use rust_claw_oc.Prelude.{
  ◌≡◌, refl, ℕ, String, Bool, ◌||◌, ◌&&◌, Option, none, some, List, [], ◌∷◌, ◌++◌, push, length,
  leb, ◌==◌, if◌then◌else◌, concat, is_blank, trim,
}
use Prim.Native.Char.{code}
use rust_claw_oc.Context.{Turn}
use rust_claw_oc.Context.Current.{Conversation}

abbrev between : ℕ → ℕ → ℕ → Bool
between low high c = leb low c && leb c high

-- Letters, digits, `-` and `_`.
abbrev is_plain : ℕ → Bool
is_plain c = between 97 122 c || between 65 90 c || between 48 57 c || c == 45 || c == 95

sanitize_id : String → String
sanitize_id String.[] = ""
sanitize_id (String.◌∷◌ c s) =
    let rest = sanitize_id s in
    if is_plain (code c) then String.◌∷◌ c rest else concat ("_" ∷ rest ∷ [])

-- The name of the file in the session's directory.
unfoldable pub transcript_path_for_session : String → String
unfolding sanitize_id
transcript_path_for_session session_id = concat (sanitize_id session_id ∷ ".jsonl" ∷ [])

path_test :
    transcript_path_for_session "session:/with spaces?and*symbols"
    ≡ "session__with_spaces_and_symbols.jsonl"
unfolding transcript_path_for_session sanitize_id
path_test = refl

module _ {V : Type 0} (serialize : Turn V → String) where
  -- The lines of the file after one more turn; without a path nothing is written.
  unfoldable pub append_turn : Option (List String) → Turn V → Option (List String)
  append_turn none turn = none
  append_turn (some file) turn = some (push file (serialize turn))

  unfoldable pub append_turns : Option (List String) → List (Turn V) → Option (List String)
  unfolding append_turn
  append_turns file [] = file
  append_turns file (t ∷ ts) = append_turns (append_turn file t) ts

module _ {V : Type 0} (parse : String → Option (Turn V)) where
  -- The turns of the lines that are turns.
  unfoldable pub load_turns : List String → List (Turn V)
  load_turns [] = []
  load_turns (line ∷ lines) =
      let rest = load_turns lines in
      if is_blank line
      then rest
      else elim (parse (trim line)) [ none ↦ rest | some turn ↦ turn ∷ rest ]

  -- The number of turns loaded and the new conversation.
  unfoldable pub load_into_context : Option (List String) → Conversation V → ℕ × Conversation V
  unfolding load_turns
  load_into_context none ctx = (0, ctx)
  load_into_context (some file) ctx =
      let turns = load_turns file in
      (length turns, record ctx { dialogue_history = ctx.dialogue_history ++ turns })
