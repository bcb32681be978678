-- ===== src/Context/Current.antt =====
-- src/context/turns.rs, and the current turn in src/context/history.rs: `compress_current_turn` and
-- `truncate_current_turn_tool_results`.
pub mod Compress
pub mod Archive
use rust_claw_oc.Prelude.{
  ℕ, zero, suc, ◌+◌, ◌-◌, ◌/◌, String, Bool, true, false, ◌&&◌, Option, none, some, List, [], ◌∷◌,
  push, length, take, get_elem?, is_empty, ltb, leb, if◌then◌else◌, concat, byte_len, char_count,
  take_chars, skip_chars, str_eq, contains,
}
use rust_claw_oc.Prelude.Decimal.{show}
use rust_claw_oc.Context.{Crates, FunctionResponse, Part, Message, Turn, text_message}
use rust_claw_oc.Context.Sanitize.{strip_response_payload}

-- The fields of `AgentContext` that hold the conversation, and the turns handed to the transcript.
pub record Conversation (V : Type 0) : Type 0 where
  pub dialogue_history : List (Turn V)
  pub current_turn : Option (Turn V)
  pub transcript : List (Turn V)

module _ {V : Type 0} where
  -- `uuid` is a fresh one.
  unfoldable pub start_turn : String → String → Conversation V → Conversation V
  start_turn uuid text ctx = record ctx {
    current_turn =
        some (record {
          turn_id = uuid;
          user_message = text;
          messages = text_message "user" text ∷ [];
        });
  }

  unfoldable pub add_message_to_current_turn : Message V → Conversation V → Conversation V
  add_message_to_current_turn msg ctx = elim ctx.current_turn [
    | none ↦ ctx
    | some turn ↦ record ctx {
      current_turn = some (record turn { messages = push turn.messages msg });
    }
  ]

  unfoldable pub end_turn : Conversation V → Conversation V
  end_turn ctx = elim ctx.current_turn [
    | none ↦ ctx
    | some turn ↦ record {
      dialogue_history = push ctx.dialogue_history turn;
      current_turn = none;
      transcript = push ctx.transcript turn;
    }
  ]

  -- The places of the messages with the role `function`, from `i` on.
  unfoldable pub function_indices : ℕ → List (Message V) → List ℕ
  function_indices i [] = []
  function_indices i (m ∷ ms) =
      let rest = function_indices (suc i) ms in if str_eq m.role "function" then i ∷ rest else rest

  -- `messages[i] = m`
  unfoldable pub set_at : ℕ → Message V → List (Message V) → List (Message V)
  set_at i m [] = []
  set_at zero m (n ∷ ms) = m ∷ ms
  set_at (suc i) m (n ∷ ms) = n ∷ set_at i m ms

-- The variables of the loops of `compress_current_turn`.
pub record Compression (V : Type 0) : Type 0 where
  pub messages : List (Message V)
  pub current_size : ℕ
  pub compressed_count : ℕ

module _ {V : Type 0} (crates : Crates V) where
  response_bytes : FunctionResponse V → ℕ
  response_bytes fr = byte_len (crates.to_string fr.response)

  part_bytes : List (Part V) → ℕ
  unfolding response_bytes
  part_bytes [] = 0
  part_bytes (p ∷ ps) = elim p.function_response [
    | none ↦ part_bytes ps
    | some fr ↦ response_bytes fr + part_bytes ps
  ]

  -- The size of the messages at the places.
  unfoldable pub size_at : List ℕ → List (Message V) → ℕ
  unfolding part_bytes
  size_at [] messages = 0
  size_at (i ∷ is) messages = elim (get_elem? messages i) [
    | none ↦ size_at is messages
    | some m ↦ part_bytes m.parts + size_at is messages
  ]

  abbrev is_stripped : FunctionResponse V → Bool
  is_stripped fr =
      let text = crates.to_string fr.response in
      contains text "stripped" && ltb (byte_len text) 1000

  -- The parts of one message, with the size and the count so far.
  compress_parts : List (Part V) → ℕ → ℕ → List (Part V) × ℕ × ℕ
  unfolding response_bytes
  compress_parts [] size count = ([], size, count)
  compress_parts (p ∷ ps) size count = elim p.function_response [
    | none ↦ let (rest, size', count') = compress_parts ps size count in (p ∷ rest, size', count')
    | some fr ↦
        let short = strip_response_payload crates fr in
        let saved = response_bytes fr - response_bytes short in
        let skipped = compress_parts ps size count in
        let done = compress_parts ps (size - saved) (count + 1) in
        if is_stripped fr
        then (p ∷ skipped.0, skipped.1, skipped.2)
        else (record p { function_response = some short } ∷ done.0, done.1, done.2)
  ]

  -- One round of the loop: the message at a place.
  unfoldable pub compress_message : ℕ → Message V → Compression V → Compression V
  unfolding compress_parts set_at
  compress_message i m state =
      let (parts, size, count) = compress_parts m.parts state.current_size state.compressed_count in
      record {
        messages = set_at i (record m { parts = parts }) state.messages;
        current_size = size;
        compressed_count = count;
      }

  -- The loop over the places, until the size is small enough. Each is a place of `messages`.
  unfoldable pub compress_at : ℕ → List ℕ → Compression V → Compression V
  unfolding compress_message
  compress_at max_bytes [] state = state
  compress_at max_bytes (i ∷ is) state = elim (get_elem? state.messages i) [
    | none ↦ state
    | some m ↦
        let next = compress_message i m state in
        let rest = compress_at max_bytes is next in
        if leb next.current_size max_bytes then next else rest
  ]

  -- The messages of the turn after the compression, and the number of compressed responses. The last
  -- message with the role `function` is left alone.
  unfoldable pub compress_turn : ℕ → List (Message V) → List (Message V) × ℕ
  unfolding size_at compress_at function_indices
  compress_turn max_bytes messages =
      let indices = function_indices 0 messages in
      let size = size_at indices messages in
      let state : Compression V = record {
        messages = messages;
        current_size = size;
        compressed_count = 0;
      } in
      let end = compress_at max_bytes (take (length indices - 1) indices) state in
      if is_empty indices
      then (messages, 0)
      else if leb size max_bytes
      then (messages, 0)
      else (end.messages, end.compressed_count)

  unfoldable pub compress_current_turn : ℕ → Conversation V → Conversation V × ℕ
  unfolding compress_turn
  compress_current_turn max_bytes ctx = elim ctx.current_turn [
    | none ↦ (ctx, 0)
    | some turn ↦
        let (messages, count) = compress_turn max_bytes turn.messages in
        (record ctx { current_turn = some (record turn { messages = messages }) }, count)
  ]

  -- A response whose print has more than `max_chars` characters keeps half of them at each end.
  unfoldable pub truncate_tool_result : ℕ → FunctionResponse V → Option (FunctionResponse V)
  truncate_tool_result max_chars fr =
      let text = crates.to_string fr.response in
      let chars = char_count text in
      let keep_half = max_chars / 2 in
      if leb chars max_chars
      then none
      else some (record fr {
        response = crates.object (
            (
              "result",
              crates.string (
                  concat (
                    take_chars keep_half text
                    ∷ "\n... [Truncated by context recovery: "
                    ∷ show (chars - max_chars)
                    ∷ " chars hidden] ...\n"
                    ∷ skip_chars (chars - keep_half) text
                    ∷ [])),
            )
            ∷ ("original_chars", crates.number chars)
            ∷ []);
      })

  truncate_result_parts : ℕ → List (Part V) → List (Part V) × ℕ
  unfolding truncate_tool_result
  truncate_result_parts max_chars [] = ([], 0)
  truncate_result_parts max_chars (p ∷ ps) =
      let (rest, count) = truncate_result_parts max_chars ps in
      elim p.function_response [
        | none ↦ (p ∷ rest, count)
        | some fr ↦ elim (truncate_tool_result max_chars fr) [
          | none ↦ (p ∷ rest, count)
          | some short ↦ (record p { function_response = some short } ∷ rest, count + 1)
        ]
      ]

  truncate_result_messages : ℕ → List (Message V) → List (Message V) × ℕ
  unfolding truncate_result_parts
  truncate_result_messages max_chars [] = ([], 0)
  truncate_result_messages max_chars (m ∷ ms) =
      let (rest, count) = truncate_result_messages max_chars ms in
      let (parts, more) = truncate_result_parts max_chars m.parts in
      if str_eq m.role "function"
      then (record m { parts = parts } ∷ rest, more + count)
      else (m ∷ rest, count)

  unfoldable pub truncate_current_turn_tool_results : ℕ → Conversation V → Conversation V × ℕ
  unfolding truncate_result_messages
  truncate_current_turn_tool_results max_chars ctx = elim ctx.current_turn [
    | none ↦ (ctx, 0)
    | some turn ↦
        let (messages, count) = truncate_result_messages max_chars turn.messages in
        (record ctx { current_turn = some (record turn { messages = messages }) }, count)
  ]
