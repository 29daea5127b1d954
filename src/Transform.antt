-- ===== src/Transform.antt =====
-- The transformer of upstream events into chat-completion chunks: src/transform/mod.rs. Reading and
-- writing JSON text is `codec`; the texts of its errors are `json_message` and `marshal_message`.
pub mod Openai
pub mod Upstream
mod State
pub mod Frames
pub mod Numbering
pub mod Indexes
use codex_proxy_rs.Base.{
  ℕ, ◌+◌, ◌%◌, ◌^◌, ◌||◌, not, Bool, true, false, List, [], ◌∷◌, ◌++◌, Option, none, some, Str,
  Bytes, codes, if◌then◌else◌, ◌==◌, text_eq, lookup, insert, get_or, ltb, is_some, is_empty, trim,
  starts_with, contains_text, byte_len,
}
use codex_proxy_rs.Json.{Value, JsonCodec, ◌>>=◌}
use codex_proxy_rs.Sse.{trim_ascii, cons?}
use codex_proxy_rs.Relay.{
  TransformError, invalid_json, marshal_error, Transformed, emitted, swallowed, done, failed,
  StreamTransformer,
}
use Openai.{Usage, with_total, ChunkDelta, empty_delta, chunk_value}
use Upstream.{
  EventEnvelope, envelope_of, created_id, text_delta, completed_usage, UpstreamUsage, to_openai,
  FunctionCallItem, added_item, args_delta, extract_reasoning_content, output_index, ReasoningItem,
  reasoning_item_from_output_item_done,
}
unfoldable pub use State.*

-- `Result<_, TransformError>`.
pub data Result {ℓ} (A : Type ℓ) : Type ℓ where
  ok : A → Result A
  err : TransformError → Result A

abbrev pub role_delta : ChunkDelta
role_delta = record empty_delta { role = some (codes "assistant") }

abbrev pub usage_or_zero : Option UpstreamUsage → Usage
usage_or_zero none = with_total 0 0 none
usage_or_zero (some u) = to_openai u

module _ (codec : JsonCodec) (json_message : Bytes → Str) (marshal_message : Value → Str) where
  open codec use {from_slice, to_vec}

  abbrev marshalled : Value → Option Bytes → Result Bytes
  marshalled value none = err (marshal_error (marshal_message value))
  marshalled value (some bytes) = ok bytes

  unfoldable pub make_chunk :
      SseTransformer → Option ℕ → ChunkDelta → Option Str → Option Usage → Result Bytes
  make_chunk t seq delta finish_reason usage =
      let value = chunk_value (record {
        id = t.response_id;
        created = seq;
        model = t.model;
        delta = delta;
        finish_reason = finish_reason;
        usage = usage;
      }) in
      marshalled value (to_vec value)

  abbrev pub role_marked : SseTransformer → Result Bytes → SseTransformer × Result (Option Bytes)
  role_marked t (err e) = (t, err e)
  role_marked t (ok chunk) = (record t { role_sent = true }, ok (some chunk))

  unfoldable pub send_role : SseTransformer → Option ℕ → SseTransformer × Result (Option Bytes)
  send_role t seq =
      if t.role_sent then (t, ok none) else role_marked t (make_chunk t seq role_delta none none)

  abbrev pub with_frame : Option Bytes → Result Bytes → Transformed
  with_frame role (err e) = failed e
  with_frame role (ok bytes) = emitted (cons? role (bytes ∷ []))

  abbrev pub after_role :
      SseTransformer → Option ℕ → ChunkDelta → Result (Option Bytes) → SseTransformer × Transformed
  after_role t seq delta (err e) = (t, failed e)
  after_role t seq delta (ok role) = (t, with_frame role (make_chunk t seq delta none none))

  -- How four handlers end: the role chunk, unless it was sent, and then the chunk of the event.
  unfoldable pub emit : SseTransformer → Option ℕ → ChunkDelta → SseTransformer × Transformed
  emit t seq delta = let (t, role) = send_role t seq in after_role t seq delta role

  abbrev pub on_created : SseTransformer → Option Str → SseTransformer × Transformed
  on_created t none = (t, swallowed)
  on_created t (some id) =
      if not (is_empty id)
      then (record t { response_id = codes "chatcmpl-" ++ id }, swallowed)
      else (t, swallowed)

  unfoldable pub handle_created : SseTransformer → EventEnvelope → SseTransformer × Transformed
  handle_created t envelope = on_created (reset_response_state t) (created_id envelope.extra)

  -- `event` is the event as it was read, which the text of a decoding error is about.
  abbrev pub on_text_delta :
      SseTransformer → Bytes → Option ℕ → Option Str → SseTransformer × Transformed
  on_text_delta t event seq none = (t, failed (invalid_json (json_message event)))
  on_text_delta t event seq (some delta) = emit t seq (record empty_delta { content = some delta })

  unfoldable pub handle_text_delta :
      SseTransformer → Bytes → EventEnvelope → SseTransformer × Transformed
  handle_text_delta t event envelope =
      on_text_delta t event envelope.sequence_number (text_delta envelope.extra)

  abbrev pub on_completed :
      SseTransformer
      → Bytes
      → Option ℕ
      → Option (Option UpstreamUsage)
      → SseTransformer × Transformed
  on_completed t event seq none = (t, failed (invalid_json (json_message event)))
  on_completed t event seq (some usage) =
      let finish = if t.saw_tool_calls then codes "tool_calls" else codes "stop" in
      (t, with_frame none (make_chunk t seq empty_delta (some finish) (some (usage_or_zero usage))))

  unfoldable pub handle_completed :
      SseTransformer → Bytes → EventEnvelope → SseTransformer × Transformed
  handle_completed t event envelope =
      on_completed t event envelope.sequence_number (completed_usage envelope.extra)

  abbrev pub on_reasoning : SseTransformer → Option ℕ → Option Str → SseTransformer × Transformed
  on_reasoning t seq none = (t, swallowed)
  on_reasoning t seq (some s) = emit t seq (record empty_delta { reasoning_content = some s })

  unfoldable pub handle_reasoning : SseTransformer → EventEnvelope → SseTransformer × Transformed
  handle_reasoning t envelope =
      if ltb 0 (get_or (output_index envelope.extra) 0)
      then (t, swallowed)
      else if not (contains_text (codes ".delta") envelope.event_type)
      then (t, swallowed)
      else on_reasoning t envelope.sequence_number (extract_reasoning_content envelope.extra)

  abbrev start_tool_call :
      SseTransformer → Option ℕ → FunctionCallItem → SseTransformer × Transformed
  start_tool_call t seq item =
      let call_id = if is_empty item.call_id then codes "call_" ++ item.id else item.call_id in
      let (t, i) = record_tool_call t item call_id in
      emit t seq (record empty_delta {
        tool_calls = some (
            (record {
              index = i;
              id = some call_id;
              call_type = some (codes "function");
              function = some (record { name = some item.name; arguments = some [] });
            })
            ∷ []);
      })

  -- `handle_output_item_added` on the payload: unreadable, without an item, or with one.
  abbrev pub on_item :
      SseTransformer
      → Bytes
      → EventEnvelope
      → Option (Option FunctionCallItem)
      → SseTransformer × Transformed
  on_item t event envelope none = (t, failed (invalid_json (json_message event)))
  on_item t event envelope (some none) = (t, swallowed)
  on_item t event envelope (some (some item)) =
      if not (item.item_type == codes "function_call")
      then (t, swallowed)
      else if is_empty item.id || is_empty item.name
      then (t, swallowed)
      else start_tool_call t envelope.sequence_number item

  unfoldable pub handle_output_item_added :
      SseTransformer → Bytes → EventEnvelope → SseTransformer × Transformed
  handle_output_item_added t event envelope = on_item t event envelope (added_item envelope.extra)

  abbrev pub on_tool_index :
      SseTransformer → Option ℕ → Str → Option ℕ → SseTransformer × Transformed
  on_tool_index t seq delta none = (t, swallowed)
  on_tool_index t seq delta (some i) = emit t seq (record empty_delta {
    tool_calls = some (
        (record {
          index = i;
          id = none;
          call_type = none;
          function = some (record { name = none; arguments = some delta });
        })
        ∷ []);
  })

  abbrev pub on_args_delta :
      SseTransformer → Bytes → Option ℕ → Option (Str × Str) → SseTransformer × Transformed
  on_args_delta t event seq none = (t, failed (invalid_json (json_message event)))
  on_args_delta t event seq (some (item_id, delta)) =
      on_tool_index t seq delta (lookup item_id t.tool_index_by_item_id)

  unfoldable pub handle_function_call_args_delta :
      SseTransformer → Bytes → EventEnvelope → SseTransformer × Transformed
  handle_function_call_args_delta t event envelope =
      on_args_delta t event envelope.sequence_number (args_delta envelope.extra)

  -- The `match` on the type of an event.
  unfoldable pub dispatch : SseTransformer → Bytes → EventEnvelope → SseTransformer × Transformed
  dispatch t event envelope =
      let kind = envelope.event_type in
      if starts_with (codes "response.reasoning") kind
      then handle_reasoning t envelope
      else if kind == codes "response.created"
      then handle_created t envelope
      else if kind == codes "response.output_text.delta"
      then handle_text_delta t event envelope
      else if kind == codes "response.completed"
      then handle_completed t event envelope
      else if kind == codes "response.output_item.added"
      then handle_output_item_added t event envelope
      else if kind == codes "response.function_call_arguments.delta"
      then handle_function_call_args_delta t event envelope
      else if kind == codes "response.output_item.done"
      then (note_reasoning_item t envelope, swallowed)
      else (t, swallowed)

  abbrev pub on_envelope :
      SseTransformer → Bytes → Option EventEnvelope → SseTransformer × Transformed
  on_envelope t event none = (t, failed (invalid_json (json_message event)))
  on_envelope t event (some envelope) = dispatch t event envelope

  unfoldable pub transform : SseTransformer → Bytes → SseTransformer × Transformed
  transform t event =
      let trimmed = trim_ascii event in
      if is_empty trimmed
      then (t, swallowed)
      else if trimmed == codes "[DONE]"
      then (t, done)
      else on_envelope t trimmed (from_slice trimmed >>= envelope_of)

  -- The transformer that the relay is run with.
  abbrev pub sse_transformer : Str → StreamTransformer SseTransformer
  sse_transformer model = record { initial = new model; transform = transform }
