-- ===== src/Transform/Indexes.antt =====
-- The numbering of tool calls after an event: src/transform/mod.rs.
use codex_proxy_rs.Base.{
  ℕ, ◌+◌, ◌^◌, ◌<◌, Bool, true, false, Option, none, some, Str, Bytes, lookup, text_eq, ◌==◌, not,
  ◌||◌, is_empty, codes, starts_with, contains_text, ltb, get_or, if-both, if◌then◌else◌,
}
use codex_proxy_rs.Json.{Value, JsonCodec, ◌>>=◌}
use codex_proxy_rs.Relay.{Transformed, swallowed}
use codex_proxy_rs.Sse.{trim_ascii}
use codex_proxy_rs.Transform.{
  SseTransformer, Result, ok, err, make_chunk, send_role, role_marked, role_delta, emit, after_role,
  handle_created, handle_text_delta, handle_completed, handle_reasoning, handle_output_item_added,
  handle_function_call_args_delta, on_item, on_args_delta, on_tool_index, on_created, on_text_delta,
  on_completed, on_reasoning, on_envelope, dispatch, transform, note_reasoning_item, note_item,
  reset_response_state,
}
use codex_proxy_rs.Transform.Openai.{ChunkDelta}
use codex_proxy_rs.Transform.Upstream.{
  UpstreamUsage, EventEnvelope, envelope_of, created_id, text_delta, completed_usage, added_item,
  args_delta, extract_reasoning_content, output_index, FunctionCallItem, ReasoningItem,
  reasoning_item_from_output_item_done,
}
use codex_proxy_rs.Transform.Numbering.{IsNumbered, record_tool_call-IsNumbered}

record Numbers (x : SseTransformer × Transformed) : Type 0 where
  state : IsNumbered x.0

-- The numbering looks at two fields only.
marked : (t : SseTransformer) → IsNumbered t → IsNumbered (record t { role_sent = true })
marked t h = record { bounded = h.bounded; distinct = h.distinct }

reset-IsNumbered : (t : SseTransformer) → IsNumbered (reset_response_state t)
unfolding reset_response_state lookup
reset-IsNumbered t = record { bounded = λ id i e. cc; distinct = λ id other i e f. cc }

noted-IsNumbered :
    (t : SseTransformer) (o : Option ReasoningItem) → IsNumbered t → IsNumbered (note_item t o)
noted-IsNumbered t none h = h
noted-IsNumbered t (some item) h = record { bounded = h.bounded; distinct = h.distinct }

module _ (codec : JsonCodec) (json_message : Bytes → Str) (marshal_message : Value → Str) where
  after_role-Numbers :
      (t : SseTransformer) (seq : Option ℕ) (delta : ChunkDelta) (role : Result (Option Bytes))
      → IsNumbered t
      → Numbers (after_role codec json_message marshal_message t seq delta role)
  after_role-Numbers t seq delta (err e) h = record { state = h }
  after_role-Numbers t seq delta (ok role) h = record { state = h }

  emit-Numbers :
      (t : SseTransformer) (seq : Option ℕ) (delta : ChunkDelta)
      → IsNumbered t
      → Numbers (emit codec json_message marshal_message t seq delta)
  unfolding emit send_role
  emit-Numbers t seq delta h =
      go t.role_sent (make_chunk codec json_message marshal_message t seq role_delta none none)
    where
      go :
          (q : Bool) (chunk : Result Bytes)
          → Numbers (
              after_role codec json_message marshal_message
                (if q
                  then (t, ok none)
                  else role_marked codec json_message marshal_message t chunk).0
                seq
                delta
                (if q
                  then (t, ok none)
                  else role_marked codec json_message marshal_message t chunk).1)
      go true chunk = after_role-Numbers t seq delta (ok none) h
      go false (err e) = after_role-Numbers t seq delta (err e) h
      go false (ok chunk) =
          after_role-Numbers (record t { role_sent = true }) seq delta (ok (some chunk))
            (marked t h)

  module _ (t : SseTransformer) (h : IsNumbered t) where
    text_delta-Numbers :
        (event : Bytes) (seq : Option ℕ) (o : Option Str)
        → Numbers (on_text_delta codec json_message marshal_message t event seq o)
    text_delta-Numbers event seq none = record { state = h }
    text_delta-Numbers event seq (some delta) = emit-Numbers t _ _ h

    completed-Numbers :
        (event : Bytes) (seq : Option ℕ) (o : Option (Option UpstreamUsage))
        → Numbers (on_completed codec json_message marshal_message t event seq o)
    completed-Numbers event seq none = record { state = h }
    completed-Numbers event seq (some usage) = record { state = h }

    reasoning-Numbers :
        (seq : Option ℕ) (o : Option Str)
        → Numbers (on_reasoning codec json_message marshal_message t seq o)
    reasoning-Numbers seq none = record { state = h }
    reasoning-Numbers seq (some s) = emit-Numbers t _ _ h

    tool_index-Numbers :
        (seq : Option ℕ) (delta : Str) (o : Option ℕ)
        → Numbers (on_tool_index codec json_message marshal_message t seq delta o)
    tool_index-Numbers seq delta none = record { state = h }
    tool_index-Numbers seq delta (some i) = emit-Numbers t _ _ h

    args_delta-Numbers :
        (event : Bytes) (seq : Option ℕ) (o : Option (Str × Str))
        → Numbers (on_args_delta codec json_message marshal_message t event seq o)
    args_delta-Numbers event seq none = record { state = h }
    args_delta-Numbers event seq (some (item_id, delta)) =
        tool_index-Numbers seq delta (lookup item_id t.tool_index_by_item_id)

    item-Numbers :
        (event : Bytes) (envelope : EventEnvelope) (o : Option (Option FunctionCallItem))
        → t.next_tool_index + 1 < 2 ^ 64
        → Numbers (on_item codec json_message marshal_message t event envelope o)
    item-Numbers event envelope none room = record { state = h }
    item-Numbers event envelope (some none) room = record { state = h }
    item-Numbers event envelope (some (some item)) room =
        if-both Numbers (not (item.item_type == codes "function_call")) (record { state = h })
          (if-both Numbers (is_empty item.id || is_empty item.name) (record { state = h })
            (emit-Numbers _ _ _ (record_tool_call-IsNumbered t item _ room h).0))

  created-Numbers :
      (t : SseTransformer) (o : Option Str)
      → IsNumbered t
      → Numbers (on_created codec json_message marshal_message t o)
  created-Numbers t none h = record { state = h }
  created-Numbers t (some id) h =
      if-both Numbers (not (is_empty id))
        (record { state = record { bounded = h.bounded; distinct = h.distinct } })
        (record { state = h })

  dispatch-Numbers :
      (t : SseTransformer) (event : Bytes) (envelope : EventEnvelope)
      → IsNumbered t
      → t.next_tool_index + 1 < 2 ^ 64
      → Numbers (dispatch codec json_message marshal_message t event envelope)
  unfolding dispatch handle_reasoning handle_created handle_text_delta handle_completed
      handle_output_item_added handle_function_call_args_delta note_reasoning_item
  dispatch-Numbers t event envelope h room =
      let kind = envelope.event_type in
      let seq = envelope.sequence_number in
      let extra = envelope.extra in
      let same : Numbers (t, swallowed) = record { state = h } in
      let noted : Numbers (note_reasoning_item t envelope, swallowed) = record {
        state = noted-IsNumbered t (reasoning_item_from_output_item_done envelope) h;
      } in
      if-both Numbers (starts_with (codes "response.reasoning") kind)
        (if-both Numbers (ltb 0 (get_or (output_index extra) 0)) same (
          if-both Numbers (not (contains_text (codes ".delta") kind)) same
            (reasoning-Numbers t h seq (extract_reasoning_content extra))))
        (if-both Numbers (kind == codes "response.created")
          (created-Numbers (reset_response_state t) (created_id extra) (reset-IsNumbered t))
          (if-both Numbers (kind == codes "response.output_text.delta")
            (text_delta-Numbers t h event seq (text_delta extra))
            (if-both Numbers (kind == codes "response.completed")
              (completed-Numbers t h event seq (completed_usage extra))
              (if-both Numbers (kind == codes "response.output_item.added")
                (item-Numbers t h event envelope (added_item extra) room)
                (if-both Numbers (kind == codes "response.function_call_arguments.delta")
                  (args_delta-Numbers t h event seq (args_delta extra))
                  (if-both Numbers (kind == codes "response.output_item.done") noted same))))))

  envelope-Numbers :
      (t : SseTransformer) (event : Bytes) (o : Option EventEnvelope)
      → IsNumbered t
      → t.next_tool_index + 1 < 2 ^ 64
      → Numbers (on_envelope codec json_message marshal_message t event o)
  envelope-Numbers t event none h room = record { state = h }
  envelope-Numbers t event (some envelope) h room = dispatch-Numbers t event envelope h room

  -- Whatever event comes, readable or not, tool calls keep distinct indexes below the next free one,
  -- as long as the counter has room below 2^64.
  pub transform-IsNumbered :
      (t : SseTransformer) (event : Bytes)
      → IsNumbered t
      → t.next_tool_index + 1 < 2 ^ 64
      → IsNumbered (transform codec json_message marshal_message t event).0
  unfolding transform
  transform-IsNumbered t event h room =
      (if-both Numbers (is_empty (trim_ascii event)) (record { state = h })
        (if-both Numbers (trim_ascii event == codes "[DONE]") (record { state = h })
          (envelope-Numbers t (trim_ascii event)
            (codec.from_slice (trim_ascii event) >>= envelope_of) h room))).state
