-- ===== src/Transform/Frames.antt =====
-- The frames that the transformer of src/transform/mod.rs emits for one event.
use codex_proxy_rs.Base.{
  ℕ, Bool, true, false, List, [], ◌∷◌, Option, none, some, Str, Bytes, ◌≡◌, refl, sym, text_eq,
  ◌==◌, not, ◌||◌, is_empty, codes, starts_with, contains_text, ltb, get_or, ◌∙◌, subst, lookup,
  Bool-cases, inl, inr, if◌then◌else◌, if-both,
}
use codex_proxy_rs.Json.{Value, JsonCodec}
use codex_proxy_rs.Relay.{Transformed, emitted, swallowed, done, failed}
use codex_proxy_rs.Sse.{trim_ascii}
use codex_proxy_rs.Transform.{
  SseTransformer, Result, ok, err, make_chunk, send_role, role_marked, called, index_from,
  role_delta, usage_or_zero, emit, after_role, with_frame, handle_created, handle_text_delta,
  handle_completed, handle_reasoning, handle_output_item_added, handle_function_call_args_delta,
  on_item, on_args_delta, on_tool_index, on_created, on_text_delta, on_completed, on_reasoning,
  on_envelope, dispatch, transform, note_reasoning_item, record_tool_call, tool_index,
  reset_response_state,
}
use codex_proxy_rs.Transform.Openai.{ChunkDelta, empty_delta, Usage}
use codex_proxy_rs.Transform.Upstream.{
  UpstreamUsage, EventEnvelope, created_id, text_delta, completed_usage, added_item, args_delta,
  extract_reasoning_content, output_index, FunctionCallItem,
}

module _ (codec : JsonCodec) (json_message : Bytes → Str) (marshal_message : Value → Str) where
  -- What an event may emit: the closing chunk, with a finish reason, alone and with the state
  -- unchanged; or one frame, where the role had been sent; or the role chunk and one frame, where the
  -- role had not been sent, and afterwards it has been.
  pub data Frames (before after : SseTransformer) : List Bytes → Type 0 where
    closing :
        (frame : Bytes) (seq : Option ℕ) (finish : Str) (usage : Usage)
        → make_chunk codec json_message marshal_message before seq empty_delta
            (some finish)
            (some usage)
          ≡ ok frame
        → after ≡ before
        → Frames before after (frame ∷ [])
    later :
        (frame : Bytes)
        → before.role_sent ≡ true
        → after.role_sent ≡ true
        → Frames before after (frame ∷ [])
    opening :
        (role frame : Bytes) (seq : Option ℕ)
        → before.role_sent ≡ false
        → after.role_sent ≡ true
        → make_chunk codec json_message marshal_message before seq role_delta none none ≡ ok role
        → Frames before after (role ∷ frame ∷ [])

  abbrev Said : SseTransformer → SseTransformer × Transformed → Type 0
  Said before (after, emitted frames) = Frames before after frames
  Said before (after, swallowed) = Unit {0}
  Said before (after, done) = Unit {0}
  Said before (after, failed e) = Unit {0}

  record Speaks (before : SseTransformer) (x : SseTransformer × Transformed) : Type 0 where
    said : Said before x

  -- A state in which chunks look as they did before the event, and the role is sent or not as before.
  record IsLike (before now : SseTransformer) : Type 0 where
    role : now.role_sent ≡ before.role_sent
    chunks :
        (seq : Option ℕ) (delta : ChunkDelta)
        → make_chunk codec json_message marshal_message now seq delta none none
          ≡ make_chunk codec json_message marshal_message before seq delta none none

  emit_first :
      (before now : SseTransformer) (seq : Option ℕ) (delta : ChunkDelta) (role : Result Bytes)
      → before.role_sent ≡ false
      → now.role_sent ≡ false
      → make_chunk codec json_message marshal_message before seq role_delta none none ≡ role
      → make_chunk codec json_message marshal_message now seq role_delta none none ≡ role
      → Speaks before (emit codec json_message marshal_message now seq delta)
  unfolding emit send_role make_chunk
  emit_first before now seq delta (err e) b v m n = rw (v, n) (record { said = tt })
  emit_first before now seq delta (ok role) b v m n =
      rw (v, n)
        (go (
          make_chunk codec json_message marshal_message (record now { role_sent = true }) seq delta
            none none))
    where
      go :
          (chunk : Result Bytes)
          → Speaks before (
            record now { role_sent = true },
            with_frame codec json_message marshal_message (some role) chunk,
          )
      go (err e) = record { said = tt }
      go (ok frame) = record { said = opening role frame seq b refl m }

  emit_again :
      (before now : SseTransformer) (seq : Option ℕ) (delta : ChunkDelta)
      → before.role_sent ≡ true
      → now.role_sent ≡ true
      → Speaks before (emit codec json_message marshal_message now seq delta)
  unfolding emit send_role
  emit_again before now seq delta b v =
      subst (λ x. Speaks before (after_role codec json_message marshal_message x.0 seq delta x.1))
        (sym (unsent now.role_sent v)) (go _)
    where
      unsent :
          (q : Bool)
          → q ≡ true
          → (if q
              then (now, ok none)
              else role_marked codec json_message marshal_message now
                  (make_chunk codec json_message marshal_message now seq role_delta none none))
            ≡ (now, ok none)
      unsent true e = refl
      unsent false e = cc

      go :
          (chunk : Result Bytes)
          → Speaks before (now, with_frame codec json_message marshal_message none chunk)
      go (err e) = record { said = tt }
      go (ok frame) = record { said = later frame b v }

  emit-Speaks :
      (before now : SseTransformer) (seq : Option ℕ) (delta : ChunkDelta)
      → IsLike before now
      → Speaks before (emit codec json_message marshal_message now seq delta)
  emit-Speaks before now seq delta like = elim (Bool-cases before.role_sent) [
    | inl sent ↦ emit_again before now seq delta sent (like.role ∙ sent)
    | inr fresh ↦
        emit_first before now seq delta _ fresh (like.role ∙ fresh) refl
          (like.chunks seq role_delta)
  ]

  itself : (before : SseTransformer) → IsLike before before
  itself before = record { role = refl; chunks = λ seq delta. refl }

  recorded :
      (before : SseTransformer) (item : FunctionCallItem) (call_id : Str)
      → IsLike before (record_tool_call before item call_id).0
  unfolding make_chunk record_tool_call tool_index
  recorded before item call_id = go (lookup item.id before.tool_index_by_item_id)
    where
      go : (o : Option ℕ) → IsLike before (called item call_id (index_from before item.id o)).0
      go none = record { role = refl; chunks = λ seq delta. refl }
      go (some i) = record { role = refl; chunks = λ seq delta. refl }

  quiet : {t after : SseTransformer} → Speaks t (after, swallowed)
  quiet = record { said = tt }

  text_delta-Speaks :
      (t : SseTransformer) (event : Bytes) (seq : Option ℕ) (o : Option Str)
      → Speaks t (on_text_delta codec json_message marshal_message t event seq o)
  text_delta-Speaks t event seq none = record { said = tt }
  text_delta-Speaks t event seq (some delta) = emit-Speaks t t _ _ (itself t)

  completed-Speaks :
      (t : SseTransformer) (event : Bytes) (seq : Option ℕ) (o : Option (Option UpstreamUsage))
      → Speaks t (on_completed codec json_message marshal_message t event seq o)
  completed-Speaks t event seq none = record { said = tt }
  completed-Speaks t event seq (some usage) =
      go (make_chunk codec json_message marshal_message t seq empty_delta (some finish) (some sum))
        refl
    where
      finish : Str
      finish = if t.saw_tool_calls then codes "tool_calls" else codes "stop"

      sum : Usage
      sum = usage_or_zero usage

      go :
          (chunk : Result Bytes)
          → make_chunk codec json_message marshal_message t seq empty_delta (some finish) (some sum)
            ≡ chunk
          → Speaks t (t, with_frame codec json_message marshal_message none chunk)
      go (err e) m = record { said = tt }
      go (ok frame) m = record { said = closing frame seq finish sum m refl }

  reasoning-Speaks :
      (t : SseTransformer) (seq : Option ℕ) (o : Option Str)
      → Speaks t (on_reasoning codec json_message marshal_message t seq o)
  reasoning-Speaks t seq none = quiet
  reasoning-Speaks t seq (some s) = emit-Speaks t t _ _ (itself t)

  item-Speaks :
      (t : SseTransformer) (event : Bytes) (envelope : EventEnvelope)
      (o : Option (Option FunctionCallItem))
      → Speaks t (on_item codec json_message marshal_message t event envelope o)
  item-Speaks t event envelope none = record { said = tt }
  item-Speaks t event envelope (some none) = quiet
  item-Speaks t event envelope (some (some item)) =
      if-both (Speaks t) (not (item.item_type == codes "function_call")) quiet (
        if-both (Speaks t) (is_empty item.id || is_empty item.name) quiet
          (emit-Speaks t _ _ _ (recorded t item _)))

  tool_index-Speaks :
      (t : SseTransformer) (seq : Option ℕ) (delta : Str) (o : Option ℕ)
      → Speaks t (on_tool_index codec json_message marshal_message t seq delta o)
  tool_index-Speaks t seq delta none = quiet
  tool_index-Speaks t seq delta (some i) = emit-Speaks t t _ _ (itself t)

  args_delta-Speaks :
      (t : SseTransformer) (event : Bytes) (seq : Option ℕ) (o : Option (Str × Str))
      → Speaks t (on_args_delta codec json_message marshal_message t event seq o)
  args_delta-Speaks t event seq none = record { said = tt }
  args_delta-Speaks t event seq (some (item_id, delta)) =
      tool_index-Speaks t seq delta (lookup item_id t.tool_index_by_item_id)

  created-Speaks :
      (t u : SseTransformer) (o : Option Str)
      → Speaks t (on_created codec json_message marshal_message u o)
  created-Speaks t u none = quiet
  created-Speaks t u (some id) = if-both (Speaks t) (not (is_empty id)) quiet quiet

  dispatch-Speaks :
      (t : SseTransformer) (event : Bytes) (envelope : EventEnvelope)
      → Speaks t (dispatch codec json_message marshal_message t event envelope)
  unfolding dispatch handle_reasoning handle_created handle_text_delta handle_completed
      handle_output_item_added handle_function_call_args_delta
  dispatch-Speaks t event envelope =
      let kind = envelope.event_type in
      if-both (Speaks t) (starts_with (codes "response.reasoning") kind)
        (if-both (Speaks t) (ltb 0 (get_or (output_index envelope.extra) 0)) quiet (
          if-both (Speaks t) (not (contains_text (codes ".delta") kind)) quiet (
            reasoning-Speaks t envelope.sequence_number
              (extract_reasoning_content envelope.extra))))
        (if-both (Speaks t) (kind == codes "response.created")
          (created-Speaks t (reset_response_state t) (created_id envelope.extra))
          (if-both (Speaks t) (kind == codes "response.output_text.delta")
            (text_delta-Speaks t event envelope.sequence_number (text_delta envelope.extra))
            (if-both (Speaks t) (kind == codes "response.completed")
              (completed-Speaks t event envelope.sequence_number (completed_usage envelope.extra))
              (if-both (Speaks t) (kind == codes "response.output_item.added")
                (item-Speaks t event envelope (added_item envelope.extra))
                (if-both (Speaks t) (kind == codes "response.function_call_arguments.delta")
                  (args_delta-Speaks t event envelope.sequence_number (args_delta envelope.extra))
                  (if-both (Speaks t) (kind == codes "response.output_item.done")
                    (quiet {after = note_reasoning_item t envelope}) (quiet {after = t})))))))

  envelope-Speaks :
      (t : SseTransformer) (event : Bytes) (o : Option EventEnvelope)
      → Speaks t (on_envelope codec json_message marshal_message t event o)
  envelope-Speaks t event none = record { said = tt }
  envelope-Speaks t event (some envelope) = dispatch-Speaks t event envelope

  transform-Speaks :
      (t : SseTransformer) (event : Bytes)
      → Speaks t (transform codec json_message marshal_message t event)
  unfolding transform
  transform-Speaks t event = if-both (Speaks t) (is_empty (trim_ascii event)) quiet (
      if-both (Speaks t) (trim_ascii event == codes "[DONE]") (record { said = tt })
        (envelope-Speaks t _ _))

  -- Of the frames of an event, the role chunk comes first exactly when the role has not been sent in
  -- this response, and then it counts as sent; one frame follows. The closing chunk, which carries
  -- the finish reason, comes alone and without the role: see `Frames`.
  pub transform-Frames :
      (t after : SseTransformer) (event : Bytes) (frames : List Bytes)
      → transform codec json_message marshal_message t event ≡ (after, emitted frames)
      → Frames t after frames
  transform-Frames t after event frames e = (subst (Speaks t) e (transform-Speaks t event)).said
