-- ===== src/Checks/TransformChecks.antt =====
-- Runs of the transformer of src/transform/mod.rs.
use codex_proxy_rs.Base.{
  true, [], ◌∷◌, some, Str, codes, ◌≡◌, refl, text_beq, lookup, ◌<◌, ◌+◌, ◌^◌, arith, text_eq, trim,
  strip_prefix, contains_text,
}
use codex_proxy_rs.Json.{Value, text, object, field, end, JsonCodec, get, get_str, as_str}
use codex_proxy_rs.Sse.{trim_ascii, trim_ascii_start, is_ascii_white}
use codex_proxy_rs.Relay.{emitted}
use codex_proxy_rs.Transform.{
  SseTransformer, new, transform, dispatch, handle_text_delta, emit, send_role, make_chunk,
}
use codex_proxy_rs.Transform.Upstream.{envelope_of, text_delta}
use codex_proxy_rs.Transform.Frames.{Frames, transform-Frames}
use codex_proxy_rs.Transform.Indexes.{transform-IsNumbered}
use codex_proxy_rs.Transform.Numbering.{new-IsNumbered, IsNumbered}

abbrev fresh : SseTransformer
fresh = new (codes "gpt-5")

abbrev delta_event : Value
delta_event = object (
    field (codes "type") (text (codes "response.output_text.delta"))
      (field (codes "delta") (text (codes "hi")) end))

abbrev one_event : JsonCodec
one_event = record { from_slice = λ bytes. some delta_event; to_vec = λ v. some (codes "{}") }

abbrev message {ℓ} : {A : Type ℓ} → A → Str
message a = codes "error"

spoken :
    transform one_event message message fresh (codes "{")
    ≡ (record fresh { role_sent = true }, emitted (codes "{}" ∷ codes "{}" ∷ []))
unfolding transform dispatch handle_text_delta emit send_role make_chunk trim_ascii trim_ascii_start
    is_ascii_white envelope_of text_delta lookup get get_str as_str codes text_beq strip_prefix new
    trim contains_text
spoken = refl

transform-Frames_example :
    Frames one_event message message fresh
      (record fresh { role_sent = true })
      (codes "{}" ∷ codes "{}" ∷ [])
transform-Frames_example =
    transform-Frames one_event message message fresh (record fresh { role_sent = true }) (codes "{")
      (codes "{}" ∷ codes "{}" ∷ []) spoken

fresh_room : fresh.next_tool_index + 1 < 2 ^ 64
unfolding new
fresh_room = omega arith

transform-IsNumbered_example : IsNumbered (transform one_event message message fresh (codes "{")).0
transform-IsNumbered_example =
    transform-IsNumbered one_event message message fresh (codes "{")
      (new-IsNumbered (codes "gpt-5")) fresh_room
