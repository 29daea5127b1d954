-- ===== src/Checks/ServerChecks.antt =====
-- Runs of the admin gate and of the buffered answers.
use codex_proxy_rs.Base.{
  ◌≡◌, ◌↔◌, false, [], ◌∷◌, ◌++◌, none, some, Option, Str, Bytes, codes, All, is_empty, pos, arith,
}
use codex_proxy_rs.Json.{text, object, of_fields, JsonCodec}
use codex_proxy_rs.Http.{Headers, Input, Outcome}
use codex_proxy_rs.Http
use codex_proxy_rs.Sse.RoundTrip.{frames, HasNoReturn}
use codex_proxy_rs.Server.Auth.{provided_key, admin_auth}
use codex_proxy_rs.Server.Auth.Equality.{admin_auth_iff}
use codex_proxy_rs.Buffered.{buffer_responses_response}
use codex_proxy_rs.Buffered.Terminal.{
  first_terminal, last_error, described, buffer_responses_response-first,
}
use codex_proxy_rs.Buffered.Chat.{StreamingChunk, nothing_collected, absorb_frames}
use codex_proxy_rs.Buffered.Chat.Totals.{frames_content, absorb_frames-content}

abbrev with_key : Headers
with_key = (codes "x-api-key", codes "k") ∷ []

admin_auth_iff_example : (admin_auth (some (codes "k")) with_key ≡ Http.ok tt) ↔ (
    (key : Str) × (some (codes "k") ≡ some key)
    × (is_empty key ≡ false)
    × (provided_key with_key ≡ Http.ok key))
admin_auth_iff_example = admin_auth_iff (some (codes "k")) with_key

-- A reader that finds a failed response in every text.
abbrev failures : JsonCodec
failures = record {
  from_slice = λ bytes. some (
      object (
        of_fields (
          (codes "type", text (codes "response.failed"))
          ∷ (codes "response", object (of_fields []))
          ∷ [])));
  to_vec = λ v. none;
}

no_return : All HasNoReturn ((104 ∷ 105 ∷ []) ∷ [])
no_return = ((λ e. absurd (omega (arith, e)), (λ e. absurd (omega (arith, e)), tt)), tt)

buffer_responses_response-first_example :
    buffer_responses_response failures
      (record { bytes = frames ((104 ∷ 105 ∷ []) ∷ []); broken = none })
    ≡ described failures
        (first_terminal failures ((104 ∷ 105 ∷ []) ∷ []))
        (last_error failures none ((104 ∷ 105 ∷ []) ∷ []))
        none
buffer_responses_response-first_example =
    buffer_responses_response-first failures ((104 ∷ 105 ∷ []) ∷ []) no_return

-- A reader that finds a chunk with the content `hi` in every text.
abbrev hi_chunk : Bytes → Option StreamingChunk
hi_chunk frame = some (record {
  id = [];
  created = pos 0;
  model = [];
  choices =
      record {
        delta = record {
          role = none;
          content = some (codes "hi");
          reasoning_content = none;
          tool_calls = none;
        };
        finish_reason = none;
      }
      ∷ [];
  usage = none;
})

absorb_frames-content_example :
    (absorb_frames hi_chunk nothing_collected ((104 ∷ []) ∷ [])).content
    ≡ nothing_collected.content ++ frames_content hi_chunk ((104 ∷ []) ∷ [])
absorb_frames-content_example = absorb_frames-content hi_chunk nothing_collected ((104 ∷ []) ∷ [])
