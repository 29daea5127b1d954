-- ===== src/Server/Handlers.antt =====
-- The data plane of a backend: src/server/chat.rs and src/server/responses.rs.
pub mod Clean
use codex_proxy_rs.Base.{
  ℕ, Bool, true, false, List, [], ◌∷◌, ◌++◌, Option, none, some, Str, Bytes, codes, if◌then◌else◌,
  ◌==◌, nat_eq, not, leb, get_or,
}
use codex_proxy_rs.Json.{Value, get, get_str, as_bool, JsonCodec, ◌>>=◌}
use codex_proxy_rs.Http.{Input, UpstreamResponse, ApiError, bad_request, internal, upstream}
use codex_proxy_rs.Model.{gpt5}
use codex_proxy_rs.Relay.{StreamTransformer}
use codex_proxy_rs.Request.{resolve_request_model, resolve_reasoning_effort}
use codex_proxy_rs.Request.Body.{build_codex_request_body}
use codex_proxy_rs.Request.Responses.{transform_responses_request_body}
use codex_proxy_rs.Buffered
use codex_proxy_rs.Buffered.{Buffered, buffer_responses_response}
use codex_proxy_rs.Buffered.Chat.{StreamingChunk, buffer_chat_completion}
use codex_proxy_rs.Credentials.{CredentialsFetcher}
use codex_proxy_rs.Upstream.{
  Client, Sent, response, failed, panicked, UpstreamError, send_with_retry,
}
use codex_proxy_rs.Server.Stream.{
  RelayMode, rewrite, pass_through, Reply, json_reply, is_event_stream, relay_response,
  mirror_response,
}

-- `Result<Response, ApiError>`; `aborted` is a panic of the handler's task.
pub data Handled : Type 0 where
  reply : Reply → Handled
  refused : ApiError → Handled
  aborted : Handled

abbrev pub wants_stream : Value → Bool
wants_stream request = get_or (get (codes "stream") request >>= as_bool) false

abbrev pub buffered_reply : Buffered → Handled
buffered_reply (Buffered.ok value) = reply (json_reply value)
buffered_reply (Buffered.err e) = refused (internal (codes "Failed to process streaming response"))

module _ (codec : JsonCodec) where
  -- What `responses` answers once the upstream has.
  unfoldable pub on_responses : Bool → UpstreamResponse → Handled
  unfolding is_event_stream relay_response mirror_response buffer_responses_response
  on_responses client_wants_stream resp =
      if leb 400 resp.status
      then reply (mirror_response resp)
      else if not (is_event_stream resp)
      then reply (mirror_response resp)
      else if client_wants_stream
      then reply (relay_response resp pass_through)
      else buffered_reply (buffer_responses_response codec resp.body)

-- What `chat_completions` answers once the upstream has.
unfoldable pub on_chat :
    {T : Type 0}
    → StreamTransformer T
    → (Bytes → Option StreamingChunk)
    → ℕ
    → Str
    → Bool
    → UpstreamResponse
    → Handled
unfolding relay_response mirror_response buffer_chat_completion
on_chat transformer chunk_of now normalized_model stream resp =
    if not (resp.status == 200)
    then reply (mirror_response resp)
    else if stream
    then reply (relay_response resp (rewrite normalized_model))
    else buffered_reply (buffer_chat_completion transformer chunk_of normalized_model now resp.body)

module _ {World : Type 0} (codec : JsonCodec) (hash_to_uuid : Str → Str) (client : Client World)
    (creds : CredentialsFetcher World) (upstream_url codex_cli_version : Str)
    (show_error : UpstreamError → Str) where
  abbrev pub answer_sent : (UpstreamResponse → Handled) → Sent → Handled
  answer_sent k (response resp) = k resp
  answer_sent k (failed e) = refused (upstream (show_error e))
  answer_sent k panicked = aborted

  -- The request body goes to the upstream, and what comes back is answered.
  abbrev pub forward : Option Bytes → (UpstreamResponse → Handled) → World → Handled × World
  forward none k w = (refused (internal (codes "Failed to process request")), w)
  forward (some out) k w =
      let (sent, after) = send_with_retry client upstream_url codex_cli_version out creds w in
      (answer_sent k sent, after)

  abbrev pub handle_responses : Option Value → World → Handled × World
  handle_responses none w = (refused (bad_request (codes "Failed to parse request body")), w)
  handle_responses (some request) w =
      let transformed =
        transform_responses_request_body hash_to_uuid request (resolve_request_model request)
          (resolve_reasoning_effort request) in
      forward (codec.to_vec transformed.0) (on_responses codec (wants_stream request)) w

  -- The handler of `/v1/responses`; what it logs and measures is left out.
  unfoldable pub responses : Bytes → World → Handled × World
  unfolding send_with_retry on_responses transform_responses_request_body
  responses body w = handle_responses (codec.from_slice body) w

  module _ {T : Type 0} (transformer : Str → StreamTransformer T)
      (chunk_of : Bytes → Option StreamingChunk) (now : ℕ) (to_string : Value → Option Str)
      (prefix inverse_prompt : Str) where
    abbrev pub handle_chat : Option Value → World → Handled × World
    handle_chat none w = (refused (bad_request (codes "Failed to parse request body")), w)
    handle_chat (some request) w =
        let target =
          build_codex_request_body hash_to_uuid to_string prefix inverse_prompt request in
        let normalized_model = get_or (get_str (codes "model") target) gpt5 in
        forward (codec.to_vec target)
          (on_chat (transformer normalized_model) chunk_of now normalized_model
            (wants_stream request))
          w

    -- The handler of `/v1/chat/completions`; what it logs and measures is left out.
    unfoldable pub chat_completions : Bytes → World → Handled × World
    unfolding send_with_retry on_chat build_codex_request_body
    chat_completions body w = handle_chat (codec.from_slice body) w
