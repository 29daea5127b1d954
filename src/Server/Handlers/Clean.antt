-- ===== src/Server/Handlers/Clean.antt =====
-- No answer of src/server/chat.rs or src/server/responses.rs passes on a header that is dropped.
use codex_proxy_rs.Base.{
  ℕ, Bool, false, not, [], ◌∷◌, Option, none, some, Str, Bytes, codes, text_beq, ◌≡◌, refl, if-both,
  ◌==◌, text_eq, nat_eq, All, contains, remove, leb, Bool-cases, inl, inr,
}
use codex_proxy_rs.Json.{Value, JsonCodec}
use codex_proxy_rs.Http.{Headers, UpstreamResponse, dropped_headers, sanitized_headers}
use codex_proxy_rs.Relay.{StreamTransformer}
use codex_proxy_rs.Buffered.{Buffered, buffer_responses_response}
use codex_proxy_rs.Buffered.Chat.{StreamingChunk, buffer_chat_completion}
use codex_proxy_rs.Credentials.{CredentialsFetcher}
use codex_proxy_rs.Upstream.{
  Client, Sent, response, failed, panicked, UpstreamError, send_with_retry,
}
use codex_proxy_rs.Server.Stream.{
  RelayMode, rewrite, pass_through, put_header, relay_response, mirror_body, mirror_response,
  is_event_stream,
}
use codex_proxy_rs.Server.Handlers.{
  Handled, reply, wants_stream, buffered_reply, on_responses, on_chat, answer_sent, forward,
  handle_responses, responses, handle_chat, chat_completions,
}

-- None of the headers is one that is dropped: no cookie of the backend and no length or encoding of
-- its body.
abbrev pub IsCleanHeaders : Headers → Type 0
IsCleanHeaders headers = All (λ (h : Str × Str). contains dropped_headers h.0 ≡ false) headers

abbrev pub IsClean : Handled → Type 0
IsClean (reply r) = IsCleanHeaders r.headers
IsClean _ = Unit

sanitized_headers-IsClean : (hs : Headers) → IsCleanHeaders (sanitized_headers hs)
unfolding sanitized_headers
sanitized_headers-IsClean [] = tt
sanitized_headers-IsClean (h ∷ hs) = elim (Bool-cases (contains dropped_headers h.0)) [
  | inl dropped ↦ rw dropped (sanitized_headers-IsClean hs)
  | inr kept ↦ rw kept (kept, sanitized_headers-IsClean hs)
]

remove-IsClean : (name : Str) (hs : Headers) → IsCleanHeaders hs → IsCleanHeaders (remove name hs)
unfolding remove
remove-IsClean name [] h = tt
remove-IsClean name (x ∷ hs) h =
    if-both IsCleanHeaders (x.0 == name) (remove-IsClean name hs h.1)
      (h.0, remove-IsClean name hs h.1)

put_header-IsClean :
    (name value : Str) (hs : Headers)
    → contains dropped_headers name ≡ false
    → IsCleanHeaders hs
    → IsCleanHeaders (put_header name value hs)
unfolding put_header
put_header-IsClean name value [] own h = (own, tt)
put_header-IsClean name value (x ∷ hs) own h =
    if-both IsCleanHeaders (x.0 == name) (own, remove-IsClean name hs h.1)
      (h.0, put_header-IsClean name value hs own h.1)

content_type-kept : contains dropped_headers (codes "content-type") ≡ false
unfolding contains codes text_beq
content_type-kept = refl

cache_control-kept : contains dropped_headers (codes "cache-control") ≡ false
unfolding contains codes text_beq
cache_control-kept = refl

relay_response-IsClean :
    (resp : UpstreamResponse) (mode : RelayMode) → IsCleanHeaders (relay_response resp mode).headers
unfolding relay_response
relay_response-IsClean resp mode =
    put_header-IsClean (codes "cache-control") (codes "no-cache") _ cache_control-kept (
      put_header-IsClean (codes "content-type") (codes "text/event-stream; charset=utf-8")
        (sanitized_headers resp.headers) content_type-kept (sanitized_headers-IsClean resp.headers))

mirror_response-IsClean : (resp : UpstreamResponse) → IsCleanHeaders (mirror_response resp).headers
unfolding mirror_response
mirror_response-IsClean resp = go resp.body.broken
  where
    go : (o : Option Str) → IsCleanHeaders (mirror_body resp o).headers
    go none = sanitized_headers-IsClean resp.headers
    go (some e) = (content_type-kept, tt)

buffered_reply-IsClean : (b : Buffered) → IsClean (buffered_reply b)
buffered_reply-IsClean (Buffered.ok value) = (content_type-kept, tt)
buffered_reply-IsClean (Buffered.err e) = tt

on_responses-IsClean :
    (codec : JsonCodec) (stream : Bool) (resp : UpstreamResponse)
    → IsClean (on_responses codec stream resp)
unfolding on_responses
on_responses-IsClean codec stream resp =
    if-both IsClean (leb 400 resp.status) (mirror_response-IsClean resp) (
      if-both IsClean (not (is_event_stream resp)) (mirror_response-IsClean resp) (
        if-both IsClean stream (relay_response-IsClean resp pass_through)
          (buffered_reply-IsClean (buffer_responses_response codec resp.body))))

on_chat-IsClean :
    {T : Type 0} (t : StreamTransformer T) (chunk_of : Bytes → Option StreamingChunk) (now : ℕ)
    (model : Str) (stream : Bool) (resp : UpstreamResponse)
    → IsClean (on_chat t chunk_of now model stream resp)
unfolding on_chat
on_chat-IsClean t chunk_of now model stream resp =
    if-both IsClean (not (resp.status == 200)) (mirror_response-IsClean resp) (
      if-both IsClean stream (relay_response-IsClean resp (rewrite model))
        (buffered_reply-IsClean (buffer_chat_completion t chunk_of model now resp.body)))

module _ {World : Type 0} (codec : JsonCodec) (hash_to_uuid : Str → Str) (client : Client World)
    (creds : CredentialsFetcher World) (upstream_url codex_cli_version : Str)
    (show_error : UpstreamError → Str) where
  forward-IsClean :
      (out : Option Bytes) (k : UpstreamResponse → Handled) (w : World)
      → ((resp : UpstreamResponse) → IsClean (k resp))
      → IsClean
          (forward codec hash_to_uuid client creds upstream_url codex_cli_version show_error out k
            w).0
  forward-IsClean none k w h = tt
  forward-IsClean (some out) k w h =
      go (send_with_retry client upstream_url codex_cli_version out creds w).0
    where
      go :
          (s : Sent)
          → IsClean (
              answer_sent codec hash_to_uuid client creds upstream_url codex_cli_version show_error
                k s)
      go (response resp) = h resp
      go (failed e) = tt
      go panicked = tt

  -- No answer of `/v1/responses` has a header that is dropped, a cookie of the backend for one,
  -- whatever is asked and whatever the upstream sends.
  pub responses-IsClean :
      (body : Bytes) (w : World)
      → IsClean
          (responses codec hash_to_uuid client creds upstream_url codex_cli_version show_error body
            w).0
  unfolding responses
  responses-IsClean body w = go (codec.from_slice body)
    where
      go :
          (o : Option Value)
          → IsClean
              (handle_responses codec hash_to_uuid client creds upstream_url codex_cli_version
                show_error o w).0
      go none = tt
      go (some request) =
          forward-IsClean _ (on_responses codec (wants_stream request)) w
            (on_responses-IsClean codec (wants_stream request))

  module _ {T : Type 0} (transformer : Str → StreamTransformer T)
      (chunk_of : Bytes → Option StreamingChunk) (now : ℕ) (to_string : Value → Option Str)
      (prefix inverse_prompt : Str) where
    -- No answer of `/v1/chat/completions` has a header that is dropped either.
    pub chat_completions-IsClean :
        (body : Bytes) (w : World)
        → IsClean
            (chat_completions codec hash_to_uuid client creds upstream_url codex_cli_version
              show_error transformer chunk_of now to_string prefix inverse_prompt body w).0
    unfolding chat_completions
    chat_completions-IsClean body w = go (codec.from_slice body)
      where
        go :
            (o : Option Value)
            → IsClean
                (handle_chat codec hash_to_uuid client creds upstream_url codex_cli_version
                  show_error transformer chunk_of now to_string prefix inverse_prompt o w).0
        go none = tt
        go (some request) = forward-IsClean _ _ w (λ resp. on_chat-IsClean _ chunk_of now _ _ resp)
