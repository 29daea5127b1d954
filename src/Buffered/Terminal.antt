-- ===== src/Buffered/Terminal.antt =====
-- What `buffer_responses_response` of src/buffered.rs answers, against a description of it.
use codex_proxy_rs.Base.{
  ℕ, zero, suc, ◌≤◌, ◌≡◌, refl, ap, ◌∙◌, List, [], ◌∷◌, Option, none, some, Str, Bytes, codes, All,
  Bool, false, ◌||◌, ◌==◌, text_eq, text_beq, ==_iff, if◌then◌else◌, contains, Option-cases,
  Bool-cases, inl, inr, length, length-append, ltb, arith,
}
use codex_proxy_rs.Json.{
  Value, null, boolean, number, text, array, object, get, get_str, JsonCodec, ◌>>=◌,
}
use codex_proxy_rs.Http.{Input}
use codex_proxy_rs.Sse.{SseEventReader, new_reader, feed, cons?, events_from}
use codex_proxy_rs.Sse.RoundTrip.{frames, HasNoReturn, events_from-frames}
use codex_proxy_rs.Buffered.{
  Buffered, ok, err, read, missing_terminal_event, events_of, Seen, skipped, noted, terminal,
  classify, classify_payload, as_terminal, responses_terminal_events, scan,
  buffer_responses_response, take, cut_message, message_limit,
}

take-length : (n : ℕ) (s : Str) → length (take n s) ≤ n
unfolding take
take-length zero s = omega arith
take-length (suc n) [] = omega arith
take-length (suc n) (c ∷ s) = omega (arith, take-length n s)

-- A message takes at most 201 characters of a log line.
pub cut_message-length : (msg : Str) → length (cut_message msg) ≤ 201
unfolding cut_message codes
cut_message-length msg = elim (Bool-cases (ltb message_limit (length msg))) [
  | inr short ↦ rw short (ground arith)
  | inl long ↦
      let one : length (codes "…") ≡ 1 = refl in
      rw long (
        omega (
          arith,
          one,
          take-length message_limit msg,
          length-append (take message_limit msg) (codes "…"),
        ))
]

-- The reader of a stream that does not break yields the events of `SseEventReader`.
events_of-end :
    (reader : SseEventReader) (bs : Bytes) → events_of reader bs none ≡ events_from reader bs
unfolding events_of events_from
events_of-end reader [] = refl
events_of-end reader (b ∷ bs) = ap (cons? (feed reader b).1) (events_of-end (feed reader b).0 bs)

-- The names of the events that end a stream.
pub ends_stream : Str → Bool
ends_stream kind =
    codes "response.completed" == kind
    || codes "response.failed" == kind
    || codes "response.incomplete" == kind

abbrev object_only : Option Value → Option Value
object_only (some (object fs)) = some (object fs)
object_only _ = none

abbrev given_or : Option Value → Option Value → Option Value
given_or none other = other
given_or (some payload) other = some payload

abbrev terminal_of : Seen → Option Value
terminal_of (terminal response) = some response
terminal_of _ = none

abbrev noted_of : Seen → Option Value
noted_of (noted payload) = some payload
noted_of _ = none

-- The response that a decoded event carries, if it is terminal: an object under `response`.
response_of : Option Value → Option Value
response_of decoded = do
  payload ← decoded
  kind ← get_str (codes "type") payload
  if ends_stream kind then object_only (get (codes "response") payload) else none

-- The payload of a decoded event of type `error`.
error_of : Option Value → Option Value
error_of decoded = do
  payload ← decoded
  kind ← get_str (codes "type") payload
  if kind == codes "error" then some payload else none

-- The loop's reading of a payload agrees with these two, by the payload's type.
abbrev ReadsAs : Option Value → Option Value → Seen → Type 0
ReadsAs response error seen = (terminal_of seen ≡ response) × (noted_of seen ≡ error)

as_terminal-ReadsAs : (o : Option Value) → ReadsAs (object_only o) none (as_terminal o)
as_terminal-ReadsAs none = (refl, refl)
as_terminal-ReadsAs (some null) = (refl, refl)
as_terminal-ReadsAs (some (boolean b)) = (refl, refl)
as_terminal-ReadsAs (some (number n)) = (refl, refl)
as_terminal-ReadsAs (some (text t)) = (refl, refl)
as_terminal-ReadsAs (some (array vs)) = (refl, refl)
as_terminal-ReadsAs (some (object fs)) = (refl, refl)

not_both : ends_stream (codes "error") ≡ false
unfolding ends_stream codes text_beq
not_both = refl

listed : (kind : Str) → contains responses_terminal_events kind ≡ ends_stream kind
unfolding contains ends_stream
listed kind = ground arith

classify_kind :
    (payload : Value) (kind : Str)
    → ReadsAs
        (if ends_stream kind then object_only (get (codes "response") payload) else none)
        (if kind == codes "error" then some payload else none)
        (if kind == codes "error"
          then noted payload
          else if contains responses_terminal_events kind
          then as_terminal (get (codes "response") payload)
          else skipped)
classify_kind payload kind = elim (Bool-cases (kind == codes "error")) [
  | inl error ↦
      let ends : ends_stream kind ≡ false =
        ap ends_stream ((==_iff kind (codes "error")).0 error) ∙ not_both in
      rw (error, ends) (refl, refl)
  | inr other ↦ elim (Bool-cases (ends_stream kind)) [
    | inl ends ↦
        rw (other, listed kind, ends) (as_terminal-ReadsAs (get (codes "response") payload))
    | inr goes_on ↦ rw (other, listed kind, goes_on) (refl, refl)
  ]
]

classify_payload-ReadsAs :
    (decoded : Option Value)
    → ReadsAs (response_of decoded) (error_of decoded) (classify_payload decoded)
unfolding response_of error_of
classify_payload-ReadsAs none = (refl, refl)
classify_payload-ReadsAs (some payload) = elim (Option-cases (get_str (codes "type") payload)) [
  | inl e ↦ rw (e, ◌>>=◌) (unfold contains codes text_beq in (refl, refl))
  | inr (kind, e) ↦ rw (e, ◌>>=◌) (classify_kind payload kind)
]

module _ (codec : JsonCodec) where
  -- The response of the first terminal event.
  pub first_terminal : List Bytes → Option Value
  first_terminal [] = none
  first_terminal (event ∷ events) =
      given_or (response_of (codec.from_slice event)) (first_terminal events)

  -- The last error event, from one that was seen before.
  pub last_error : Option Value → List Bytes → Option Value
  last_error before [] = before
  last_error before (event ∷ events) =
      last_error (given_or (error_of (codec.from_slice event)) before) events

  -- The first terminal response, or else the error that broke the stream, or else the last error
  -- event.
  pub described : Option Value → Option Value → Option Str → Buffered
  described (some response) upstream_error broken = ok response
  described none upstream_error (some e) = err (read e)
  described none upstream_error none = err (missing_terminal_event upstream_error)

  scan-described :
      (upstream_error : Option Value) (events : List Bytes) (broken : Option Str)
      → scan codec upstream_error events broken
        ≡ described (first_terminal events) (last_error upstream_error events) broken
  unfolding scan classify described first_terminal last_error
  scan-described upstream_error [] none = refl
  scan-described upstream_error [] (some e) = refl
  scan-described upstream_error (event ∷ events) broken =
      let (response, error) = classify_payload-ReadsAs (codec.from_slice event) in
      go (scan-described upstream_error events broken)
        (λ payload. scan-described (some payload) events broken) (classify codec event)
      ∙ (λ i.
          described (given_or (response i) (first_terminal events))
            (last_error (given_or (error i) upstream_error) events) broken)
    where
      go :
          scan codec upstream_error events broken
            ≡ described (first_terminal events) (last_error upstream_error events) broken
          → ((payload : Value)
              → scan codec (some payload) events broken
                ≡ described (first_terminal events) (last_error (some payload) events) broken)
          → (s : Seen)
          → (elim s [
            | skipped ↦ scan codec upstream_error events broken
            | noted payload ↦ scan codec (some payload) events broken
            | terminal response ↦ ok response
          ])
            ≡ described
                (given_or (terminal_of s) (first_terminal events))
                (last_error (given_or (noted_of s) upstream_error) events)
                broken
      go same with_error skipped = same
      go same with_error (noted payload) = with_error payload
      go same with_error (terminal response) = refl

  -- A stream of written data frames without carriage returns that does not break is answered with
  -- the `response` object of its first event of type response.completed, response.failed or
  -- response.incomplete that has one; without such an event, with an error that holds the last
  -- event of type error, if there is one.
  pub buffer_responses_response-first :
      (payloads : List Bytes)
      → All HasNoReturn payloads
      → buffer_responses_response codec (record { bytes = frames payloads; broken = none })
        ≡ described (first_terminal payloads) (last_error none payloads) none
  unfolding buffer_responses_response
  buffer_responses_response-first payloads clean =
      ap (λ events. scan codec none events none)
        (events_of-end new_reader (frames payloads) ∙ events_from-frames payloads clean)
      ∙ scan-described none payloads none

  -- Any stream, broken or not, of any bytes.
  pub buffer_responses_response-described :
      (input : Input)
      → let events = events_of new_reader input.bytes input.broken in
        buffer_responses_response codec input
        ≡ described (first_terminal events) (last_error none events) input.broken
  unfolding buffer_responses_response
  buffer_responses_response-described input =
      scan-described none (events_of new_reader input.bytes input.broken) input.broken
