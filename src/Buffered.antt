-- ===== src/Buffered.antt =====
-- The buffered answers of src/buffered.rs: an upstream stream collected into one JSON object.
pub mod Terminal
pub mod Chat
use codex_proxy_rs.Base.{
  ℕ, ◌||◌, Bool, true, false, List, [], ◌∷◌, ◌++◌, Option, none, some, Str, Bytes, codes,
  if◌then◌else◌, ◌==◌, text_eq, get_or, contains, length, leb, ltb,
}
use codex_proxy_rs.Json.{Value, object, get, get_str, JsonCodec, ◌>>=◌}
use codex_proxy_rs.Http.{Input}
use codex_proxy_rs.Sse.{SseEventReader, new_reader, feed, finish, cons?}
use codex_proxy_rs.Relay.{TransformError}

-- `BufferError`; an I/O error is its text.
pub data BufferError : Type 0 where
  read : Str → BufferError
  transform : TransformError → BufferError
  missing_terminal_event : Option Value → BufferError

pub data Buffered : Type 0 where
  ok : Value → Buffered
  err : BufferError → Buffered

-- The events that the reader yields before the end or the error: an error flushes nothing.
unfoldable pub events_of : SseEventReader → Bytes → Option Str → List Bytes
events_of reader [] none = cons? (finish reader) []
events_of reader [] (some e) = []
events_of reader (b ∷ bs) broken =
    let (reader', event) = feed reader b in cons? event (events_of reader' bs broken)

abbrev pub message_limit : ℕ
message_limit = 200

-- The first characters of a text.
unfoldable pub take : ℕ → Str → Str
take ℕ.zero s = []
take (ℕ.suc n) [] = []
take (ℕ.suc n) (c ∷ s) = c ∷ take n s

-- A message of at most 200 characters, or its first 200 and an ellipsis.
unfoldable pub cut_message : Str → Str
unfolding take
cut_message msg =
    if ltb message_limit (length msg) then take message_limit msg ++ codes "…" else msg

abbrev pub summary : Option Str → Option Str → Str
summary (some code) (some message) = code ++ (codes ": " ++ cut_message message)
summary (some code) none = code
summary none (some message) = cut_message message
summary none none = codes "unparseable"

unfoldable pub summarize_upstream_error : Value → Str
unfolding cut_message
summarize_upstream_error payload =
    codes " (last upstream error: "
    ++ (summary (get_str (codes "code") payload) (get_str (codes "message") payload) ++ codes ")")

abbrev pub responses_terminal_events : List Str
responses_terminal_events =
    codes "response.completed" ∷ codes "response.failed" ∷ codes "response.incomplete" ∷ []

-- What the loop makes of an event.
pub data Seen : Type 0 where
  skipped : Seen
  noted : Value → Seen
  terminal : Value → Seen

abbrev pub as_terminal : Option Value → Seen
as_terminal (some (object fs)) = terminal (object fs)
as_terminal _ = skipped

abbrev pub classify_payload : Option Value → Seen
classify_payload none = skipped
classify_payload (some payload) =
    let event_type = get_or (get_str (codes "type") payload) [] in
    if event_type == codes "error"
    then noted payload
    else if contains responses_terminal_events event_type
    then as_terminal (get (codes "response") payload)
    else skipped

module _ (codec : JsonCodec) where
  unfoldable pub classify : Bytes → Seen
  classify event = classify_payload (codec.from_slice event)

  -- The loop, from the error event that was seen last.
  unfoldable pub scan : Option Value → List Bytes → Option Str → Buffered
  unfolding classify
  scan upstream_error [] (some e) = err (read e)
  scan upstream_error [] none = err (missing_terminal_event upstream_error)
  scan upstream_error (event ∷ events) broken = elim (classify event) [
    | skipped ↦ scan upstream_error events broken
    | noted payload ↦ scan (some payload) events broken
    | terminal response ↦ ok response
  ]

  unfoldable pub buffer_responses_response : Input → Buffered
  unfolding scan events_of
  buffer_responses_response input =
      scan none (events_of new_reader input.bytes input.broken) input.broken
