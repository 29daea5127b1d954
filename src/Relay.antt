-- ===== src/Relay.antt =====
-- The relay loop of src/relay.rs: `rewrite_sse_stream`. The copying relay stands in PassThrough.
-- The input is a list of what the loop meets, byte by byte, and ends at the end of the stream. The
-- output is a list of writes, each a frame or a keepalive comment.
pub mod Termination
pub mod Outcome
pub mod PassThrough
use codex_proxy_rs.Base.{
  ℕ, zero, suc, ◌+◌, ◌&&◌, not, Bool, true, false, List, [], ◌∷◌, ◌++◌, Option, none, some, Str,
  Bytes, if◌then◌else◌, ◌==◌, nat_eq, text_eq, codes, get_or, leb, is_some,
}
use codex_proxy_rs.Json.{Value, text, object, field, end, get_str, JsonCodec, ◌>>=◌}
use codex_proxy_rs.Sse.{
  SseEventReader, new_reader, feed, finish, trim_ascii, data_frame, ping_bytes,
}

-- What the loop meets next: a byte; the timers, looked at with this reading of the clock while the
-- reader is waiting; or an I/O error of the upstream.
pub data Item : Type 0 where
  byte : ℕ → Item
  wait : ℕ → Item
  broken : Str → Item

pub data Write : Type 0 where
  ping : Write
  frame : Bytes → Write

-- The bytes of a write on the wire.
unfoldable pub write_bytes : Write → Bytes
write_bytes ping = ping_bytes
write_bytes (frame payload) = data_frame payload

-- The client's end: `some n` takes `n` more writes and is then gone, `none` takes all. A write
-- that fails may leave part of its bytes behind; the model keeps none of them.
pub record Sink : Type 0 where
  pub out : List Write
  pub room : Option ℕ

-- One write; the flag is whether it succeeded.
unfoldable pub write : Sink → Write → Sink × Bool
write s w = elim s.room [
  | none ↦ (record s { out = s.out ++ (w ∷ []) }, true)
  | some zero ↦ (s, false)
  | some (suc n) ↦ (record { out = s.out ++ (w ∷ []); room = some n }, true)
]

-- Frames in order, up to the first that fails.
unfoldable pub write_all : Sink → List Bytes → Sink × Bool
write_all s [] = (s, true)
write_all s (payload ∷ payloads) =
    let first = write s (frame payload) in
    let rest = write_all first.0 payloads in if first.1 then rest else first

abbrev pub done_marker : Bytes
done_marker = codes "[DONE]"

-- `TransformError`.
pub data TransformError : Type 0 where
  invalid_json marshal_error : Str → TransformError

unfoldable pub display : TransformError → Str
display (invalid_json e) = codes "invalid upstream JSON chunk: " ++ e
display (marshal_error e) = codes "failed to marshal chunk: " ++ e

-- `Result<TransformResult, TransformError>`.
pub data Transformed : Type 0 where
  emitted : List Bytes → Transformed
  swallowed done : Transformed
  failed : TransformError → Transformed

-- The transformer as the relay uses it: `SSETransformer::new` and `SSETransformer::transform`.
pub record StreamTransformer (T : Type 0) : Type 0 where
  pub initial : T
  pub transform : T → Bytes → T × Transformed

pub data RelayError : Type 0 where
  upstream_read : Str → RelayError
  downstream_write : RelayError
  transform_error : TransformError → RelayError

unfoldable pub is_openai_chunk : Value → Bool
is_openai_chunk value = elim (get_str (codes "object") value) [
  | none ↦ false
  | some name ↦ name == codes "chat.completion.chunk"
]

-- A write whose failure is ignored.
abbrev pub try_write : Sink → Write → Sink
try_write s w = (write s w).0

abbrev pub try_frame : Sink → Option Bytes → Sink
try_frame s none = s
try_frame s (some bytes) = try_write s (frame bytes)

-- `Ok(())` is `none`.
pub record Ended : Type 0 where
  pub sink : Sink
  pub error : Option RelayError

-- After the last write, which must succeed.
abbrev pub ended_by : Sink × Bool → Ended
ended_by (t, false) = record { sink = t; error = some downstream_write }
ended_by (t, true) = record { sink = t; error = none }

-- The keepalive deadline has passed; an interval of zero never has one.
unfoldable pub is_due : ℕ → ℕ → ℕ → Bool
is_due interval last_write now = not (interval == 0) && leb (last_write + interval) now

module _ (codec : JsonCodec) where
  open codec use {from_slice, to_vec}

  unfoldable pub error_payload : Str → Option Bytes
  error_payload message =
      to_vec (object (field (codes "error") (text (codes "stream error: " ++ message)) end))

  unfoldable pub terminate_with_error : Sink → Str → Sink
  terminate_with_error s message =
      try_write (try_frame s (error_payload message)) (frame done_marker)

  -- `pass_through_openai_chunk`: the payload to write, if any.
  unfoldable pub openai_chunk : Bytes → Option Bytes
  openai_chunk event = elim (from_slice (trim_ascii event)) [
    | none ↦ none
    | some value ↦ if is_openai_chunk value then some (trim_ascii event) else none
  ]

  -- On a transform error: `some none` for an event that is skipped, `some (some p)` for one that is
  -- passed through, `none` for one that aborts the stream.
  unfoldable pub untyped_event : Bytes → Option (Option Bytes)
  untyped_event event = elim (from_slice event) [
    | none ↦ none
    | some value ↦
        if is_some (get_str (codes "type") value)
        then none
        else if is_openai_chunk value
        then some (some (trim_ascii event))
        else some none
  ]

  module _ {T : Type 0} (transformer : StreamTransformer T) (interval : ℕ) where
    open transformer use {initial, transform}

    -- The variables of `rewrite_sse_stream`; `now` is the latest reading of the clock.
    pub record Rewrite : Type 0 where
      pub reader : SseEventReader
      pub state : T
      pub last_write : ℕ
      pub now : ℕ
      pub sink : Sink

    -- The loop goes on, or has returned.
    pub data Next : Type 0 where
      go : Rewrite → Next
      stop : Ended → Next

    -- After a write in the loop, which resets the idle deadline.
    abbrev pub written : Rewrite → Sink × Bool → Next
    written r (t, false) = stop (record { sink = t; error = some downstream_write })
    written r (t, true) = go (record r { sink = t; last_write = r.now })

    abbrev pub pass_through : Rewrite → Option Bytes → Next
    pass_through r none = go r
    pass_through r (some payload) = written r (write r.sink (frame payload))

    abbrev pub on_failure : Rewrite → TransformError → Option (Option Bytes) → Next
    on_failure r e none = stop (record {
      sink = terminate_with_error r.sink (display e);
      error = some (transform_error e);
    })
    on_failure r e (some payload) = pass_through r payload

    unfoldable pub on_transformed : Rewrite → Bytes → Transformed → Next
    on_transformed r event done = stop (ended_by (write r.sink (frame done_marker)))
    on_transformed r event (emitted frames) = written r (write_all r.sink frames)
    on_transformed r event swallowed = pass_through r (openai_chunk event)
    on_transformed r event (failed e) = on_failure r e (untyped_event event)

    -- One event of the upstream.
    unfoldable pub on_event : Rewrite → Bytes → Next
    unfolding on_transformed
    on_event r event =
        let (state, result) = transform r.state event in
        on_transformed (record r { state = state }) event result

    abbrev pub on_event? : Rewrite → Option Bytes → Next
    on_event? r none = go r
    on_event? r (some event) = on_event r event

    -- The keepalive branch of the loop.
    unfoldable pub on_wait : Rewrite → ℕ → Next
    on_wait r now =
        let r = record r { now = now } in
        if is_due interval r.last_write now then written r (write r.sink ping) else go r

    unfoldable pub step : Rewrite → Item → Next
    unfolding on_event on_wait
    step r (byte b) =
        let (reader, event) = feed r.reader b in on_event? (record r { reader = reader }) event
    step r (wait now) = on_wait r now
    step r (broken e) =
        stop (record { sink = terminate_with_error r.sink e; error = some (upstream_read e) })

    -- After the loop, at the end of the upstream.
    unfoldable pub at_end : Next → Ended
    at_end (stop e) = e
    at_end (go r) = ended_by (write r.sink (frame done_marker))

    unfoldable pub run : Next → List Item → Ended
    run (stop e) input = e
    run (go r) [] = at_end (on_event? r (finish r.reader))
    run (go r) (item ∷ input) = run (step r item) input

    -- The loop before its first round.
    abbrev pub first_round : Sink → ℕ → Rewrite
    first_round downstream start = record {
      reader = new_reader;
      state = initial;
      last_write = start;
      now = start;
      sink = downstream;
    }

    unfoldable pub rewrite_sse_stream : Sink → ℕ → List Item → Ended
    unfolding run step at_end
    rewrite_sse_stream downstream start input = run (go (first_round downstream start)) input
