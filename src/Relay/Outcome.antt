-- ===== src/Relay/Outcome.antt =====
-- How the rewrite relay of src/relay.rs ends for a client that stays: which error it reports, read off
-- the upstream and the transformer, and the writes it ends with.
use codex_proxy_rs.Base.{
  ℕ, Bool, true, false, List, [], ◌∷◌, Option, none, some, Bytes, ◌≡◌, refl, ◌∙◌, ◌⊎◌, codes,
  is_some, if◌then◌else◌, Bool-cases, inl, inr,
}
use codex_proxy_rs.Json.{Value, JsonCodec, get_str}
use codex_proxy_rs.Sse.{SseEventReader, new_reader, feed, finish, cons?, trim_ascii}
use codex_proxy_rs.Relay.{
  Item, byte, wait, broken, ping, frame, Sink, done_marker, TransformError, Transformed, emitted,
  swallowed, done, failed, StreamTransformer, RelayError, upstream_read, transform_error, is_due,
  is_openai_chunk, openai_chunk, untyped_event, Next, go, stop, pass_through, on_failure,
  on_transformed, on_event, on_event?, on_wait, step, at_end, run, rewrite_sse_stream, first_round,
}
use codex_proxy_rs.Relay.Termination.{
  Stays, write-Stays, write_all-Stays, IsTerminated, Good, Loop, on_event?-Good, step-Good,
  run-IsTerminated,
}

-- The events that the upstream completes: up to the first read error, or up to the end, which
-- flushes the last one.
pub events_met : SseEventReader → List Item → List Bytes
events_met reader [] = cons? (finish reader) []
events_met reader (byte b ∷ input) = cons? (feed reader b).1 (events_met (feed reader b).0 input)
events_met reader (wait now ∷ input) = events_met reader input
events_met reader (broken e ∷ input) = []

-- The first read error of the upstream.
pub read_error : List Item → Option RelayError
read_error [] = none
read_error (byte b ∷ input) = read_error input
read_error (wait now ∷ input) = read_error input
read_error (broken e ∷ input) = some (upstream_read e)

module _ (codec : JsonCodec) where
  -- An event that the transformer cannot read ends the stream if it is no JSON, or has a type.
  pub is_fatal : Option Value → Bool
  is_fatal none = true
  is_fatal (some value) = is_some (get_str (codes "type") value)

  untyped_cases :
      (event : Bytes) (decoded : Option Value)
      → codec.from_slice event ≡ decoded
      → ((is_fatal decoded ≡ true) × (untyped_event codec event ≡ none))
        ⊎ ((is_fatal decoded ≡ false)
            × (payload : Option Bytes) × (untyped_event codec event ≡ some payload))
  unfolding is_fatal untyped_event
  untyped_cases event none d = inl (refl, rw (d, untyped_event) refl)
  untyped_cases event (some value) d = elim (Bool-cases (is_some (get_str (codes "type") value))) [
    | inl typed ↦ inl (typed, rw (d, untyped_event, typed) refl)
    | inr untyped ↦ elim (Bool-cases (is_openai_chunk value)) [
      | inl chunk ↦
          inr (untyped, some (trim_ascii event), rw (d, untyped_event, untyped, chunk) refl)
      | inr other ↦ inr (untyped, none, rw (d, untyped_event, untyped, other) refl)
    ]
  ]

  -- What the transformer's result on an event means for the outcome of the stream, given the
  -- outcome of the events after it.
  pub verdict : Bytes → Transformed → Option RelayError → Option RelayError
  verdict event (emitted frames) later = later
  verdict event swallowed later = later
  verdict event done later = none
  verdict event (failed e) later =
      if is_fatal (codec.from_slice event) then some (transform_error e) else later

  module _ {T : Type 0} (transformer : StreamTransformer T) (interval : ℕ) where
    open transformer use {initial, transform}

    -- The error that a stream of these events must report: that of the first event that ends the
    -- stream, or else `later`.
    pub outcome : T → List Bytes → Option RelayError → Option RelayError
    outcome state [] later = later
    outcome state (event ∷ events) later =
        verdict event (transform state event).1 (outcome (transform state event).0 events later)

    -- The error of a loop, given that of a loop that goes on.
    error_of :
        (SseEventReader → T → Option RelayError)
        → Next codec transformer interval
        → Option RelayError
    error_of rest (stop e) = e.error
    error_of rest (go r) = rest r.reader r.state

    pass_through-error :
        (rest : SseEventReader → T → Option RelayError) (r : Loop codec transformer interval)
        (payload : Option Bytes)
        → Stays r.sink
        → error_of rest (pass_through codec transformer interval r payload) ≡ rest r.reader r.state
    unfolding error_of
    pass_through-error rest r none e = refl
    pass_through-error rest r (some payload) e = rw (write-Stays r.sink (frame payload) e) refl

    on_failure-error :
        (rest : SseEventReader → T → Option RelayError) (r : Loop codec transformer interval)
        (event : Bytes) (x : TransformError)
        → Stays r.sink
        → error_of rest (on_failure codec transformer interval r x (untyped_event codec event)) ≡ (
            if is_fatal (codec.from_slice event)
            then some (transform_error x)
            else rest r.reader r.state)
    unfolding error_of
    on_failure-error rest r event x e = elim (untyped_cases event (codec.from_slice event) refl) [
      | inl (fatal, none_left) ↦ rw (none_left, fatal) refl
      | inr (harmless, payload, kept) ↦ rw (kept, harmless) (pass_through-error rest r payload e)
    ]

    on_transformed-error :
        (rest : SseEventReader → T → Option RelayError) (r : Loop codec transformer interval)
        (event : Bytes) (t : Transformed)
        → Stays r.sink
        → error_of rest (on_transformed codec transformer interval r event t)
          ≡ verdict event t (rest r.reader r.state)
    unfolding on_transformed verdict
    on_transformed-error rest r event (emitted payloads) e =
        unfold error_of in rw (write_all-Stays r.sink payloads e) refl
    on_transformed-error rest r event swallowed e =
        pass_through-error rest r (openai_chunk codec event) e
    on_transformed-error rest r event done e =
        unfold error_of in rw (write-Stays r.sink (frame done_marker) e) refl
    on_transformed-error rest r event (failed x) e = on_failure-error rest r event x e

    on_event?-error :
        (r : Loop codec transformer interval) (event : Option Bytes)
        (events : SseEventReader → List Bytes) (later : Option RelayError)
        → Stays r.sink
        → error_of
            (λ reader state. outcome state (events reader) later)
            (on_event? codec transformer interval r event)
          ≡ outcome r.state (cons? event (events r.reader)) later
    unfolding on_event outcome
    on_event?-error r none events later e = unfold error_of in refl
    on_event?-error r (some event) events later e =
        on_transformed-error (λ reader state. outcome state (events reader) later) _ event _ e

    step-error :
        (r : Loop codec transformer interval) (item : Item) (input : List Item)
        → Stays r.sink
        → error_of
            (λ reader state. outcome state (events_met reader input) (read_error input))
            (step codec transformer interval r item)
          ≡ outcome r.state (events_met r.reader (item ∷ input)) (read_error (item ∷ input))
    unfolding step on_wait events_met read_error
    step-error r (byte b) input e =
        on_event?-error _ (feed r.reader b).1 (λ reader. events_met reader input) (read_error input)
          e
    step-error r (wait now) input e =
        unfold error_of in
        elim (Bool-cases (is_due interval r.last_write now)) [
          | inl due ↦ rw (due, write-Stays r.sink ping e) refl
          | inr early ↦ rw early refl
        ]
    step-error r (broken x) input e = unfold error_of outcome in refl

    at_end-error :
        (n : Next codec transformer interval)
        → Good codec transformer interval n
        → (at_end codec transformer interval n).error ≡ error_of (λ reader state. none) n
    unfolding at_end error_of
    at_end-error (stop x) e = refl
    at_end-error (go r) e = rw (write-Stays r.sink (frame done_marker) e) refl

    run-error :
        (input : List Item) (n : Next codec transformer interval)
        → Good codec transformer interval n
        → (run codec transformer interval n input).error
          ≡ error_of (λ reader state. outcome state (events_met reader input) (read_error input)) n
    unfolding run error_of outcome events_met read_error
    run-error [] (stop x) e = unfold error_of in refl
    run-error (item ∷ input) (stop x) e = unfold error_of in refl
    run-error [] (go r) e =
        at_end-error _ (on_event?-Good codec transformer interval r (finish r.reader) e)
        ∙ on_event?-error r (finish r.reader) (λ reader. []) none e
    run-error (item ∷ input) (go r) e =
        run-error input _ (step-Good codec transformer interval r item e)
        ∙ step-error r item input e

    -- For a client that stays, whatever the upstream sends and however the timers fall: the stream
    -- ends with the done marker, and if an error is reported, the frame with its message stands right
    -- before it, unless that cannot be written as JSON. What is reported is decided by the first
    -- event that ends the stream: nothing if the transformer is done with it, a transform error if
    -- the transformer fails on it and the event is no JSON or has a text as its type. Without such
    -- an event it is the first read error of the upstream, if there is one.
    pub rewrite_sse_stream-IsTerminated :
        (downstream : Sink) (start : ℕ) (input : List Item)
        → Stays downstream
        → let ended = rewrite_sse_stream codec transformer interval downstream start input in
          IsTerminated codec ended
          × (ended.error ≡ outcome initial (events_met new_reader input) (read_error input))
    unfolding rewrite_sse_stream
    rewrite_sse_stream-IsTerminated downstream start input e =
        let first = go (first_round codec transformer interval downstream start) in
        (
          run-IsTerminated codec transformer interval input first e,
          run-error input first e ∙ (unfold error_of in refl),
        )
