-- ===== src/Relay/Termination.antt =====
-- How the rewrite relay of src/relay.rs ends its stream, for a client that stays.
use codex_proxy_rs.Base.{
  codes, ℕ, Bool, true, List, [], ◌∷◌, ◌++◌, Option, none, some, Str, Bytes, ◌≡◌, ◌≢◌, refl, sym,
  ap, ◌∙◌, append_assoc, append-nil, Bool-cases, inl, inr,
}
use codex_proxy_rs.Json.{JsonCodec, text, object, field, end}
use codex_proxy_rs.Sse.{finish, feed}
use codex_proxy_rs.Relay.{
  Item, byte, wait, broken, Write, ping, frame, Sink, write, write_all, done_marker, TransformError,
  display, Transformed, emitted, swallowed, done, failed, StreamTransformer, RelayError,
  upstream_read, downstream_write, transform_error, Ended, ended_by, is_due, error_payload,
  terminate_with_error, openai_chunk, untyped_event, Rewrite, Next, go, stop, pass_through,
  on_failure, on_transformed, on_event, on_event?, on_wait, step, at_end, run, try_frame,
}

-- A client that takes every write.
abbrev pub Stays : Sink → Type 0
Stays s = s.room ≡ none

pub write-Stays :
    (s : Sink) (w : Write)
    → Stays s
    → write s w ≡ (record { out = s.out ++ (w ∷ []); room = none }, true)
unfolding write
write-Stays s w e = rw e

abbrev pub all_frames : List Bytes → List Write
all_frames [] = []
all_frames (payload ∷ payloads) = frame payload ∷ all_frames payloads

pub write_all-out :
    (payloads : List Bytes) (out : List Write)
    → write_all (record { out = out; room = none }) payloads
      ≡ (record { out = out ++ all_frames payloads; room = none }, true)
unfolding write_all write
write_all-out [] out = rw append-nil
write_all-out (payload ∷ payloads) out =
    write_all-out payloads (out ++ (frame payload ∷ [])) ∙ rw append_assoc

pub write_all-Stays :
    (s : Sink) (payloads : List Bytes)
    → Stays s
    → write_all s payloads ≡ (record { out = s.out ++ all_frames payloads; room = none }, true)
write_all-Stays s payloads e =
    let endless : s ≡ record { out = s.out; room = none } =
      λ i. record { out = s.out; room = e i } in
    ap (λ t. write_all t payloads) endless ∙ write_all-out payloads s.out

abbrev pub frame? : Option Bytes → List Write
frame? none = []
frame? (some bytes) = frame bytes ∷ []

try_frame-out :
    (s : Sink) (o : Option Bytes)
    → Stays s
    → try_frame s o ≡ record { out = s.out ++ frame? o; room = none }
try_frame-out s none e = λ i. record { out = sym (append-nil s.out) i; room = e i }
try_frame-out s (some bytes) e = ap (λ (x : Sink × Bool). x.0) (write-Stays s (frame bytes) e)

module _ (codec : JsonCodec) where
  -- The error frame, where the message can be written as JSON.
  abbrev pub error_frames : Str → List Write
  error_frames message =
      frame? (
        codec.to_vec
          (object (field (codes "error") (text (codes "stream error: " ++ message)) end)))

  -- The last writes of a stream that has ended: the done marker after success, the error frame and then
  -- the done marker after an error of the upstream or of the transformer.
  abbrev pub last_writes : Option RelayError → List Write
  last_writes none = frame done_marker ∷ []
  last_writes (some (upstream_read e)) = error_frames e ++ (frame done_marker ∷ [])
  last_writes (some (transform_error e)) = error_frames (display e) ++ (frame done_marker ∷ [])
  last_writes (some downstream_write) = []

  pub record IsTerminated (e : Ended) : Type 0 where
    pub before : List Write
    pub ends : e.sink.out ≡ before ++ last_writes e.error
    pub client_stays : e.error ≢ some downstream_write

  terminate-out :
      (s : Sink) (message : Str)
      → Stays s
      → (terminate_with_error codec s message).out
        ≡ s.out ++ (error_frames message ++ (frame done_marker ∷ []))
  unfolding terminate_with_error error_payload
  terminate-out s message e =
      rw (try_frame-out s (error_payload codec message) e) (unfold write in append_assoc s.out _ _)

  module _ {T : Type 0} (transformer : StreamTransformer T) (interval : ℕ) where
    abbrev pub Good : Next codec transformer interval → Type 0
    Good (go r) = Stays r.sink
    Good (stop e) = IsTerminated e

    abbrev pub Loop : Type 0
    Loop = Rewrite codec transformer interval

    pass_through-Good :
        (r : Loop) (payload : Option Bytes)
        → Stays r.sink
        → Good (pass_through codec transformer interval r payload)
    pass_through-Good r none e = e
    pass_through-Good r (some payload) e = rw (write-Stays r.sink (frame payload) e)

    on_failure-Good :
        (r : Loop) (x : TransformError) (o : Option (Option Bytes))
        → Stays r.sink
        → Good (on_failure codec transformer interval r x o)
    on_failure-Good r x none e = record {
      before = r.sink.out;
      ends = terminate-out r.sink (display x) e;
      client_stays = λ q. cc;
    }
    on_failure-Good r x (some payload) e = pass_through-Good r payload e

    ended_by-IsTerminated :
        (s : Sink) → Stays s → IsTerminated (ended_by (write s (frame done_marker)))
    ended_by-IsTerminated s e =
        rw (write-Stays s (frame done_marker) e)
          (record { before = s.out; ends = refl; client_stays = λ q. cc })

    on_transformed-Good :
        (r : Loop) (event : Bytes) (t : Transformed)
        → Stays r.sink
        → Good (on_transformed codec transformer interval r event t)
    unfolding on_transformed
    on_transformed-Good r event done e = ended_by-IsTerminated r.sink e
    on_transformed-Good r event (emitted payloads) e = rw (write_all-Stays r.sink payloads e)
    on_transformed-Good r event swallowed e = pass_through-Good r (openai_chunk codec event) e
    on_transformed-Good r event (failed x) e = on_failure-Good r x (untyped_event codec event) e

    pub on_event?-Good :
        (r : Loop) (event : Option Bytes)
        → Stays r.sink
        → Good (on_event? codec transformer interval r event)
    unfolding on_event
    on_event?-Good r none e = e
    on_event?-Good r (some event) e = on_transformed-Good _ event _ e

    on_wait-Good :
        (r : Loop) (now : ℕ) → Stays r.sink → Good (on_wait codec transformer interval r now)
    unfolding on_wait
    on_wait-Good r now e = elim (Bool-cases (is_due interval r.last_write now)) [
      | inl due ↦ rw (due, write-Stays r.sink ping e)
      | inr early ↦ rw early e
    ]

    pub step-Good :
        (r : Loop) (item : Item) → Stays r.sink → Good (step codec transformer interval r item)
    unfolding step
    step-Good r (byte b) e = on_event?-Good _ (feed r.reader b).1 e
    step-Good r (wait now) e = on_wait-Good r now e
    step-Good r (broken x) e = record {
      before = r.sink.out;
      ends = terminate-out r.sink x e;
      client_stays = λ q. cc;
    }

    at_end-IsTerminated :
        (n : Next codec transformer interval)
        → Good n
        → IsTerminated (at_end codec transformer interval n)
    unfolding at_end
    at_end-IsTerminated (go r) e = ended_by-IsTerminated r.sink e
    at_end-IsTerminated (stop x) e = e

    -- From a state whose client stays, the rest of a run ends as it should.
    pub run-IsTerminated :
        (input : List Item) (n : Next codec transformer interval)
        → Good n
        → IsTerminated (run codec transformer interval n input)
    unfolding run
    run-IsTerminated [] (go r) e = at_end-IsTerminated _ (on_event?-Good r (finish r.reader) e)
    run-IsTerminated (item ∷ input) (go r) e = run-IsTerminated input _ (step-Good r item e)
    run-IsTerminated [] (stop x) e = e
    run-IsTerminated (item ∷ input) (stop x) e = e
