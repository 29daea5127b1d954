-- ===== src/Checks/RelayChecks.antt =====
-- Runs of the event reader and of the relay loops of src/relay.rs.
use codex_proxy_rs.Base.{ℕ, List, [], ◌∷◌, none, some, Bytes, codes, ◌≡◌, refl, All, arith}
use codex_proxy_rs.Json.{JsonCodec, text}
use codex_proxy_rs.Sse.{events_from, new_reader}
use codex_proxy_rs.Sse.RoundTrip.{HasNoReturn, events_from-frames, frames}
use codex_proxy_rs.Relay.{
  Item, byte, wait, broken, Sink, StreamTransformer, emitted, rewrite_sse_stream,
}
use codex_proxy_rs.Relay.PassThrough.{pass_through_sse_stream}
use codex_proxy_rs.Relay.PassThrough.Copies.{pass_through_sse_stream-relayed, payloads, read_bytes}
use codex_proxy_rs.Relay.PassThrough.Payloads.{Stands}
use codex_proxy_rs.Relay.Termination.{IsTerminated}
use codex_proxy_rs.Relay.Outcome.{outcome, events_met, read_error, rewrite_sse_stream-IsTerminated}

abbrev two_lines : Bytes
two_lines = codes "a\n{}"

two_lines-HasNoReturn : HasNoReturn two_lines
unfolding codes
two_lines-HasNoReturn =
    ((λ e. omega arith), ((λ e. omega arith), ((λ e. omega arith), ((λ e. omega arith), tt))))

two_payloads-HasNoReturn : All HasNoReturn (two_lines ∷ [] ∷ [])
two_payloads-HasNoReturn = (two_lines-HasNoReturn, (tt, tt))

events_from-frames_example :
    events_from new_reader (frames (two_lines ∷ [] ∷ [])) ≡ two_lines ∷ [] ∷ []
events_from-frames_example = events_from-frames (two_lines ∷ [] ∷ []) two_payloads-HasNoReturn

abbrev opaque_codec : JsonCodec
opaque_codec = record { from_slice = λ bytes. some (text bytes); to_vec = λ v. some (codes "{}") }

abbrev counter : StreamTransformer ℕ
counter = record { initial = 0; transform = λ n event. (n, emitted (event ∷ event ∷ [])) }

abbrev client : Sink
client = record { out = []; room = none }

abbrev short_stream : List Item
short_stream = wait 7 ∷ byte 100 ∷ byte 10 ∷ broken (codes "reset") ∷ []

rewrite_sse_stream-IsTerminated_example :
    let ended = rewrite_sse_stream opaque_codec counter 5 client 0 short_stream in
    IsTerminated opaque_codec ended
    × (ended.error
        ≡ outcome opaque_codec counter 5 0
            (events_met new_reader short_stream)
            (read_error short_stream))
rewrite_sse_stream-IsTerminated_example =
    rewrite_sse_stream-IsTerminated opaque_codec counter 5 client 0 short_stream refl

abbrev copied_stream : List Item
copied_stream = byte 100 ∷ wait 9 ∷ byte 10 ∷ byte 10 ∷ []

pass_through_sse_stream-relayed_example :
    let ended = pass_through_sse_stream 5 client 0 copied_stream in
    (ended.error ≡ none)
    × Stands (events_from new_reader (read_bytes copied_stream)) (payloads ended.sink.out)
pass_through_sse_stream-relayed_example = pass_through_sse_stream-relayed 5 0 copied_stream tt
