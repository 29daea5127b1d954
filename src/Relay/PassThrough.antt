-- ===== src/Relay/PassThrough.antt =====
-- The relay that copies events unchanged: `pass_through_sse_stream` of src/relay.rs.
pub mod Payloads
pub mod Copies
use codex_proxy_rs.Base.{
  ℕ, Bool, true, false, List, [], ◌∷◌, Option, none, some, Bytes, if◌then◌else◌, ◌==◌, text_eq,
  is_empty,
}
use codex_proxy_rs.Sse.{SseEventReader, new_reader, feed, finish, trim_ascii}
use codex_proxy_rs.Relay.{
  Item, byte, wait, broken, ping, frame, Sink, write, done_marker, RelayError, upstream_read,
  downstream_write, Ended, is_due,
}

-- The variables of the loop; `now` is the latest reading of the clock.
pub record Copier : Type 0 where
  pub reader : SseEventReader
  pub last_write : ℕ
  pub now : ℕ
  pub sink : Sink

pub data Progress : Type 0 where
  go : Copier → Progress
  stop : Ended → Progress

abbrev pub after_write : Copier → Sink × Bool → Progress
after_write r (t, false) = stop (record { sink = t; error = some downstream_write })
after_write r (t, true) = go (record r { sink = t; last_write = r.now })

-- What is written of an event: its payload, or the bare marker.
unfoldable pub payload_of : Bytes → Bytes
payload_of event = if trim_ascii event == done_marker then done_marker else event

-- One event; an empty payload is skipped.
unfoldable pub copy : Copier → Option Bytes → Progress
copy r none = go r
copy r (some event) =
    if is_empty (payload_of event)
    then go r
    else after_write r (write r.sink (frame (payload_of event)))

-- At the end of the upstream nothing is injected.
abbrev pub at_close : Progress → Ended
at_close (stop e) = e
at_close (go r) = record { sink = r.sink; error = none }

module _ (interval : ℕ) where
  unfoldable pub keep_alive : Copier → ℕ → Progress
  keep_alive r now =
      let r = record r { now = now } in
      if is_due interval r.last_write now then after_write r (write r.sink ping) else go r

  unfoldable pub advance : Copier → Item → Progress
  advance r (byte b) =
      let (reader, event) = feed r.reader b in copy (record r { reader = reader }) event
  advance r (wait now) = keep_alive r now
  advance r (broken e) = stop (record { sink = r.sink; error = some (upstream_read e) })

  unfoldable pub copy_all : Progress → List Item → Ended
  copy_all (stop e) input = e
  copy_all (go r) [] = at_close (copy r (finish r.reader))
  copy_all (go r) (item ∷ input) = copy_all (advance r item) input

  unfoldable pub pass_through_sse_stream : Sink → ℕ → List Item → Ended
  unfolding copy_all advance
  pass_through_sse_stream downstream start input =
      copy_all
        (go (record { reader = new_reader; last_write = start; now = start; sink = downstream }))
        input
