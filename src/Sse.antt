-- ===== src/Sse.antt =====
-- Framing of server-sent events: `SseEventReader` and `write_data_frame` of src/relay.rs.
pub mod RoundTrip
pub mod Trim
use codex_proxy_rs.Base.{
  ℕ, ◌||◌, Bool, true, false, List, [], ◌∷◌, ◌++◌, Option, none, some, Bytes, if◌then◌else◌, ◌==◌,
  nat_eq, text_eq, is_empty, codes, strip_prefix, starts_with, join, split, get_or, strip_suffix,
  map,
}
use mathlib.Core.List.{reverse}

-- `u8::is_ascii_whitespace`.
unfoldable pub is_ascii_white : ℕ → Bool
is_ascii_white b = b == 32 || b == 9 || b == 10 || b == 12 || b == 13

unfoldable pub trim_ascii_start : Bytes → Bytes
unfolding is_ascii_white
trim_ascii_start [] = []
trim_ascii_start (b ∷ bs) = if is_ascii_white b then trim_ascii_start bs else b ∷ bs

-- `[u8]::trim_ascii`.
unfoldable pub trim_ascii : Bytes → Bytes
unfolding trim_ascii_start
trim_ascii bs = reverse (trim_ascii_start (reverse (trim_ascii_start bs)))

-- The reader between two bytes. `eof` is not kept: the input below ends where its list ends.
pub record SseEventReader : Type 0 where
  pub line : Bytes
  pub data_lines : List Bytes

abbrev pub new_reader : SseEventReader
new_reader = record { line = []; data_lines = [] }

-- What a `data:` line adds, if it is one: its payload less one optional space.
unfoldable pub data_payload : Bytes → Option Bytes
data_payload line = elim (strip_prefix (codes "data:") line) [
  | none ↦ none
  | some payload ↦ some (get_or (strip_prefix (codes " ") payload) payload)
]

-- The line less one trailing `\r`.
unfoldable pub strip_return : Bytes → Bytes
strip_return line = get_or (strip_suffix (b'\r' ∷ []) line) line

abbrev pub push_payload : SseEventReader → Option Bytes → SseEventReader
push_payload reader none = reader
push_payload reader (some payload) = record reader {
  data_lines = reader.data_lines ++ (payload ∷ []);
}

-- `process_line`; the flag is whether the line closes an event.
unfoldable pub process_line : SseEventReader → Bytes → SseEventReader × Bool
process_line reader line =
    let line = strip_return line in
    if is_empty (trim_ascii line)
    then (reader, true)
    else if starts_with (b':' ∷ []) line
    then (reader, false)
    else (push_payload reader (data_payload line), false)

unfoldable pub take_pending_event : SseEventReader → SseEventReader × Option Bytes
take_pending_event reader =
    if is_empty reader.data_lines
    then (reader, none)
    else (record reader { data_lines = [] }, some (join (b'\n' ∷ []) reader.data_lines))

-- One byte of input: the loop of `next_event` around `read_until`, which goes on until a line is
-- complete, up to the event that the byte completes.
unfoldable pub feed : SseEventReader → ℕ → SseEventReader × Option Bytes
feed reader b =
    if b == b'\n'
    then (let (reader', closes) = process_line (record reader { line = [] }) reader.line in
        if closes then take_pending_event reader' else (reader', none))
    else (record reader { line = reader.line ++ (b ∷ []) }, none)

-- The end of the input: a last line without `\n` is processed, and a pending event is flushed.
unfoldable pub finish : SseEventReader → Option Bytes
finish reader =
    if is_empty reader.line
    then (take_pending_event reader).1
    else (take_pending_event (process_line (record reader { line = [] }) reader.line).0).1

abbrev pub cons? : Option Bytes → List Bytes → List Bytes
cons? none events = events
cons? (some event) events = event ∷ events

-- The events that the reader yields for an input, called again and again.
unfoldable pub events_from : SseEventReader → Bytes → List Bytes
events_from reader [] = cons? (finish reader) []
events_from reader (b ∷ bs) =
    let (reader', event) = feed reader b in cons? event (events_from reader' bs)

unfoldable pub data_lines_of : List Bytes → Bytes
data_lines_of [] = []
data_lines_of (line ∷ lines) = codes "data: " ++ (line ++ (b'\n' ∷ data_lines_of lines))

-- The bytes that `write_data_frame` writes.
unfoldable pub data_frame : Bytes → Bytes
unfolding data_lines_of
data_frame payload = data_lines_of (split b'\n' payload) ++ (b'\n' ∷ [])

-- The keepalive comment.
abbrev pub ping_bytes : Bytes
ping_bytes = codes ": ping\n\n"
