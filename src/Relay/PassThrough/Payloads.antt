-- ===== src/Relay/PassThrough/Payloads.antt =====
-- What `pass_through_sse_stream` of src/relay.rs writes of each event, described without its code.
use codex_proxy_rs.Base.{
  false≢true, List, [], ◌∷◌, Bytes, codes, ◌≡◌, ◌≢◌, refl, sym, subst, ◌∙◌, if◌then◌else◌, is_empty,
  ◌==◌, text_eq, ==_iff, Bool-cases, inl, inr,
}
use codex_proxy_rs.Sse.{trim_ascii, trim_ascii_start}
use codex_proxy_rs.Sse.Trim.{Pads, trim_ascii-Pads, Pads-trim_ascii}
use codex_proxy_rs.Relay.{done_marker}
use codex_proxy_rs.Relay.PassThrough.{payload_of}

-- The payloads that the loop relays of the events of a stream.
unfoldable pub relayed : List Bytes → List Bytes
relayed [] = []
relayed (event ∷ events) =
    if is_empty (payload_of event) then relayed events else payload_of event ∷ relayed events

-- The payloads that stand for the events of a stream, event by event: the bare done marker for a
-- marker with any blanks around it, nothing for an empty event, and the event itself for any other.
pub data Stands : List Bytes → List Bytes → Type 0 where
  end : Stands [] []
  marker :
      {event : Bytes} {events out : List Bytes}
      → Pads (codes "[DONE]") event
      → Stands events out
      → Stands (event ∷ events) (codes "[DONE]" ∷ out)
  empty : {events out : List Bytes} → Stands events out → Stands ([] ∷ events) out
  same :
      {event : Bytes} {events out : List Bytes}
      → ¬ Pads (codes "[DONE]") event
      → event ≢ []
      → Stands events out
      → Stands (event ∷ events) (event ∷ out)

trim-marker : (event : Bytes) → Pads (codes "[DONE]") event → trim_ascii event ≡ codes "[DONE]"
unfolding codes
trim-marker event pads =
    Pads-trim_ascii (codes "[DONE]") event (λ t. unfold trim_ascii_start in refl)
      (unfold trim_ascii_start in refl) pads

pub relayed-Stands : (events : List Bytes) → Stands events (relayed events)
unfolding relayed payload_of codes
relayed-Stands [] = end
relayed-Stands (event ∷ events) = elim (Bool-cases (trim_ascii event == done_marker)) [
  | inl is_marker ↦
      let trimmed = (==_iff (trim_ascii event) done_marker).0 is_marker in
      rw is_marker
        (marker (subst (λ s. Pads s event) trimmed (trim_ascii-Pads event)) (relayed-Stands events))
  | inr other ↦
      let unmarked = λ (pads : Pads (codes "[DONE]") event).
        false≢true
          (sym other ∙ (==_iff (trim_ascii event) done_marker).1 (trim-marker event pads)) in
      rw other (keep event unmarked (relayed-Stands events))
]
  where
    keep :
        (event : Bytes) {events : List Bytes}
        → ¬ Pads (codes "[DONE]") event
        → Stands events (relayed events)
        → Stands
            (event ∷ events)
            (if is_empty event then relayed events else event ∷ relayed events)
    keep [] unmarked rest = empty rest
    keep (b ∷ event) unmarked rest = same unmarked (λ e. cc) rest
