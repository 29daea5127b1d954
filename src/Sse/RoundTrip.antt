-- ===== src/Sse/RoundTrip.antt =====
-- Reading back what `write_data_frame` of src/relay.rs has written.
use codex_proxy_rs.Base.{
  ℕ, true, false, List, [], ◌∷◌, ◌++◌, none, Bytes, ◌≡◌, ◌≢◌, refl, sym, ap, ◌∙◌, ◌==◌, nat_eq,
  text_eq, is_empty, codes, strip_prefix, join, split, cons_head, if-both, strip_suffix,
  append_assoc, append-nil, All, All-append, All-reverse, ==_ne, arith, false≢true, Bool-cases, inl,
  inr, ==_iff,
}
use mathlib.Core.List.{reverse, reverse-cons, reverse-reverse}
use codex_proxy_rs.Sse.{
  SseEventReader, new_reader, process_line, take_pending_event, feed, finish, events_from,
  data_frame, data_lines_of, trim_ascii, trim_ascii_start, is_ascii_white, data_payload,
  strip_return,
}

-- A line of a payload: it has no `\n`, and no `\r`, which the reader takes off an end.
abbrev pub IsLine : Bytes → Type 0
IsLine line = All (λ (b : ℕ). (b ≢ b'\n') × (b ≢ b'\r')) line

-- Bytes other than `\n` are gathered in `line`.
events_from_line :
    (reader : SseEventReader) (line rest : Bytes)
    → IsLine line
    → events_from reader (line ++ rest)
      ≡ events_from (record reader { line = reader.line ++ line }) rest
unfolding events_from feed
events_from_line reader [] rest h = rw append-nil
events_from_line reader (b ∷ line) rest ((n, r), h) = rw (==_ne b b'\n' n) (
    events_from_line (record reader { line = reader.line ++ (b ∷ []) }) line rest h
    ∙ rw append_assoc)

strip_prefix-return : (s : Bytes) → IsLine s → strip_prefix (b'\r' ∷ []) s ≡ none
unfolding strip_prefix
strip_prefix-return [] h = refl
strip_prefix-return (b ∷ s) ((n, r), h) = rw (==_ne b b'\r' r)

strip_return_line : (line : Bytes) → IsLine line → strip_return line ≡ line
unfolding strip_return strip_suffix
strip_return_line line h =
    rw (
      strip_prefix-return (reverse line)
        (All-reverse (λ (b : ℕ). (b ≢ b'\n') × (b ≢ b'\r')) line h))

trim_ascii_start-nil :
    (s : Bytes) → trim_ascii_start s ≡ [] → All (λ (b : ℕ). is_ascii_white b ≡ true) s
unfolding trim_ascii_start
trim_ascii_start-nil [] e = tt
trim_ascii_start-nil (b ∷ s) e = elim (Bool-cases (is_ascii_white b)) [
  | inl white ↦ (white, trim_ascii_start-nil s (rw white at e))
  | inr other ↦ cc (rw other at e)
]

is_empty-concat : (xs : Bytes) (c : ℕ) → is_empty (xs ++ (c ∷ [])) ≡ false
is_empty-concat [] c = refl
is_empty-concat (x ∷ xs) c = refl

-- Trimming a text that begins with a character that is not white leaves something.
trim_ascii-ne-nil :
    (b : ℕ) (s : Bytes) → is_ascii_white b ≡ false → is_empty (trim_ascii (b ∷ s)) ≡ false
unfolding trim_ascii trim_ascii_start
trim_ascii-ne-nil b s dark = rw dark (go (trim_ascii_start (reverse (b ∷ s))) refl)
  where
    go : (t : Bytes) → trim_ascii_start (reverse (b ∷ s)) ≡ t → is_empty (reverse t) ≡ false
    go [] e =
        let white =
          All-reverse (λ (b : ℕ). is_ascii_white b ≡ true) (reverse (b ∷ s))
            (trim_ascii_start-nil (reverse (b ∷ s)) e) in
        absurd (false≢true (sym dark ∙ (rw (reverse-reverse (b ∷ s)) at white).0))
    go (c ∷ t) e = rw (reverse-cons c t) (is_empty-concat (reverse t) c)

abbrev prefix : Bytes
prefix = codes "data: "

IsLine-prefix : (line : Bytes) → IsLine line → IsLine (prefix ++ line)
unfolding codes
IsLine-prefix line h = All-append (λ (b : ℕ). (b ≢ b'\n') × (b ≢ b'\r')) prefix line (omega arith) h

-- What the reader does with a line that `write_data_frame` has written.
process_line-prefix :
    (reader : SseEventReader) (line : Bytes)
    → IsLine line
    → process_line reader (prefix ++ line)
      ≡ (record reader { data_lines = reader.data_lines ++ (line ∷ []) }, false)
unfolding process_line
process_line-prefix reader line h =
    rw (strip_return_line (prefix ++ line) (IsLine-prefix line h))
      (rw (not_blank line) (unfold codes data_payload strip_prefix in refl))
  where
    not_blank : (line : Bytes) → is_empty (trim_ascii (prefix ++ line)) ≡ false
    not_blank line = unfold codes in trim_ascii-ne-nil b'd' _ (unfold is_ascii_white in refl)

-- The reader at the start of a line, with the payloads read so far.
abbrev at_line : List Bytes → SseEventReader
at_line lines = record { line = []; data_lines = lines }

read_data_line :
    (lines : List Bytes) (line rest : Bytes)
    → IsLine line
    → events_from (at_line lines) (prefix ++ (line ++ (b'\n' ∷ rest)))
      ≡ events_from (at_line (lines ++ (line ∷ []))) rest
read_data_line lines line rest h =
    ap (events_from (at_line lines)) (sym (append_assoc prefix line (b'\n' ∷ rest)))
    ∙ events_from_line (at_line lines) (prefix ++ line) (b'\n' ∷ rest) (IsLine-prefix line h)
    ∙ closed
  where
    closed :
        events_from (record { line = prefix ++ line; data_lines = lines }) (b'\n' ∷ rest)
        ≡ events_from (at_line (lines ++ (line ∷ []))) rest
    closed = unfold events_from feed in rw (process_line-prefix (at_line lines) line h)

read_data_lines :
    (new lines : List Bytes) (rest : Bytes)
    → All IsLine new
    → events_from (at_line lines) (data_lines_of new ++ rest)
      ≡ events_from (at_line (lines ++ new)) rest
unfolding data_lines_of
read_data_lines [] lines rest h = rw append-nil
read_data_lines (line ∷ new) lines rest (k, h) =
    ap (events_from (at_line lines))
      (append_assoc prefix _ rest ∙ ap (λ s. prefix ++ s) (append_assoc line _ rest))
    ∙ read_data_line lines line (data_lines_of new ++ rest) k
    ∙ read_data_lines new (lines ++ (line ∷ [])) rest h
    ∙ rw append_assoc

-- The blank line closes the event.
read_blank :
    (line : Bytes) (lines : List Bytes) (rest : Bytes)
    → events_from (at_line (line ∷ lines)) (b'\n' ∷ rest)
      ≡ join (b'\n' ∷ []) (line ∷ lines) ∷ events_from new_reader rest
unfolding events_from feed process_line take_pending_event strip_return strip_suffix strip_prefix
    trim_ascii trim_ascii_start
read_blank line lines rest = refl

join-cons_head :
    (c : ℕ) (parts : List Bytes)
    → is_empty parts ≡ false
    → join (b'\n' ∷ []) (cons_head c parts) ≡ c ∷ join (b'\n' ∷ []) parts
unfolding join
join-cons_head c [] h = cc
join-cons_head c (p ∷ []) h = refl
join-cons_head c (p ∷ q ∷ parts) h = refl

is_empty-cons_head : (c : ℕ) (parts : List Bytes) → is_empty (cons_head c parts) ≡ false
is_empty-cons_head c [] = refl
is_empty-cons_head c (p ∷ parts) = refl

is_empty-split : (payload : Bytes) → is_empty (split b'\n' payload) ≡ false
unfolding split
is_empty-split [] = refl
is_empty-split (c ∷ payload) =
    if-both (λ (parts : List Bytes). is_empty parts ≡ false) (c == b'\n') refl
      (is_empty-cons_head c (split b'\n' payload))

join-nil_cons :
    (parts : List Bytes)
    → is_empty parts ≡ false
    → join (b'\n' ∷ []) ([] ∷ parts) ≡ b'\n' ∷ join (b'\n' ∷ []) parts
unfolding join
join-nil_cons [] h = cc
join-nil_cons (p ∷ parts) h = refl

join-split : (payload : Bytes) → join (b'\n' ∷ []) (split b'\n' payload) ≡ payload
unfolding split
join-split [] = unfold join in refl
join-split (c ∷ payload) = elim (Bool-cases (c == b'\n')) [
  | inl same ↦ rw same (
      join-nil_cons _ (is_empty-split payload)
      ∙ ap (λ s. b'\n' ∷ s) (join-split payload)
      ∙ ap (λ b. b ∷ payload) (sym ((==_iff c b'\n').0 same)))
  | inr other ↦
      rw other (join-cons_head c _ (is_empty-split payload) ∙ ap (λ s. c ∷ s) (join-split payload))
]

-- The payloads that the reader gives back: those without `\r`.
abbrev pub HasNoReturn : Bytes → Type 0
HasNoReturn payload = All (λ (b : ℕ). b ≢ b'\r') payload

IsLine-cons_head :
    (c : ℕ) (parts : List Bytes)
    → c ≢ b'\n'
    → c ≢ b'\r'
    → All IsLine parts
    → All IsLine (cons_head c parts)
IsLine-cons_head c [] n r h = (((n, r), tt), tt)
IsLine-cons_head c (p ∷ parts) n r (k, h) = (((n, r), k), h)

IsLine-split : (payload : Bytes) → HasNoReturn payload → All IsLine (split b'\n' payload)
unfolding split
IsLine-split [] h = (tt, tt)
IsLine-split (c ∷ payload) (r, h) = elim (Bool-cases (c == b'\n')) [
  | inl same ↦ rw same (tt, IsLine-split payload h)
  | inr other ↦ rw other (
      IsLine-cons_head c _ (λ e. false≢true (sym other ∙ (==_iff c b'\n').1 e)) r
        (IsLine-split payload h))
]

-- A frame that `write_data_frame` has written is read back as one event with the same payload,
-- whatever follows it, if the payload holds no carriage return. Line feeds in it are kept.
pub events_from-data_frame :
    (payload rest : Bytes)
    → HasNoReturn payload
    → events_from new_reader (data_frame payload ++ rest) ≡ payload ∷ events_from new_reader rest
unfolding data_frame
events_from-data_frame payload rest h =
    ap (events_from new_reader)
      (append_assoc (data_lines_of (split b'\n' payload)) (b'\n' ∷ []) rest)
    ∙ read_data_lines (split b'\n' payload) [] (b'\n' ∷ rest) (IsLine-split payload h)
    ∙ closed (split b'\n' payload) refl
  where
    closed :
        (lines : List Bytes)
        → split b'\n' payload ≡ lines
        → events_from (at_line lines) (b'\n' ∷ rest) ≡ payload ∷ events_from new_reader rest
    closed [] e = absurd (false≢true (sym (is_empty-split payload) ∙ ap is_empty e))
    closed (line ∷ lines) e =
        read_blank line lines rest
        ∙ ap (λ p. p ∷ events_from new_reader rest)
            (ap (join (b'\n' ∷ [])) (sym e) ∙ join-split payload)

pub frames : List Bytes → Bytes
frames [] = []
frames (payload ∷ payloads) = data_frame payload ++ frames payloads

-- A whole stream of frames is read back as the list of its payloads: nothing is lost, merged,
-- split or added.
pub events_from-frames :
    (payloads : List Bytes)
    → All HasNoReturn payloads
    → events_from new_reader (frames payloads) ≡ payloads
unfolding frames
events_from-frames [] h = unfold events_from finish take_pending_event in refl
events_from-frames (payload ∷ payloads) (k, h) =
    events_from-data_frame payload (frames payloads) k
    ∙ ap (λ s. payload ∷ s) (events_from-frames payloads h)
