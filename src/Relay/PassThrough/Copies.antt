-- ===== src/Relay/PassThrough/Copies.antt =====
-- What `pass_through_sse_stream` of src/relay.rs writes to a client that stays.
use codex_proxy_rs.Base.{
  ℕ, List, [], ◌∷◌, ◌++◌, Option, none, some, Bytes, ◌≡◌, refl, sym, ap, subst, ◌∙◌, is_empty,
  append_assoc, append-nil, Bool-cases, inl, inr,
}
use codex_proxy_rs.Sse.{SseEventReader, new_reader, feed, finish, cons?, events_from}
use codex_proxy_rs.Relay.{Item, byte, wait, broken, Write, ping, frame, write, Ended, is_due}
use codex_proxy_rs.Relay.PassThrough.Payloads.{relayed, Stands, relayed-Stands}
use codex_proxy_rs.Relay.PassThrough.{
  Copier, Progress, go, after_write, payload_of, copy, keep_alive, advance, at_close, copy_all,
  pass_through_sse_stream,
}

-- The payloads of the frames among the writes.
pub payloads : List Write → List Bytes
payloads [] = []
payloads (ping ∷ writes) = payloads writes
payloads (frame payload ∷ writes) = payload ∷ payloads writes

-- The bytes of an input, and that no read of it fails.
pub read_bytes : List Item → Bytes
read_bytes [] = []
read_bytes (byte b ∷ input) = b ∷ read_bytes input
read_bytes (wait now ∷ input) = read_bytes input
read_bytes (broken e ∷ input) = read_bytes input

abbrev pub IsUnbroken : List Item → Type 0
IsUnbroken [] = Unit {0}
IsUnbroken (byte b ∷ input) = IsUnbroken input
IsUnbroken (wait now ∷ input) = IsUnbroken input
IsUnbroken (broken e ∷ input) = ⊥

payloads-append :
    (before after : List Write) → payloads (before ++ after) ≡ payloads before ++ payloads after
unfolding payloads
payloads-append [] after = refl
payloads-append (ping ∷ before) after = payloads-append before after
payloads-append (frame payload ∷ before) after =
    ap (λ xs. payload ∷ xs) (payloads-append before after)

relayed-cons :
    (o : Option Bytes) (events : List Bytes)
    → relayed (cons? o events) ≡ relayed (cons? o []) ++ relayed events
unfolding relayed
relayed-cons none events = refl
relayed-cons (some event) events = elim (Bool-cases (is_empty (payload_of event))) [
  | inl empty ↦ rw empty refl
  | inr full ↦ rw full refl
]

-- A state that goes on, to a client that stays, after more payloads.
record GoesOn (before : Copier) (reader : SseEventReader) (more : List Bytes) (p : Progress)
    : Type 0 where
  next : Copier
  goes : p ≡ go next
  reads : next.reader ≡ reader
  stays : next.sink.room ≡ none
  wrote : payloads next.sink.out ≡ payloads before.sink.out ++ more

write-GoesOn :
    (before r : Copier) (w : Write)
    → r.sink.room ≡ none
    → r.sink.out ≡ before.sink.out
    → GoesOn before r.reader (payloads (w ∷ [])) (after_write r (write r.sink w))
unfolding write
write-GoesOn before r w e same = rw e (record {
  next = record r {
    sink = record { out = r.sink.out ++ (w ∷ []); room = none };
    last_write = r.now;
  };
  goes = refl;
  reads = refl;
  stays = refl;
  wrote = rw same (payloads-append before.sink.out (w ∷ []));
})

idle-GoesOn :
    (before r : Copier)
    → r.sink.room ≡ none
    → r.sink.out ≡ before.sink.out
    → GoesOn before r.reader [] (go r)
idle-GoesOn before r e same = record {
  next = r;
  goes = refl;
  reads = refl;
  stays = e;
  wrote = rw same (sym (append-nil _));
}

copy-GoesOn :
    (before r : Copier) (o : Option Bytes)
    → r.sink.room ≡ none
    → r.sink.out ≡ before.sink.out
    → GoesOn before r.reader (relayed (cons? o [])) (copy r o)
unfolding copy relayed payloads
copy-GoesOn before r none e same = idle-GoesOn before r e same
copy-GoesOn before r (some event) e same = elim (Bool-cases (is_empty (payload_of event))) [
  | inl empty ↦ rw empty (idle-GoesOn before r e same)
  | inr full ↦ rw full (write-GoesOn before r (frame (payload_of event)) e same)
]

keep_alive-GoesOn :
    (interval : ℕ) (r : Copier) (now : ℕ)
    → r.sink.room ≡ none
    → GoesOn r r.reader [] (keep_alive interval r now)
unfolding keep_alive payloads
keep_alive-GoesOn interval r now e = elim (Bool-cases (is_due interval r.last_write now)) [
  | inl due ↦ rw due (write-GoesOn r (record r { now = now }) ping e refl)
  | inr early ↦ rw early (idle-GoesOn r (record r { now = now }) e refl)
]

-- How the loop ends, and the payloads written by then.
record Copied (before : Copier) (events : List Bytes) (e : Ended) : Type 0 where
  finishes : e.error ≡ none
  wrote : payloads e.sink.out ≡ payloads before.sink.out ++ relayed events

-- The rest of the input after a state that goes on.
resume :
    (before : Copier) (reader : SseEventReader) (more : List Bytes) (p : Progress) (bytes : Bytes)
    (events : List Bytes) (e : Ended) (g : GoesOn before reader more p)
    → relayed events ≡ more ++ relayed (events_from reader bytes)
    → Copied g.next (events_from g.next.reader bytes) e
    → Copied before events e
resume before reader more p bytes events e g split c = record {
  finishes = c.finishes;
  wrote =
      c.wrote
      ∙ (ap (λ xs. xs ++ relayed (events_from g.next.reader bytes)) g.wrote
          ∙ (append_assoc (payloads before.sink.out) more _
              ∙ ap (λ xs. payloads before.sink.out ++ xs)
                  (ap (λ q. more ++ relayed (events_from q bytes)) g.reads ∙ sym split)));
}

copy_all-Copied :
    (interval : ℕ) (r : Copier) (input : List Item)
    → IsUnbroken input
    → r.sink.room ≡ none
    → Copied r (events_from r.reader (read_bytes input)) (copy_all interval (go r) input)
unfolding copy_all advance read_bytes events_from
copy_all-Copied interval r [] h e =
    let g = copy-GoesOn r r (finish r.reader) e refl in
    subst (λ p. Copied r (cons? (finish r.reader) []) (at_close p)) (sym g.goes)
      (record { finishes = refl; wrote = g.wrote })
copy_all-Copied interval r (byte b ∷ input) h e =
    let reader = (feed r.reader b).0 in
    let event = (feed r.reader b).1 in
    let g = copy-GoesOn r (record r { reader = reader }) event e refl in
    let rest = events_from reader (read_bytes input) in
    subst (λ p. Copied r (cons? event rest) (copy_all interval p input)) (sym g.goes)
      (resume r reader _ _ (read_bytes input) (cons? event rest) _ g (relayed-cons event rest)
        (copy_all-Copied interval g.next input h g.stays))
copy_all-Copied interval r (wait now ∷ input) h e =
    let g = keep_alive-GoesOn interval r now e in
    let rest = events_from r.reader (read_bytes input) in
    subst (λ p. Copied r rest (copy_all interval p input)) (sym g.goes)
      (resume r r.reader _ _ (read_bytes input) rest _ g refl
        (copy_all-Copied interval g.next input h g.stays))
copy_all-Copied interval r (broken x ∷ input) h e = absurd h

-- For an upstream that no read error breaks, and a client that stays, the relay ends well, and the
-- payloads it has written are, in order, those that stand for the events that the reader yields for
-- the bytes: the bare done marker for a marker padded with blanks, nothing for an empty event, and
-- any other event unchanged. Nothing is injected, and the keepalives do not change them.
pub pass_through_sse_stream-relayed :
    (interval start : ℕ) (input : List Item)
    → IsUnbroken input
    → let ended = pass_through_sse_stream interval (record { out = []; room = none }) start input in
      (ended.error ≡ none)
      × Stands (events_from new_reader (read_bytes input)) (payloads ended.sink.out)
unfolding pass_through_sse_stream payloads
pass_through_sse_stream-relayed interval start input h =
    let events = events_from new_reader (read_bytes input) in
    let c =
      copy_all-Copied interval
        (record {
          reader = new_reader;
          last_write = start;
          now = start;
          sink = record { out = []; room = none };
        })
        input h refl in
    (c.finishes, subst (Stands events) (sym c.wrote) (relayed-Stands events))
