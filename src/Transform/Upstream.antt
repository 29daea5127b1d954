-- ===== src/Transform/Upstream.antt =====
-- The events of the upstream: src/transform/upstream.rs. Each payload is decoded from a JSON value
-- as the derived `Deserialize` does: a nested struct is read from an object by name, or from an
-- array by position, and a missing field takes its default.
use codex_proxy_rs.Base.{
  ℕ, ◌-◌, ◌^◌, ◌||◌, not, Bool, true, false, List, [], ◌∷◌, Option, none, some, Str, codes,
  if◌then◌else◌, ◌==◌, text_eq, lookup, get_or, ltb, leb, length, get_elem?, filter, is_some,
  is_empty,
}
use codex_proxy_rs.Json.{
  Value, null, number, array, object, pos_int, neg_int, fields, of_fields, items, get, get_str,
  as_str, as_object, as_array, as_u64, ◌>>=◌,
}
use codex_proxy_rs.Transform.Openai.{Usage, with_total}

pub record EventEnvelope : Type 0 where
  pub event_type : Str
  pub sequence_number : Option ℕ
  pub extra : Value

-- The value of a field with a default: missing, or decoded.
abbrev pub field_or {ℓ} : {A : Type ℓ} → A → (Value → Option A) → Option Value → Option A
field_or default decode none = some default
field_or default decode (some v) = decode v

-- An `Option` field: `null` is `None`.
abbrev nullable {ℓ} : {A : Type ℓ} → (Value → Option A) → Value → Option (Option A)
nullable decode null = some none
nullable decode v = decode v >>= λ a. some (some a)

abbrev optional {ℓ} : {A : Type ℓ} → (Value → Option A) → Option Value → Option (Option A)
optional decode v = field_or none (nullable decode) v

-- `u64`.
abbrev unsigned : Value → Option ℕ
unsigned v = as_u64 v

-- `i64`, in two's complement; `neg_int n` is -(n + 1).
unfoldable pub signed : Value → Option ℕ
signed (number (pos_int n)) = if ltb n (2 ^ 63) then some n else none
signed (number (neg_int n)) = if ltb n (2 ^ 63) then some ((2 ^ 64 - 1) - n) else none
signed _ = none

-- A nested struct of `n` fields can be read from this value at all.
unfoldable pub is_struct : ℕ → Value → Bool
is_struct n (object fs) = true
is_struct n (array vs) = leb (length (items vs)) n
is_struct n _ = false

-- The value given for one field of a nested struct, by its name or by its position.
unfoldable pub member : Str → ℕ → Value → Option Value
member name i (object fs) = lookup name (fields fs)
member name i (array vs) = get_elem? (items vs) i
member name i _ = none

abbrev in_struct {ℓ} : {A : Type ℓ} → ℕ → Value → Option A → Option A
in_struct n v decoded = if is_struct n v then decoded else none

-- The envelope takes two fields and leaves the others, flattened, in `extra`.
unfoldable pub envelope_of : Value → Option EventEnvelope
envelope_of (object fs) = do
  event_type ← get_str (codes "type") (object fs)
  sequence_number ← optional unsigned (lookup (codes "sequence_number") (fields fs))
  let is_extra = λ (f : Str × Value). not (f.0 == codes "type" || f.0 == codes "sequence_number")
  some (record {
    event_type = event_type;
    sequence_number = sequence_number;
    extra = object (of_fields (filter is_extra (fields fs)));
  })
envelope_of _ = none

-- `CreatedPayload`, as `response.id`.
unfoldable pub created_id : Value → Option Str
unfolding is_struct member
created_id extra =
    field_or [] (λ v. in_struct 1 v (field_or [] as_str (member (codes "id") 0 v)))
      (get (codes "response") extra)

-- `OutputTextDeltaPayload`, as `delta`.
unfoldable pub text_delta : Value → Option Str
text_delta extra = field_or [] as_str (get (codes "delta") extra)

pub record UpstreamUsage : Type 0 where
  pub prompt_tokens : Option ℕ
  pub completion_tokens : Option ℕ
  pub total_tokens : Option ℕ
  pub input_tokens : Option ℕ
  pub output_tokens : Option ℕ
  pub input_cached : Option (Option ℕ)
  pub prompt_cached : Option (Option ℕ)
  pub output_reasoning : Option (Option ℕ)
  pub completion_reasoning : Option (Option ℕ)

-- `UpstreamInputDetails` and `UpstreamOutputDetails`, each a struct of one count.
abbrev details : Str → Value → Option (Option ℕ)
details name v = in_struct 1 v (optional signed (member name 0 v))

unfoldable pub usage_of : Value → Option UpstreamUsage
unfolding is_struct member signed
usage_of v = in_struct 9 v (do
  prompt_tokens ← optional signed (member (codes "prompt_tokens") 0 v)
  completion_tokens ← optional signed (member (codes "completion_tokens") 1 v)
  total_tokens ← optional signed (member (codes "total_tokens") 2 v)
  input_tokens ← optional signed (member (codes "input_tokens") 3 v)
  output_tokens ← optional signed (member (codes "output_tokens") 4 v)
  input_cached ←
      optional (details (codes "cached_tokens")) (member (codes "input_tokens_details") 5 v)
  prompt_cached ←
      optional (details (codes "cached_tokens")) (member (codes "prompt_tokens_details") 6 v)
  output_reasoning ←
      optional (details (codes "reasoning_tokens")) (member (codes "output_tokens_details") 7 v)
  completion_reasoning ←
      optional (details (codes "reasoning_tokens")) (member (codes "completion_tokens_details") 8 v)
  some (record {
    prompt_tokens = prompt_tokens;
    completion_tokens = completion_tokens;
    total_tokens = total_tokens;
    input_tokens = input_tokens;
    output_tokens = output_tokens;
    input_cached = input_cached;
    prompt_cached = prompt_cached;
    output_reasoning = output_reasoning;
    completion_reasoning = completion_reasoning;
  }))

-- `CompletedPayload`, as `response.usage`.
unfoldable pub completed_usage : Value → Option (Option UpstreamUsage)
unfolding is_struct member
completed_usage extra =
    field_or none (λ v. in_struct 1 v (optional usage_of (member (codes "usage") 0 v)))
      (get (codes "response") extra)

abbrev or_else {ℓ} : {A : Type ℓ} → Option A → Option A → Option A
or_else none other = other
or_else (some a) other = some a

-- `to_openai`.
unfoldable pub to_openai : UpstreamUsage → Usage
to_openai u =
    let pt = get_or (or_else u.prompt_tokens u.input_tokens) 0 in
    let ct = get_or (or_else u.completion_tokens u.output_tokens) 0 in
    record (with_total pt ct u.total_tokens) {
      cached_tokens = or_else (get_or u.prompt_cached none) (get_or u.input_cached none);
      reasoning_tokens =
          or_else (get_or u.completion_reasoning none) (get_or u.output_reasoning none);
    }

pub record FunctionCallItem : Type 0 where
  pub id : Str
  pub call_id : Str
  pub name : Str
  pub item_type : Str

abbrev item_of : Value → Option FunctionCallItem
item_of v = in_struct 4 v (do
  id ← field_or [] as_str (member (codes "id") 0 v)
  call_id ← field_or [] as_str (member (codes "call_id") 1 v)
  name ← field_or [] as_str (member (codes "name") 2 v)
  item_type ← field_or [] as_str (member (codes "type") 3 v)
  some (record { id = id; call_id = call_id; name = name; item_type = item_type }))

-- `OutputItemAddedPayload`, as `item`.
unfoldable pub added_item : Value → Option (Option FunctionCallItem)
unfolding is_struct member
added_item extra = optional item_of (get (codes "item") extra)

-- `FunctionCallArgsDeltaPayload`, as `item_id` and `delta`.
unfoldable pub args_delta : Value → Option (Str × Str)
args_delta extra = do
  item_id ← field_or [] as_str (get (codes "item_id") extra)
  delta ← field_or [] as_str (get (codes "delta") extra)
  some (item_id, delta)

-- A text that is not empty.
abbrev non_empty : Option Str → Option Str
non_empty o = o >>= λ s. if is_empty s then none else some s

unfoldable pub first_text : List Value → Option Str
first_text [] = none
first_text (entry ∷ entries) =
    or_else (non_empty (as_object entry >>= get_str (codes "text"))) (first_text entries)

-- `extract_summary_text`.
unfoldable pub extract_summary_text : Option Value → Option Str
unfolding first_text
extract_summary_text summary = do value ← summary; arr ← as_array value; first_text arr

-- The tests of `extract_reasoning_content` on `item`: `some r` where they decide the result.
abbrev item_reasoning : Option Value → Option (Option Str)
item_reasoning none = none
item_reasoning (some item) =
    if is_some (get_str (codes "encrypted_content") item)
    then some none
    else elim (extract_summary_text (get (codes "summary") item)) [
      | none ↦ none
      | some t ↦ some (some t)
    ]

unfoldable pub extract_reasoning_content : Value → Option Str
unfolding extract_summary_text
extract_reasoning_content extra = or_else (non_empty (get_str (codes "delta") extra)) (
    or_else (non_empty (get_str (codes "text") extra)) (
      or_else (non_empty (get (codes "part") extra >>= as_object >>= get_str (codes "text"))) (
        get_or (item_reasoning (get (codes "item") extra >>= as_object))
          (extract_summary_text (get (codes "summary") extra)))))

unfoldable pub output_index : Value → Option ℕ
output_index extra = get (codes "output_index") extra >>= as_u64

pub record ReasoningItem : Type 0 where
  pub id : Option Str
  pub encrypted_content : Option Str
  pub summary_text : Option Str

unfoldable pub reasoning_item_from_output_item_done : EventEnvelope → Option ReasoningItem
unfolding extract_summary_text
reasoning_item_from_output_item_done envelope =
    if not (envelope.event_type == codes "response.output_item.done") then none else do
      item ← get (codes "item") envelope.extra >>= as_object
      if get_or (get_str (codes "type") item) [] == codes "reasoning"
          then some (record {
            id = non_empty (get_str (codes "id") item);
            encrypted_content = non_empty (get_str (codes "encrypted_content") item);
            summary_text = extract_summary_text (get (codes "summary") item);
          })
          else none
