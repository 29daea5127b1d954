-- ===== src/Transform/Openai.antt =====
-- The chunks of src/transform/openai.rs and the JSON values that they are written as.
-- An `i64` is a natural number below 2^64, in two's complement.
use codex_proxy_rs.Base.{
  ℕ, ◌+◌, ◌-◌, ◌%◌, ◌^◌, List, [], ◌∷◌, Option, none, some, Str, codes, if◌then◌else◌, get_or, ltb,
  map,
}
use codex_proxy_rs.Json.{
  pos_int, neg_int, Value, null, number, text, array, object, Fields, end, field, of_items,
}

pub record Usage : Type 0 where
  pub prompt_tokens : ℕ
  pub completion_tokens : ℕ
  pub total_tokens : ℕ
  pub cached_tokens : Option ℕ
  pub reasoning_tokens : Option ℕ

-- `Usage::with_total`; a sum of `i64` wraps around.
unfoldable pub with_total : ℕ → ℕ → Option ℕ → Usage
with_total prompt_tokens completion_tokens total = record {
  prompt_tokens = prompt_tokens;
  completion_tokens = completion_tokens;
  total_tokens = get_or total ((prompt_tokens + completion_tokens) % 2 ^ 64);
  cached_tokens = none;
  reasoning_tokens = none;
}

pub record FunctionDelta : Type 0 where
  pub name : Option Str
  pub arguments : Option Str

pub record ToolCallDelta : Type 0 where
  pub index : ℕ
  pub id : Option Str
  pub call_type : Option Str
  pub function : Option FunctionDelta

pub record ChunkDelta : Type 0 where
  pub role : Option Str
  pub content : Option Str
  pub reasoning_content : Option Str
  pub tool_calls : Option (List ToolCallDelta)

abbrev pub empty_delta : ChunkDelta
empty_delta = record { role = none; content = none; reasoning_content = none; tool_calls = none }

-- The one choice of a chunk is kept as its two fields that vary.
pub record ChatCompletionChunk : Type 0 where
  pub id : Str
  pub created : Option ℕ
  pub model : Str
  pub delta : ChunkDelta
  pub finish_reason : Option Str
  pub usage : Option Usage

-- `skip_serializing_if = "Option::is_none"`.
abbrev optional {ℓ} : {A : Type ℓ} → Str → (A → Value) → Option A → Fields → Fields
optional key write none rest = rest
optional key write (some a) rest = field key (write a) rest

abbrev or_null {ℓ} : {A : Type ℓ} → (A → Value) → Option A → Value
or_null write none = null
or_null write (some a) = write a

abbrev unsigned : ℕ → Value
unsigned n = number (pos_int n)

-- An `i64` as JSON; `neg_int n` is -(n + 1).
unfoldable pub signed : ℕ → Value
signed n = number (if ltb n (2 ^ 63) then pos_int n else neg_int ((2 ^ 64 - 1) - n))

unfoldable pub usage_value : Usage → Value
unfolding signed
usage_value u =
    let details = λ (key : Str) (n : ℕ). object (field key (signed n) end) in
    object (
      field (codes "prompt_tokens") (signed u.prompt_tokens) (
        field (codes "completion_tokens") (signed u.completion_tokens) (
          field (codes "total_tokens") (signed u.total_tokens) (
            optional (codes "prompt_tokens_details") (details (codes "cached_tokens"))
              u.cached_tokens
              (optional (codes "completion_tokens_details") (details (codes "reasoning_tokens"))
                u.reasoning_tokens end)))))

unfoldable pub function_value : FunctionDelta → Value
function_value f =
    object (optional (codes "name") text f.name (optional (codes "arguments") text f.arguments end))

unfoldable pub tool_call_value : ToolCallDelta → Value
unfolding function_value
tool_call_value t = object (
    field (codes "index") (unsigned t.index) (
      optional (codes "id") text t.id (
        optional (codes "type") text t.call_type
          (optional (codes "function") function_value t.function end))))

unfoldable pub delta_value : ChunkDelta → Value
unfolding tool_call_value
delta_value d =
    let calls = λ (ts : List ToolCallDelta). array (of_items (map tool_call_value ts)) in
    object (
      optional (codes "role") text d.role (
        optional (codes "content") text d.content (
          optional (codes "reasoning_content") text d.reasoning_content
            (optional (codes "tool_calls") calls d.tool_calls end))))

unfoldable pub chunk_value : ChatCompletionChunk → Value
unfolding delta_value usage_value
chunk_value c =
    let choice = object (
      field (codes "index") (unsigned 0) (
        field (codes "delta") (delta_value c.delta)
          (field (codes "finish_reason") (or_null text c.finish_reason) end))) in
    object (
      field (codes "id") (text c.id) (
        field (codes "object") (text (codes "chat.completion.chunk")) (
          field (codes "created") (or_null unsigned c.created) (
            field (codes "model") (text c.model) (
              field (codes "choices") (array (of_items (choice ∷ [])))
                (optional (codes "usage") usage_value c.usage end))))))
