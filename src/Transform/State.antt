-- ===== src/Transform/State.antt =====
-- The state of the transformer of src/transform/mod.rs, and its changes that emit nothing.
use codex_proxy_rs.Base.{
  ℕ, ◌+◌, ◌%◌, ◌^◌, ◌||◌, Bool, true, false, List, [], Option, none, some, Str, codes,
  if◌then◌else◌, text_eq, lookup, insert, get_or, is_some, is_empty, trim, byte_len,
}
use codex_proxy_rs.Transform.Upstream.{
  EventEnvelope, FunctionCallItem, ReasoningItem, reasoning_item_from_output_item_done,
}

pub record SseTransformer : Type 0 where
  pub model : Str
  pub response_id : Str
  pub role_sent : Bool
  pub tool_index_by_item_id : List (Str × ℕ)
  pub tool_id_by_item_id : List (Str × Str)
  pub tool_name_by_item_id : List (Str × Str)
  pub next_tool_index : ℕ
  pub saw_tool_calls : Bool
  pub reasoning_items : ℕ
  pub reasoning_encrypted_bytes : ℕ
  pub reasoning_summary_present : Bool

-- `SSETransformer::new`.
unfoldable pub new : Str → SseTransformer
new model = record {
  model = if is_empty (trim model) then codes "gpt-5" else trim model;
  response_id = [];
  role_sent = false;
  tool_index_by_item_id = [];
  tool_id_by_item_id = [];
  tool_name_by_item_id = [];
  next_tool_index = 0;
  saw_tool_calls = false;
  reasoning_items = 0;
  reasoning_encrypted_bytes = 0;
  reasoning_summary_present = false;
}

unfoldable pub reset_response_state : SseTransformer → SseTransformer
reset_response_state t = record t {
  role_sent = false;
  tool_index_by_item_id = [];
  tool_id_by_item_id = [];
  tool_name_by_item_id = [];
  next_tool_index = 0;
  saw_tool_calls = false;
  reasoning_items = 0;
  reasoning_encrypted_bytes = 0;
  reasoning_summary_present = false;
}

-- `note_reasoning_item`; counters of `usize` wrap around at 64 bits.
abbrev pub note_item : SseTransformer → Option ReasoningItem → SseTransformer
note_item t none = t
note_item t (some item) = record t {
  reasoning_items = (t.reasoning_items + 1) % 2 ^ 64;
  reasoning_encrypted_bytes =
      (t.reasoning_encrypted_bytes + byte_len (get_or item.encrypted_content [])) % 2 ^ 64;
  reasoning_summary_present = t.reasoning_summary_present || is_some item.summary_text;
}

unfoldable pub note_reasoning_item : SseTransformer → EventEnvelope → SseTransformer
note_reasoning_item t envelope = note_item t (reasoning_item_from_output_item_done envelope)

abbrev pub index_from : SseTransformer → Str → Option ℕ → SseTransformer × ℕ
index_from t fc_id (some i) = (t, i)
index_from t fc_id none = (
  record t {
    tool_index_by_item_id = insert fc_id t.next_tool_index t.tool_index_by_item_id;
    next_tool_index = (t.next_tool_index + 1) % 2 ^ 64;
  },
  t.next_tool_index,
)

-- The index of a tool call: the one recorded for the item, or the next one, which is then recorded.
unfoldable pub tool_index : SseTransformer → Str → SseTransformer × ℕ
tool_index t fc_id = index_from t fc_id (lookup fc_id t.tool_index_by_item_id)

abbrev pub called : FunctionCallItem → Str → SseTransformer × ℕ → SseTransformer × ℕ
called item call_id (t, i) = (
  record t {
    tool_id_by_item_id = insert item.id call_id t.tool_id_by_item_id;
    tool_name_by_item_id = insert item.id item.name t.tool_name_by_item_id;
    saw_tool_calls = true;
  },
  i,
)

-- The changes that the start of a tool call makes, and the index of the call.
unfoldable pub record_tool_call : SseTransformer → FunctionCallItem → Str → SseTransformer × ℕ
unfolding tool_index
record_tool_call t item call_id = called item call_id (tool_index t item.id)
