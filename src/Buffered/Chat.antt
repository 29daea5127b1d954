-- ===== src/Buffered/Chat.antt =====
-- `buffer_chat_completion` of src/buffered.rs: the chunks of a stream collected into one completion.
pub mod Totals
use codex_proxy_rs.Base.{
  ℕ, Bool, true, false, not, ◌&&◌, List, [], ◌∷◌, ◌++◌, map, Option, none, some, Str, Bytes, codes,
  if◌then◌else◌, ◌==◌, nat_eq, is_empty, is_some, get_or, ltb, ℤ, pos, is_zero,
}
use codex_proxy_rs.Json.{
  Value, int_value, number, pos_int, text, array, object, of_items, of_fields,
}
use codex_proxy_rs.Http.{Input}
use codex_proxy_rs.Sse.{new_reader}
use codex_proxy_rs.Relay.{
  TransformError, Transformed, emitted, swallowed, done, failed, StreamTransformer,
}
use codex_proxy_rs.Buffered.{Buffered, ok, err, BufferError, read, transform, events_of}

pub record FunctionDelta : Type 0 where
  pub name : Option Str
  pub arguments : Option Str

pub record ToolCallDelta : Type 0 where
  pub index : ℕ
  pub id : Option Str
  pub call_type : Option Str
  pub function : Option FunctionDelta

pub record StreamingDelta : Type 0 where
  pub role : Option Str
  pub content : Option Str
  pub reasoning_content : Option Str
  pub tool_calls : Option (List ToolCallDelta)

pub record StreamingChoice : Type 0 where
  pub delta : StreamingDelta
  pub finish_reason : Option Str

pub record StreamingChunk : Type 0 where
  pub id : Str
  pub created : ℤ
  pub model : Str
  pub choices : List StreamingChoice
  pub usage : Option Value

pub record ToolCallAccumulator : Type 0 where
  pub id : Str
  pub name : Str
  pub arguments : Str

-- A `BTreeMap`, in the order of its keys.
abbrev pub ToolCalls : Type 0
ToolCalls = List (ℕ × ToolCallAccumulator)

-- The local variables of the loop.
pub record Collected : Type 0 where
  pub response_id : Str
  pub stream_model : Str
  pub created : ℤ
  pub role : Str
  pub content : Str
  pub reasoning_content : Str
  pub finish_reason : Str
  pub tool_calls : ToolCalls
  pub usage : Option Value

abbrev pub nothing_collected : Collected
nothing_collected = record {
  response_id = [];
  stream_model = [];
  created = pos 0;
  role = [];
  content = [];
  reasoning_content = [];
  finish_reason = [];
  tool_calls = [];
  usage = none;
}

-- The first text that is not empty wins.
abbrev pub keep_first : Str → Str → Str
keep_first kept next = if is_empty kept then next else kept

-- The last text that is not empty wins.
abbrev pub keep_last : Str → Option Str → Str
keep_last kept none = kept
keep_last kept (some next) = if is_empty next then kept else next

-- `push_str` where there is something to push.
abbrev pub push_some : Str → Option Str → Str
push_some s none = s
push_some s (some more) = s ++ more

abbrev pub with_function : ToolCallAccumulator → Option FunctionDelta → ToolCallAccumulator
with_function acc none = acc
with_function acc (some func) = record acc {
  name = keep_last acc.name func.name;
  arguments = push_some acc.arguments func.arguments;
}

abbrev pub with_call : ToolCallAccumulator → ToolCallDelta → ToolCallAccumulator
with_call acc tc = with_function (record acc { id = keep_last acc.id tc.id }) tc.function

abbrev pub default_call : ToolCallAccumulator
default_call = record { id = []; name = []; arguments = [] }

-- `entry(index).or_default()`, changed by the delta.
unfoldable pub absorb_call : ToolCalls → ToolCallDelta → ToolCalls
absorb_call [] tc = (tc.index, with_call default_call tc) ∷ []
absorb_call (entry ∷ entries) tc =
    let later = absorb_call entries tc in
    if entry.0 == tc.index
    then (entry.0, with_call entry.1 tc) ∷ entries
    else if ltb tc.index entry.0
    then (tc.index, with_call default_call tc) ∷ entry ∷ entries
    else entry ∷ later

unfoldable pub absorb_calls : ToolCalls → List ToolCallDelta → ToolCalls
unfolding absorb_call
absorb_calls calls [] = calls
absorb_calls calls (tc ∷ tcs) = absorb_calls (absorb_call calls tc) tcs

unfoldable pub absorb_choice : Collected → StreamingChoice → Collected
unfolding absorb_calls
absorb_choice c choice = record c {
  role = keep_first c.role (get_or choice.delta.role []);
  content = push_some c.content choice.delta.content;
  reasoning_content = push_some c.reasoning_content choice.delta.reasoning_content;
  finish_reason = keep_last c.finish_reason choice.finish_reason;
  tool_calls = absorb_calls c.tool_calls (get_or choice.delta.tool_calls []);
}

unfoldable pub absorb_choices : Collected → List StreamingChoice → Collected
unfolding absorb_choice
absorb_choices c [] = c
absorb_choices c (choice ∷ choices) = absorb_choices (absorb_choice c choice) choices

unfoldable pub absorb_chunk : Collected → StreamingChunk → Collected
unfolding absorb_choices
absorb_chunk c chunk =
    absorb_choices
      (record c {
        response_id = keep_first c.response_id chunk.id;
        stream_model = keep_first c.stream_model chunk.model;
        created = if is_zero c.created then chunk.created else c.created;
        usage = if is_some chunk.usage then chunk.usage else c.usage;
      })
      chunk.choices

-- The frames of one event; those that are no chunks are skipped. `chunk_of` is the derived code
-- that reads a chunk.
unfoldable pub absorb_frames : (Bytes → Option StreamingChunk) → Collected → List Bytes → Collected
unfolding absorb_chunk
absorb_frames chunk_of c [] = c
absorb_frames chunk_of c (frame ∷ frames) = elim (chunk_of frame) [
  | none ↦ absorb_frames chunk_of c frames
  | some chunk ↦ absorb_frames chunk_of (absorb_chunk c chunk) frames
]

abbrev pub call_value : ℕ × ToolCallAccumulator → Value
call_value entry = object (
    of_fields (
      (codes "id", text entry.1.id)
      ∷ (codes "type", text (codes "function"))
      ∷ (
        codes "function",
        object (
            of_fields (
              (codes "name", text entry.1.name)
              ∷ (codes "arguments", text entry.1.arguments)
              ∷ [])),
      )
      ∷ []))

abbrev pub calls_entry : ToolCalls → List (Str × Value)
calls_entry [] = []
calls_entry (entry ∷ entries) =
    (codes "tool_calls", array (of_items (map call_value (entry ∷ entries)))) ∷ []

abbrev pub reasoning_entry : Str → List (Str × Value)
reasoning_entry [] = []
reasoning_entry (c ∷ s) = (codes "reasoning_content", text (c ∷ s)) ∷ []

unfoldable pub message_value : Collected → Value
message_value c = object (
    of_fields (
      (codes "role", text (keep_first c.role (codes "assistant")))
      ∷ (codes "content", text c.content)
      ∷ (calls_entry c.tool_calls ++ reasoning_entry c.reasoning_content)))

abbrev pub usage_entry : Option Value → List (Str × Value)
usage_entry none = []
usage_entry (some usage) = (codes "usage", usage) ∷ []

-- The completion, with `now` seconds for a stream that gives no time.
unfoldable pub completion : Str → ℕ → Collected → Value
unfolding message_value
completion model now c = object (
    of_fields (
      (codes "id", text (keep_first c.response_id (codes "chatcmpl-buffered")))
      ∷ (codes "object", text (codes "chat.completion"))
      ∷ (codes "created", int_value (if is_zero c.created then pos now else c.created))
      ∷ (codes "model", text (keep_first c.stream_model model))
      ∷ (
        codes "choices",
        array (
            of_items (
              object (
                of_fields (
                  (codes "index", number (pos_int 0))
                  ∷ (codes "message", message_value c)
                  ∷ (codes "finish_reason", text (keep_first c.finish_reason (codes "stop")))
                  ∷ []))
              ∷ [])),
      )
      ∷ usage_entry c.usage))

module _ {T : Type 0} (transformer : StreamTransformer T) (chunk_of : Bytes → Option StreamingChunk)
    (model : Str) (now : ℕ) where
  -- The loop over the events.
  unfoldable pub collect : T → Collected → List Bytes → Option Str → Buffered
  unfolding absorb_frames completion
  collect t c [] (some e) = err (read e)
  collect t c [] none = ok (completion model now c)
  collect t c (event ∷ events) broken = elim (transformer.transform t event).1 [
    | failed e ↦ err (transform e)
    | emitted frames ↦
        collect (transformer.transform t event).0 (absorb_frames chunk_of c frames) events broken
    | swallowed ↦ collect (transformer.transform t event).0 c events broken
    | done ↦ collect (transformer.transform t event).0 c events broken
  ]

  unfoldable pub buffer_chat_completion : Input → Buffered
  unfolding collect events_of
  buffer_chat_completion input =
      collect transformer.initial nothing_collected (events_of new_reader input.bytes input.broken)
        input.broken
