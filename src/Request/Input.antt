-- ===== src/Request/Input.antt =====
-- Messages and tools of a chat request as the upstream's input: src/request.rs.
use codex_proxy_rs.Base.{
  Bool, true, false, not, ◌&&◌, List, [], ◌∷◌, ◌++◌, Option, none, some, Str, codes, if◌then◌else◌,
  is_empty, trim, get_or, ◌==◌, text_eq, join, map,
}
use codex_proxy_rs.Json.{
  Value, null, boolean, text, array, object, of_fields, of_items, items, get, get_str, as_object,
  as_array, ◌>>=◌,
}
use codex_proxy_rs.Conversation.{replace_names, extract_instructions, item_text}

-- An object with these fields.
abbrev pub object_of : List (Str × Value) → Value
object_of fs = object (of_fields fs)

-- A content part with a text.
abbrev pub text_part : Str → Str → Value
text_part kind t = object_of ((codes "type", text kind) ∷ (codes "text", text t) ∷ [])

abbrev pub message : Value → Str → Str → List Str → Value
message id role kind texts = object_of (
    (codes "type", text (codes "message"))
    ∷ (codes "id", id)
    ∷ (codes "role", text role)
    ∷ (codes "content", array (of_items (map (text_part kind) texts)))
    ∷ [])

abbrev pub developer_message : Str → Value
developer_message t = message null (codes "developer") (codes "input_text") (t ∷ [])

-- The texts of a list of items that are not empty.
unfoldable pub plain_texts : List Value → List Str
plain_texts [] = []
plain_texts (item ∷ rest) =
    let texts = plain_texts rest in
    elim (item_text item) [ none ↦ texts | some t ↦ if is_empty t then texts else t ∷ texts ]

abbrev pub maybe_replace : Bool → Str → Str
maybe_replace apply_replace t = if apply_replace then replace_names t else t

unfoldable pub collect_text_segments : Option Value → Bool → List Str
unfolding plain_texts
collect_text_segments (some (text t)) apply_replace =
    if is_empty (trim t) then [] else maybe_replace apply_replace (trim t) ∷ []
collect_text_segments (some (array vs)) apply_replace =
    map (maybe_replace apply_replace) (plain_texts (items vs))
collect_text_segments _ apply_replace = []

-- One tool, if it is a function.
unfoldable pub codex_tool : Value → Option Value
codex_tool tool = do
  tm ← as_object tool
  kind ← get_str (codes "type") tm
  func ← get (codes "function") tm >>= as_object
  if kind == codes "function"
      then some (
          object_of (
            (codes "type", text (codes "function"))
            ∷ (codes "name", text (get_or (get_str (codes "name") func) []))
            ∷ (codes "description", text (get_or (get_str (codes "description") func) []))
            ∷ (codes "strict", boolean false)
            ∷ (codes "parameters", get_or (get (codes "parameters") func) null)
            ∷ []))
      else none

unfoldable pub filter_map {ℓ κ} : {A : Type ℓ} {B : Type κ} → (A → Option B) → List A → List B
filter_map f [] = []
filter_map f (x ∷ xs) = let rest = filter_map f xs in elim (f x) [ none ↦ rest | some y ↦ y ∷ rest ]

abbrev pub array_or_null : Option (List Value) → Value
array_or_null none = null
array_or_null (some vs) = array (of_items vs)

unfoldable pub map_tools_to_codex : Value → Value
unfolding filter_map codex_tool
map_tools_to_codex request =
    array_or_null
      (get (codes "tools") request >>= as_array >>= λ tools. some (filter_map codex_tool tools))

-- `to_string` stands for `serde_json::to_string`.
module _ (to_string : Value → Option Str) where
  unfoldable pub extract_arguments_string : Option Value → Str
  extract_arguments_string none = []
  extract_arguments_string (some null) = []
  extract_arguments_string (some (text v)) = v
  extract_arguments_string (some other) = get_or (to_string other) []

  unfoldable pub collect_tool_output : Option Value → Str
  unfolding plain_texts
  collect_tool_output none = []
  collect_tool_output (some null) = []
  collect_tool_output (some (text v)) = v
  collect_tool_output (some (array vs)) = join (codes "\n") (plain_texts (items vs))
  collect_tool_output (some other) = get_or (to_string other) []

  -- One entry of `tool_calls`, if it is an object.
  unfoldable pub function_call : Value → Option Value
  unfolding extract_arguments_string
  function_call tc = do
    tcm ← as_object tc
    let func = get (codes "function") tcm >>= as_object
    some (
        object_of (
          (codes "type", text (codes "function_call"))
          ∷ (codes "name", text (get_or (func >>= get_str (codes "name")) []))
          ∷ (codes "call_id", text (get_or (get_str (codes "id") tcm) []))
          ∷ (codes "arguments", text (extract_arguments_string (func >>= get (codes "arguments"))))
          ∷ []))

  -- The message with these texts, unless there are none.
  abbrev pub spoken : Value → Str → Str → List Str → List Value
  spoken id role kind [] = []
  spoken id role kind (t ∷ texts) = message id role kind (t ∷ texts) ∷ []

  -- What one message adds to the input, by its role.
  unfoldable pub codex_input : Value → List Value
  unfolding collect_text_segments collect_tool_output function_call filter_map
  codex_input mm =
      let role = get_or (get_str (codes "role") mm) [] in
      let id = get_or (get (codes "id") mm) null in
      let texts = collect_text_segments (get (codes "content") mm) true in
      let call_id = get_or (get_str (codes "tool_call_id") mm) [] in
      if role == codes "user"
      then spoken id (codes "user") (codes "input_text") texts
      else if role == codes "assistant"
      then spoken id (codes "assistant") (codes "output_text") texts
        ++ filter_map function_call (get_or (get (codes "tool_calls") mm >>= as_array) [])
      else if role == codes "tool" && not (is_empty call_id)
      then object_of (
          (codes "type", text (codes "function_call_output"))
          ∷ (codes "call_id", text call_id)
          ∷ (codes "output", text (collect_tool_output (get (codes "content") mm)))
          ∷ [])
        ∷ []
      else []

  -- The messages in order; one that is not an object is skipped.
  unfoldable pub codex_inputs : List Value → List Value
  unfolding codex_input
  codex_inputs [] = []
  codex_inputs (msg ∷ msgs) =
      let rest = codex_inputs msgs in
      elim (as_object msg) [ none ↦ rest | some mm ↦ codex_input mm ++ rest ]

  unfoldable pub build_codex_input_messages : Value → List Value
  unfolding codex_inputs
  build_codex_input_messages request =
      developer_message (extract_instructions request)
      ∷ codex_inputs (get_or (get (codes "messages") request >>= as_array) [])
