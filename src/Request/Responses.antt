-- ===== src/Request/Responses.antt =====
-- The rewriting of a Responses request: `transform_responses_request_body` of src/request.rs.
pub mod Keys
pub mod Messages
use codex_proxy_rs.Base.{
  Bool, true, false, not, ◌||◌, List, [], ◌∷◌, ◌++◌, Option, none, some, Str, codes, if◌then◌else◌,
  is_empty, trim, get_or, is_some, ◌==◌, text_eq, insert, remove, lookup, filter, contains, join,
  map,
}
use codex_proxy_rs.Json.{
  Value, null, boolean, text, array, object, Fields, of_items, of_fields, fields, items, get,
  get_str, as_object, as_array, as_str, ◌>>=◌,
}
use codex_proxy_rs.Conversation.{extract_first_user_text, replace_names, has_role}
use codex_proxy_rs.Model.{
  normalize_model, normalize_reasoning_effort, clamp_reasoning_effort_for_model,
}
use codex_proxy_rs.Request.{resolve_reasoning_summary}
use codex_proxy_rs.Request.Input.{object_of, plain_texts}
use codex_proxy_rs.Request.Body.{codex_responses_keys, include_value, with_cache_key}

abbrev pub Map : Type 0
Map = List (Str × Value)

abbrev pub is_system : Value → Bool
is_system msg = has_role (codes "system") msg

-- The text of the last system message: only content that is an array is read.
unfoldable pub system_text_from : Str → List Value → Str
unfolding plain_texts
system_text_from found [] = found
system_text_from found (msg ∷ msgs) =
    let parts = plain_texts (get_or (get (codes "content") msg >>= as_array) []) in
    let later = system_text_from (join (codes "\n\n") parts) msgs in
    let kept = system_text_from found msgs in if is_system msg then later else kept

-- The `instructions` to send, and the messages with a leading developer message, if one is due.
unfoldable pub apply_instructions : Str → Str → List Value → Str × List Value
apply_instructions user_instr system_text messages =
    if is_empty user_instr
    then (if is_empty system_text then [] else replace_names system_text, messages)
    else (
      user_instr,
      if is_empty system_text
          then messages
          else object_of (
              (codes "role", text (codes "developer"))
              ∷ (codes "content", text (replace_names system_text))
              ∷ [])
            ∷ messages,
    )

abbrev pub input_value : List Value → Value
input_value [] = null
input_value (msg ∷ msgs) = array (of_items (msg ∷ msgs))

-- An item of a content array with its text replaced.
unfoldable pub sanitize_item : Value → Value
sanitize_item (object fs) = elim (get_str (codes "text") (object fs)) [
  | none ↦ object fs
  | some t ↦
      if is_empty t
      then object fs
      else object_of (insert (codes "text") (text (replace_names t)) (fields fs))
]
sanitize_item item = item

-- The content of a message with its items sanitized, where it is an array.
abbrev pub put_content : Fields → Option (List Value) → Value
put_content fs none = object fs
put_content fs (some contents) =
    object_of (insert (codes "content") (array (of_items (map sanitize_item contents))) (fields fs))

-- A message that is not a system message.
unfoldable pub sanitize_message : Value → Value
unfolding sanitize_item
sanitize_message (object fs) = put_content fs (get (codes "content") (object fs) >>= as_array)
sanitize_message msg = msg

unfoldable pub sanitized : List Value → List Value
unfolding sanitize_message
sanitized msgs = map sanitize_message (filter (λ msg. not (is_system msg)) msgs)

abbrev pub put_input : Map → Option (List Value) → Map
put_input obj none = obj
put_input obj (some input) = insert (codes "input") (array (of_items (sanitized input))) obj

unfoldable pub sanitize_responses_input : Map → Map
unfolding sanitized
sanitize_responses_input obj = put_input obj (get (codes "input") (object_of obj) >>= as_array)

-- Insert a default where the key is missing.
abbrev pub insert_default : Str → Value → Map → Map
insert_default key v obj = if is_some (lookup key obj) then obj else insert key v obj

abbrev pub summary_entry : Option Value → Map
summary_entry none = []
summary_entry (some summary) = (codes "summary", summary) ∷ []

abbrev pub effort_entry : Str → Map
effort_entry clamped_effort =
    if is_empty clamped_effort then [] else (codes "effort", text clamped_effort) ∷ []

-- The reasoning settings: without any, the key is removed.
unfoldable pub with_reasoning : Str → Map → Map
with_reasoning clamped_effort obj =
    let settings =
      summary_entry (resolve_reasoning_summary (object_of obj)) ++ effort_entry clamped_effort in
    if is_empty settings
    then remove (codes "reasoning") obj
    else insert (codes "reasoning") (object_of settings) obj

-- The whitelist.
unfoldable pub retain : Map → Map
retain obj = filter (λ (f : Str × Value). contains codex_responses_keys f.0) obj

-- The steps on `instructions` and `input`.
unfoldable pub with_instructions : Map → Map
unfolding system_text_from apply_instructions sanitize_responses_input
with_instructions obj =
    let user_instr = trim (get_or (get_str (codes "instructions") (object_of obj)) []) in
    let messages = get_or (get (codes "input") (object_of obj) >>= as_array) [] in
    let (instructions, all) =
      apply_instructions user_instr (system_text_from [] messages)
        (filter (λ msg. not (is_system msg)) messages) in
    sanitize_responses_input (
      insert (codes "input") (input_value all)
        (insert (codes "instructions") (text instructions) (remove (codes "instructions") obj)))

-- The first three insertions.
abbrev pub stamped : Str → Map → Map
stamped model obj =
    insert (codes "stream") (boolean true)
      (insert (codes "store") (boolean false) (insert (codes "model") (text model) obj))

module _ (hash_to_uuid : Str → Str) where
  -- The body before the whitelist.
  unfoldable pub rewritten : Map → Str → Str → Map
  unfolding with_instructions with_reasoning with_cache_key
  rewritten obj model effort =
      let obj = insert (codes "include") include_value (with_instructions (stamped model obj)) in
      let obj = insert_default (codes "tool_choice") (text (codes "auto")) obj in
      let obj = insert_default (codes "parallel_tool_calls") (boolean false) obj in
      let obj = with_reasoning effort obj in
      let instructions = get_or (get_str (codes "instructions") (object_of obj)) [] in
      with_cache_key hash_to_uuid model instructions obj

  -- The new body, the normalized model and the clamped effort.
  unfoldable pub transform_responses_request_body : Value → Str → Str → Value × Str × Str
  unfolding rewritten retain
  transform_responses_request_body (object fs) requested_model requested_effort =
      let model = normalize_model requested_model in
      let effort =
        clamp_reasoning_effort_for_model (normalize_reasoning_effort requested_effort) model in
      (object_of (retain (rewritten (fields fs) model effort)), model, effort)
  transform_responses_request_body body requested_model requested_effort = (body, [], [])
