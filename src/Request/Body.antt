-- ===== src/Request/Body.antt =====
-- The body that the proxy sends upstream for a chat request: `build_codex_request_body` of
-- src/request.rs.
pub mod Accepted
use codex_proxy_rs.Base.{
  Bool, true, false, not, ◌&&◌, ◌||◌, List, [], ◌∷◌, ◌++◌, Option, none, some, Str, codes,
  if◌then◌else◌, is_empty, trim, get_or, is_some, text_eq, insert,
}
use codex_proxy_rs.Json.{
  Value, null, boolean, text, array, object, of_items, of_fields, fields, get, get_str, as_bool,
  ◌>>=◌,
}
use codex_proxy_rs.Conversation.{extract_first_user_text}
use codex_proxy_rs.Model.{normalize_model}
use codex_proxy_rs.Request.{resolve_request_model, build_reasoning_settings}
use codex_proxy_rs.Request.Input.{
  object_of, build_codex_input_messages, developer_message, map_tools_to_codex,
}

abbrev pub codex_responses_keys : List Str
codex_responses_keys =
    codes "model"
    ∷ codes "instructions"
    ∷ codes "store"
    ∷ codes "stream"
    ∷ codes "input"
    ∷ codes "tools"
    ∷ codes "tool_choice"
    ∷ codes "parallel_tool_calls"
    ∷ codes "reasoning"
    ∷ codes "include"
    ∷ codes "prompt_cache_key"
    ∷ []

abbrev pub include_value : Value
include_value = array (of_items (text (codes "reasoning.encrypted_content") ∷ []))

-- A text that is not empty.
abbrev pub not_empty : Option Str → Option Str
not_empty o = o >>= λ s. if is_empty s then none else some s

-- `hash_to_uuid` is the digest; the two prompts are the texts that the build includes.
module _ (hash_to_uuid : Str → Str) where
  unfoldable pub derive_prompt_cache_key : Str → Str → Str → Str
  derive_prompt_cache_key model instructions first_user_text =
      let model = trim model in
      let instructions = trim instructions in
      let first_user_text = trim first_user_text in
      if is_empty model && is_empty instructions && is_empty first_user_text
      then []
      else hash_to_uuid (model ++ (codes "\n" ++ (instructions ++ (codes "\n" ++ first_user_text))))

  -- The end of both transformations: the cache key, unless one is given as a text.
  unfoldable pub with_cache_key : Str → Str → List (Str × Value) → List (Str × Value)
  unfolding derive_prompt_cache_key
  with_cache_key model instructions body =
      let key =
        derive_prompt_cache_key model instructions (extract_first_user_text (object_of body)) in
      if is_some (get_str (codes "prompt_cache_key") (object_of body)) || is_empty key
      then body
      else insert (codes "prompt_cache_key") (text key) body

  module _ (to_string : Value → Option Str) (prefix inverse_prompt : Str) where
    -- The body before the cache key. The messages are never empty, so the guard on them always
    -- passes.
    unfoldable pub codex_fields : Value → List (Str × Value)
    codex_fields request =
        let input =
          developer_message inverse_prompt ∷ build_codex_input_messages to_string request in
        (codes "model", text (normalize_model (resolve_request_model request)))
        ∷ (codes "instructions", text prefix)
        ∷ (codes "store", boolean false)
        ∷ (codes "stream", boolean true)
        ∷ (codes "input", array (of_items input))
        ∷ (codes "tools", map_tools_to_codex request)
        ∷ (
          codes "tool_choice",
          text (get_or (not_empty (get_str (codes "tool_choice") request)) (codes "auto")),
        )
        ∷ (
          codes "parallel_tool_calls",
          boolean (get_or (get (codes "parallel_tool_calls") request >>= as_bool) false),
        )
        ∷ (codes "reasoning", build_reasoning_settings request)
        ∷ (codes "include", include_value)
        ∷ []

    unfoldable pub build_codex_request_body : Value → Value
    unfolding codex_fields with_cache_key
    build_codex_request_body request = object_of (
        with_cache_key (normalize_model (resolve_request_model request)) prefix
          (codex_fields request))
