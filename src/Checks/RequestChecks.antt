-- ===== src/Checks/RequestChecks.antt =====
-- Runs of the reasoning settings of src/request.rs.
use codex_proxy_rs.Base.{
  List, [], ◌∷◌, Str, none, some, ◌≡◌, refl, codes, In, text_beq, lookup, contains, insert, trim,
  trim_start, trim_end, drop_while, to_ascii_lowercase, find,
}
use codex_proxy_rs.Json.{
  as_object, Value, null, text, array, Fields, of_items, ◌>>=◌, as_array, object, field, end, get,
  get_str, as_str,
}
use codex_proxy_rs.Model.{model_allowed_efforts, model_default_effort, normalize_model}
use codex_proxy_rs.Request.{build_reasoning_settings, resolve_request_model}
use codex_proxy_rs.Request.Body.{build_codex_request_body}
use codex_proxy_rs.Request.Body.Accepted.{build_codex_request_body-IsAccepted}
use codex_proxy_rs.Request.Responses.{
  transform_responses_request_body, system_text_from, apply_instructions, sanitized,
  sanitize_message,
}
use codex_proxy_rs.Request.Responses.Keys.{IsAccepted, transform_responses_request_body-IsAccepted}
use codex_proxy_rs.Request.Responses.Messages.{
  IsSystemFree, sent_body-input, transform_responses_request_body-IsSystemFree,
  transform_responses_request_body-drops_input,
}
use codex_proxy_rs.Request.Settings.{build_reasoning_settings_allowed}

abbrev too_high : Value
too_high = object (
    field (codes "model") (text (codes "gpt-5.1"))
      (field (codes "reasoning_effort") (text (codes "ultra")) end))

defaulted :
    model_default_effort (normalize_model (resolve_request_model too_high)) ≡ some (codes "low")
unfolding model_default_effort normalize_model resolve_request_model get get_str as_str lookup
    contains trim to_ascii_lowercase find text_beq codes
defaulted = refl

build_reasoning_settings_allowed_example :
    (allowed : List Str) × (effort : Str) × (model_allowed_efforts
        (normalize_model (resolve_request_model too_high))
      ≡ some allowed)
    × (get_str (codes "effort") (build_reasoning_settings too_high) ≡ some effort)
    × In effort allowed
build_reasoning_settings_allowed_example =
    build_reasoning_settings_allowed too_high (codes "low") defaulted

-- A Responses request whose input is a text.
abbrev plain_input : Value
plain_input = object (field (codes "input") (text (codes "hello")) end)

transform_responses_request_body-IsAccepted_example :
    IsAccepted
      (λ s. s)
      (transform_responses_request_body (λ s. s) plain_input (codes "gpt-5") (codes "high")).0
      (normalize_model (codes "gpt-5"))
transform_responses_request_body-IsAccepted_example =
    transform_responses_request_body-IsAccepted (λ s. s)
      (field (codes "input") (text (codes "hello")) end) (codes "gpt-5") (codes "high")

no_array : get (codes "input") plain_input >>= as_array ≡ none
unfolding get as_array lookup text_beq codes
no_array = refl

transform_responses_request_body-drops_input_example :
    get
      (codes "input")
      (transform_responses_request_body (λ s. s) plain_input (codes "gpt-5") (codes "high")).0
    ≡ some null
transform_responses_request_body-drops_input_example =
    transform_responses_request_body-drops_input (λ s. s)
      (field (codes "input") (text (codes "hello")) end) (codes "gpt-5") (codes "high") no_array

build_codex_request_body-IsAccepted_example :
    IsAccepted
      (λ s. s)
      (build_codex_request_body (λ s. s) (λ v. none) (codes "Prefix") (codes "Hello") too_high)
      (normalize_model (resolve_request_model too_high))
build_codex_request_body-IsAccepted_example =
    build_codex_request_body-IsAccepted (λ s. s) (λ v. none) (codes "Prefix") (codes "Hello")
      too_high

-- A Responses request with one item that is no message.
abbrev one_item : Fields
one_item = field (codes "input") (array (of_items (text (codes "hi") ∷ []))) end

sent_item :
    get
      (codes "input")
      (transform_responses_request_body (λ s. s) (object one_item) (codes "gpt-5") (codes "high")).0
    ≡ some (array (of_items (text (codes "hi") ∷ [])))
unfolding get get_str as_str as_array as_object lookup insert text_beq codes trim trim_start
    trim_end drop_while system_text_from apply_instructions sanitized sanitize_message
sent_item = sent_body-input (λ s. s) one_item (codes "gpt-5") (codes "high")

transform_responses_request_body-IsSystemFree_example : IsSystemFree (text (codes "hi") ∷ [])
transform_responses_request_body-IsSystemFree_example =
    transform_responses_request_body-IsSystemFree (λ s. s) one_item (codes "gpt-5") (codes "high")
      (text (codes "hi") ∷ []) sent_item
