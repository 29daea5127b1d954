-- ===== src/Request.antt =====
-- The model and the reasoning settings of a request: the first part of src/request.rs.
pub mod Settings
pub mod Input
pub mod Body
pub mod Responses
use codex_proxy_rs.Base.{
  List, [], ◌∷◌, ◌++◌, Option, none, some, Str, codes, if◌then◌else◌, is_empty, trim, get_or,
  text_eq,
}
use codex_proxy_rs.Json.{
  Value, null, text, object, Fields, end, field, get, get_str, as_object, ◌>>=◌,
}
use codex_proxy_rs.Model.{
  gpt5, effort_suffix, normalize_model, normalize_reasoning_effort,
  clamp_reasoning_effort_for_model,
}

-- A text less the white space around it, if any of it is left.
abbrev pub non_blank : Option Str → Option Str
non_blank o = o >>= λ s. if is_empty (trim s) then none else some (trim s)

abbrev pub or_else {ℓ} : {A : Type ℓ} → Option A → Option A → Option A
or_else none other = other
or_else (some a) other = some a

unfoldable pub resolve_request_model : Value → Str
resolve_request_model request = get_or (non_blank (get_str (codes "model") request)) gpt5

unfoldable pub resolve_reasoning_effort : Value → Str
resolve_reasoning_effort request =
    let nested = get (codes "reasoning") request >>= as_object >>= get_str (codes "effort") in
    get_or
      (or_else (non_blank (get_str (codes "reasoning_effort") request))
        (or_else (non_blank nested) (get_str (codes "model") request >>= effort_suffix)))
      []

-- An explicit `null` is `None`.
abbrev pub not_null : Option Value → Option Value
not_null none = some (text (codes "auto"))
not_null (some null) = none
not_null (some summary) = some summary

unfoldable pub resolve_reasoning_summary : Value → Option Value
resolve_reasoning_summary request =
    not_null (get (codes "reasoning") request >>= as_object >>= get (codes "summary"))

abbrev pub summary_field : Option Value → Fields
summary_field none = end
summary_field (some summary) = field (codes "summary") summary end

abbrev pub settings : Str → Option Value → Value
settings clamped summary = object (
    if is_empty clamped
    then summary_field summary
    else field (codes "effort") (text clamped) (summary_field summary))

-- The effort that is sent, or the empty text.
unfoldable pub clamped_effort : Value → Str
clamped_effort request =
    clamp_reasoning_effort_for_model (normalize_reasoning_effort (resolve_reasoning_effort request))
      (normalize_model (resolve_request_model request))

unfoldable pub build_reasoning_settings : Value → Value
unfolding clamped_effort
build_reasoning_settings request =
    settings (clamped_effort request) (resolve_reasoning_summary request)
