-- ===== src/Model.antt =====
-- Model names and reasoning efforts: src/model.rs.
mod Names
pub mod Known
pub mod Efforts
use codex_proxy_rs.Base.{
  ℕ, ◌||◌, Bool, true, false, List, [], ◌∷◌, Option, none, some, Str, codes, if◌then◌else◌, ◌==◌,
  text_eq, nat_eq, trim, to_ascii_lowercase, strip_suffix, strip_prefix, starts_with, contains_text,
  contains, find, is_empty, get_or, text_beq,
}
use Prim.Native.String.{String}
unfoldable pub use Names.*

pub exact_model : Str → Option Str
unfolding find
exact_model id = find (λ known. known == id) known_models

-- The `match` of `model_allowed_efforts`, arm by arm.
unfoldable pub model_allowed_efforts : Str → Option (List Str)
unfolding contains
model_allowed_efforts model =
    if model == gpt5
    then some (minimal ∷ to_high)
    else if contains
        (gpt5_2 ∷ gpt5_4 ∷ gpt5_4_mini ∷ gpt5_2_codex ∷ gpt5_3_codex ∷ gpt5_3_codex_spark ∷ gpt5_5
          ∷ [])
        model
    then some to_xhigh
    else if contains (gpt6_astra ∷ gpt5_6_sol ∷ gpt5_6_terra ∷ []) model
    then some (low ∷ medium ∷ high ∷ xhigh ∷ max_effort ∷ ultra ∷ [])
    else if model == gpt5_6_luna
    then some (low ∷ medium ∷ high ∷ xhigh ∷ max_effort ∷ [])
    else if model == gpt5_codex
    then some (minimal ∷ to_high)
    else if contains (gpt5_1 ∷ gpt5_1_codex ∷ []) model
    then some to_high
    else if model == gpt5_1_codex_max
    then some to_xhigh
    else if contains (gpt5_codex_mini ∷ gpt5_1_codex_mini ∷ []) model
    then some (medium ∷ high ∷ [])
    else none

unfoldable pub model_default_effort : Str → Option Str
unfolding contains
model_default_effort model =
    if contains (gpt5_1 ∷ gpt5_1_codex ∷ gpt5_1_codex_max ∷ gpt5_6_sol ∷ gpt6_astra ∷ []) model
    then some low
    else if contains
        (gpt5_2 ∷ gpt5_4 ∷ gpt5_4_mini ∷ gpt5_2_codex ∷ gpt5_3_codex ∷ gpt5_5 ∷ gpt5_codex_mini
          ∷ gpt5_1_codex_mini ∷ gpt5_6_terra ∷ gpt5_6_luna ∷ [])
        model
    then some medium
    else if model == gpt5_3_codex_spark
    then some high
    else none

pub is_gpt6_family : Str → Bool
is_gpt6_family id =
    id == codes "gpt-6" || starts_with (codes "gpt-6-") id || starts_with (codes "gpt-6.") id

-- The loop of `effort_suffix`: the first suffix decides; `&suffix[1..]` drops its dash.
suffix_effort : List Str → Str → Option Str
suffix_effort [] lower = none
suffix_effort (suffix ∷ suffixes) lower = elim (strip_suffix suffix lower) [
  | none ↦ suffix_effort suffixes lower
  | some rest ↦ if is_empty rest then none else strip_prefix (codes "-") suffix
]

unfoldable pub effort_suffix : Str → Option Str
unfolding suffix_effort
effort_suffix model =
    let lower = to_ascii_lowercase (trim model) in
    elim (exact_model lower) [ some _ ↦ none | none ↦ suffix_effort effort_suffixes lower ]

-- The loop of `normalize_model` that strips the first suffix that fits.
pub strip_effort : List Str → Str → Str
strip_effort [] lower = lower
strip_effort (suffix ∷ suffixes) lower = elim (strip_suffix suffix lower) [
  | none ↦ strip_effort suffixes lower
  | some rest ↦ rest
]

-- The family guards of `normalize_model`, from `is_gpt6_family` to the end of the function.
pub family_model : Str → Str
family_model lower =
    if is_gpt6_family lower
    then gpt6_astra
    else if lower == codes "gpt-5.6" || starts_with (codes "gpt-5.6-") lower
    then gpt5_6_sol
    else if contains_text (codes "gpt-5.2-codex") lower
    then gpt5_2_codex
    else if contains_text (codes "gpt-5.3-codex-spark") lower
    then gpt5_3_codex_spark
    else if contains_text (codes "gpt-5.3-codex") lower
    then gpt5_3_codex
    else if contains_text (codes "gpt-5.4-mini") lower
    then gpt5_4_mini
    else if contains_text (codes "gpt-5.4") lower
    then gpt5_4
    else if contains_text (codes "gpt-5.2") lower
    then gpt5_2
    else if contains_text (codes "gpt-5.1-codex-max") lower
    then gpt5_1_codex_max
    else if contains_text (codes "gpt-5.1-codex-mini") lower
    then gpt5_1_codex_mini
    else if contains_text (codes "gpt-5.1-codex") lower
    then gpt5_1_codex
    else if contains_text (codes "gpt-5.1") lower
    then gpt5_1
    else if contains_text (codes "gpt-5-codex-mini") lower
    then gpt5_codex_mini
    else if contains_text (codes "mini") lower
    then gpt5_1_codex_mini
    else if contains_text (codes "4o") lower
    then gpt5_1_codex_mini
    else if contains_text (codes "gpt-5-codex") lower || contains_text (codes "codex") lower
    then gpt5_codex
    else gpt5

unfoldable pub normalize_model : Str → Str
unfolding exact_model strip_effort family_model is_gpt6_family
normalize_model model =
    let lower = to_ascii_lowercase (trim model) in
    elim (exact_model lower) [
      | some known ↦ known
      | none ↦
          let stripped = strip_effort effort_suffixes lower in
          if is_empty stripped
          then gpt5
          else elim (exact_model stripped) [ some known ↦ known | none ↦ family_model stripped ]
    ]

unfoldable pub normalize_reasoning_effort : Str → Str
normalize_reasoning_effort effort =
    let level = to_ascii_lowercase (trim effort) in
    if level == minimal
    then minimal
    else if level == low
    then low
    else if level == medium
    then medium
    else if level == high
    then high
    else if level == xhigh
    then xhigh
    else if level == max_effort
    then max_effort
    else if level == ultra
    then ultra
    else if level == codes "none"
    then low
    else []

-- `clamp_reasoning_effort_for_model` behind its two calls of `trim`.
unfoldable pub clamp_trimmed : Str → Str → Str
clamp_trimmed effort backend_model =
    if is_empty effort
    then get_or (model_default_effort backend_model) []
    else elim (model_allowed_efforts backend_model) [
      | none ↦ effort
      | some allowed ↦
          if contains allowed effort
          then effort
          else get_or (model_default_effort backend_model) effort
    ]

unfoldable pub clamp_reasoning_effort_for_model : Str → Str → Str
clamp_reasoning_effort_for_model effort backend_model =
    clamp_trimmed (trim effort) (trim backend_model)
