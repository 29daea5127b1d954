-- ===== src/Checks/ModelChecks.antt =====
-- Runs of the functions of src/model.rs at concrete names, as in its unit tests.
use codex_proxy_rs.Base.{
  codes, ◌≡◌, refl, some, none, text_beq, trim, to_ascii_lowercase, find, contains, strip_suffix,
  contains_text, inl,
}
use codex_proxy_rs.Model.Known.{
  IsKnown, known, normalize_model-IsKnown, normalize_model_known, normalize_model_idempotent,
}
use codex_proxy_rs.Model.Efforts.{clamp_no_default}
use codex_proxy_rs.Model.{
  normalize_model, gpt5_1_codex_max, gpt5_4_mini, gpt5_6_sol, gpt6_astra, gpt5, effort_suffix,
  clamp_reasoning_effort_for_model,
}

normalize_model_tests :
    (normalize_model (codes " GPT-5.1-codex-MAX ") ≡ gpt5_1_codex_max)
    × (normalize_model (codes "gpt-5.4-mini-high") ≡ gpt5_4_mini)
    × (normalize_model (codes "gpt-5.6-pro") ≡ gpt5_6_sol)
    × (normalize_model (codes "gpt-6-astra-ultra") ≡ gpt6_astra)
unfolding normalize_model text_beq trim to_ascii_lowercase find strip_suffix contains_text codes
normalize_model_tests = (refl, refl, refl, refl)

effort_suffix_tests :
    (effort_suffix (codes "gpt-5.1-codex-max") ≡ none)
    × (effort_suffix (codes "gpt-5.2-High") ≡ some (codes "high"))
unfolding effort_suffix normalize_model text_beq trim to_ascii_lowercase find strip_suffix codes
effort_suffix_tests = (refl, refl)

normalize_model-IsKnown_example : IsKnown (normalize_model (codes "gpt-4o"))
normalize_model-IsKnown_example = normalize_model-IsKnown (codes "gpt-4o")

max_known : IsKnown gpt5_1_codex_max
unfolding contains text_beq codes
max_known = known gpt5_1_codex_max refl

max_spelled : to_ascii_lowercase (trim (codes " GPT-5.1-codex-MAX ")) ≡ gpt5_1_codex_max
unfolding to_ascii_lowercase trim codes
max_spelled = refl

normalize_model_known_example : normalize_model (codes " GPT-5.1-codex-MAX ") ≡ gpt5_1_codex_max
normalize_model_known_example =
    normalize_model_known (codes " GPT-5.1-codex-MAX ") gpt5_1_codex_max max_known max_spelled

normalize_model_idempotent_example :
    normalize_model (normalize_model (codes "gpt-5.6-pro")) ≡ normalize_model (codes "gpt-5.6-pro")
normalize_model_idempotent_example = normalize_model_idempotent (codes "gpt-5.6-pro")

clamp_no_default_example :
    clamp_reasoning_effort_for_model (codes " ultra ") gpt5 ≡ trim (codes " ultra ")
clamp_no_default_example = clamp_no_default (codes " ultra ") gpt5 (inl refl)
