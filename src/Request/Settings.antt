-- ===== src/Request/Settings.antt =====
-- The reasoning effort in the settings that src/request.rs sends upstream.
use codex_proxy_rs.Base.{
  false, List, [], ◌∷◌, Option, some, Str, ◌≡◌, refl, codes, text_beq, text_eq, ◌==◌, is_empty,
  lookup, contains, In, subst, All, All-In, if-both,
}
use codex_proxy_rs.Json.{Value, get, get_str, as_str}
use codex_proxy_rs.Model.{
  model_allowed_efforts, model_default_effort, normalize_model, normalize_reasoning_effort, gpt5,
  gpt5_2, gpt5_4, gpt5_4_mini, gpt5_2_codex, gpt5_3_codex, gpt5_3_codex_spark, gpt5_5, gpt6_astra,
  gpt5_6_sol, gpt5_6_terra, gpt5_6_luna, gpt5_codex, gpt5_1, gpt5_1_codex, gpt5_1_codex_max,
  gpt5_codex_mini, gpt5_1_codex_mini,
}
use codex_proxy_rs.Model.Efforts.{clamp_allowed}
use codex_proxy_rs.Model.Known.{normalize_model-IsKnown}
use codex_proxy_rs.Request.{
  build_reasoning_settings, clamped_effort, resolve_reasoning_effort, resolve_reasoning_summary,
  resolve_request_model, settings,
}

-- Every accepted effort has a name.
record AreNamed (o : Option (List Str)) : Type 0 where
  named : (allowed : List Str) → o ≡ some allowed → All (λ e. is_empty e ≡ false) allowed

some_named : {allowed : List Str} → All (λ e. is_empty e ≡ false) allowed → AreNamed (some allowed)
some_named {allowed} h = record {
  named =
      λ xs e. let same : allowed ≡ xs = cc in subst (All (λ (e : Str). is_empty e ≡ false)) same h;
}

efforts_named : (model : Str) → AreNamed (model_allowed_efforts model)
unfolding model_allowed_efforts codes
efforts_named model =
    if-both AreNamed (model == gpt5) (some_named (refl, (refl, (refl, (refl, tt))))) (
      if-both AreNamed
        (contains
          (gpt5_2 ∷ gpt5_4 ∷ gpt5_4_mini ∷ gpt5_2_codex ∷ gpt5_3_codex ∷ gpt5_3_codex_spark ∷ gpt5_5
            ∷ [])
          model)
        (some_named (refl, (refl, (refl, (refl, tt)))))
        (if-both AreNamed (contains (gpt6_astra ∷ gpt5_6_sol ∷ gpt5_6_terra ∷ []) model)
          (some_named (refl, (refl, (refl, (refl, (refl, (refl, tt)))))))
          (if-both AreNamed (model == gpt5_6_luna)
            (some_named (refl, (refl, (refl, (refl, (refl, tt))))))
            (if-both AreNamed (model == gpt5_codex) (some_named (refl, (refl, (refl, (refl, tt)))))
              (if-both AreNamed (contains (gpt5_1 ∷ gpt5_1_codex ∷ []) model)
                (some_named (refl, (refl, (refl, tt))))
                (if-both AreNamed (model == gpt5_1_codex_max)
                  (some_named (refl, (refl, (refl, (refl, tt)))))
                  (if-both AreNamed (contains (gpt5_codex_mini ∷ gpt5_1_codex_mini ∷ []) model)
                    (some_named (refl, (refl, tt))) (record { named = λ xs e. cc }))))))))

settings-effort :
    (clamped : Str) (summary : Option Value)
    → is_empty clamped ≡ false
    → get_str (codes "effort") (settings clamped summary) ≡ some clamped
unfolding get_str get as_str lookup codes text_beq
settings-effort clamped summary e = rw e refl

-- For a model that has a default effort, whatever effort the request asks for in whatever place, the
-- settings sent upstream carry an effort, and it is one that this model accepts.
pub build_reasoning_settings_allowed :
    (request : Value) (d : Str)
    → model_default_effort (normalize_model (resolve_request_model request)) ≡ some d
    → (allowed : List Str) × (effort : Str) × (model_allowed_efforts
          (normalize_model (resolve_request_model request))
        ≡ some allowed)
      × (get_str (codes "effort") (build_reasoning_settings request) ≡ some effort)
      × In effort allowed
unfolding build_reasoning_settings clamped_effort
build_reasoning_settings_allowed request d h =
    let model = normalize_model (resolve_request_model request) in
    let effort = normalize_reasoning_effort (resolve_reasoning_effort request) in
    let (allowed, e, i) = clamp_allowed effort model d (normalize_model-IsKnown _) h in
    let full = All-In (λ e. is_empty e ≡ false) i ((efforts_named model).named allowed e) in
    (
      allowed,
      clamped_effort request,
      e,
      settings-effort _ (resolve_reasoning_summary request) full,
      i,
    )
