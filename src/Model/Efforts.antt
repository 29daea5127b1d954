-- ===== src/Model/Efforts.antt =====
-- Reasoning efforts: the clamp of src/model.rs against the tables of the models.
use codex_proxy_rs.Base.{
  Str, List, [], ◌∷◌, In, contains, contains-In, text_beq, codes, text_eq, Bool, true, false, ◌≡◌,
  refl, Option, none, some, All, All-In, Option-cases, Bool-cases, inl, inr, is_empty, trim, ◌⊎◌,
  if-both,
}
use codex_proxy_rs.Model.{
  known_models, model_allowed_efforts, model_default_effort, clamp_reasoning_effort_for_model,
  clamp_trimmed, gpt5, gpt5_codex,
}
use codex_proxy_rs.Model.Known.{IsKnown, IsKnown-trim}

-- A default effort is one of the model's allowed efforts.
default_allowed : Str → Bool
default_allowed m = elim (model_default_effort m) [
  | none ↦ true
  | some d ↦ elim (model_allowed_efforts m) [ none ↦ false | some allowed ↦ contains allowed d ]
]

known_models-default_allowed : All (λ m. default_allowed m ≡ true) known_models
unfolding default_allowed model_default_effort model_allowed_efforts contains text_beq codes
known_models-default_allowed = (
  refl,
  (
    refl,
    (
      refl,
      (
        refl,
        (
          refl,
          (
            refl,
            (
              refl,
              (
                refl,
                (refl, (refl, (refl, (refl, (refl, (refl, (refl, (refl, (refl, (refl, tt)))))))))),
              ),
            ),
          ),
        ),
      ),
    ),
  ),
)

allowed_of_default :
    (m d : Str)
    → default_allowed m ≡ true
    → model_default_effort m ≡ some d
    → (allowed : List Str) × (model_allowed_efforts m ≡ some allowed) × In d allowed
unfolding default_allowed
allowed_of_default m d h e = go (model_allowed_efforts m) refl (rw (e, default_allowed) at h)
  where
    go :
        (o : Option (List Str))
        → model_allowed_efforts m ≡ o
        → elim o [ none ↦ false | some allowed ↦ contains allowed d ] ≡ true
        → (allowed : List Str) × (model_allowed_efforts m ≡ some allowed) × In d allowed
    go none a q = cc
    go (some allowed) a q = (allowed, a, contains-In allowed d q)

clamp_trimmed-In :
    (effort m d : Str) (allowed : List Str)
    → model_allowed_efforts m ≡ some allowed
    → model_default_effort m ≡ some d
    → In d allowed
    → In (clamp_trimmed effort m) allowed
unfolding clamp_trimmed
clamp_trimmed-In effort m d allowed a e i =
    rw (a, e)
      (if-both (λ x. In x allowed) (is_empty effort) i
        (elim (Bool-cases (contains allowed effort)) [
          | inl fits ↦ rw fits (contains-In allowed effort fits)
          | inr other ↦ rw other i
        ]))

-- For a known model that has a default effort, the clamped effort is one that the model accepts,
-- whatever effort was asked for.
pub clamp_allowed :
    (effort m d : Str)
    → IsKnown m
    → model_default_effort m ≡ some d
    → (allowed : List Str) × (model_allowed_efforts m ≡ some allowed)
      × In (clamp_reasoning_effort_for_model effort m) allowed
unfolding clamp_reasoning_effort_for_model
clamp_allowed effort m d k e =
    let ok = All-In (λ m. default_allowed m ≡ true) k known_models-default_allowed in
    let (allowed, a, i) = allowed_of_default m d ok e in
    (allowed, a, rw (IsKnown-trim k) (clamp_trimmed-In (trim effort) m d allowed a e i))

clamp_trimmed_no_default :
    (effort m : Str) → model_default_effort m ≡ none → clamp_trimmed effort m ≡ effort
unfolding clamp_trimmed
clamp_trimmed_no_default [] m e = rw e
clamp_trimmed_no_default (c ∷ s) m e = elim (Option-cases (model_allowed_efforts m)) [
  | inl free ↦ rw free
  | inr (allowed, a) ↦ rw (a, e) (if-both (λ x. x ≡ c ∷ s) (contains allowed (c ∷ s)) refl refl)
]

no_default : (model_default_effort gpt5 ≡ none) × (model_default_effort gpt5_codex ≡ none)
unfolding model_default_effort contains text_beq codes
no_default = (refl, refl)

trim_names : (trim gpt5 ≡ gpt5) × (trim gpt5_codex ≡ gpt5_codex)
unfolding trim codes
trim_names = (refl, refl)

-- `gpt-5` and `gpt-5-codex` have no default effort, and the clamp returns any effort asked for,
-- trimmed, whether the model accepts it or not.
pub clamp_no_default :
    (effort m : Str)
    → (m ≡ gpt5) ⊎ (m ≡ gpt5_codex)
    → clamp_reasoning_effort_for_model effort m ≡ trim effort
unfolding clamp_reasoning_effort_for_model
clamp_no_default effort m (inl e) =
    rw (e, trim_names.0) (clamp_trimmed_no_default (trim effort) gpt5 no_default.0)
clamp_no_default effort m (inr e) =
    rw (e, trim_names.1) (clamp_trimmed_no_default (trim effort) gpt5_codex no_default.1)
