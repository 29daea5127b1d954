-- ===== src/Model/Known.antt =====
-- The name that `normalize_model` of src/model.rs returns.
use codex_proxy_rs.Base.{
  Str, List, [], ◌∷◌, In, here, there, contains, contains-In, text_beq, codes, text_eq, true, false,
  false≢true, ◌≡◌, refl, sym, ap, ◌∙◌, Option, none, some, find-some, find, ==_iff, if-both, All,
  All-In, Bool-cases, inl, inr, is_empty, trim, to_ascii_lowercase, if◌then◌else◌, ◌==◌,
  contains_text, ◌||◌,
}
use Prim.Native.String.{String}
use codex_proxy_rs.Model.{
  known_models, exact_model, normalize_model, family_model, strip_effort, effort_suffixes, gpt5,
  gpt5_codex, gpt5_1, gpt5_1_codex, gpt5_1_codex_max, gpt5_2, gpt5_4, gpt5_2_codex, gpt5_3_codex,
  gpt5_3_codex_spark, gpt5_6_sol, gpt6_astra, gpt5_codex_mini, gpt5_1_codex_mini, gpt5_4_mini,
}

abbrev pub IsKnown : Str → Type 0
IsKnown m = In m known_models

pub known : (m : Str) → contains known_models m ≡ true → IsKnown m
known = contains-In known_models

exact_model-some : (id : Str) {m : Str} → exact_model id ≡ some m → IsKnown m × (m ≡ id)
unfolding exact_model
exact_model-some id h =
    let (m, t) = find-some (λ known. known == id) known_models h in (m, (==_iff _ id).0 t)

In-tail : {id m : Str} {ms : List Str} → In id (m ∷ ms) → (m == id) ≡ false → In id ms
In-tail {id} {m} (here e) f = absurd (false≢true (sym f ∙ (==_iff m id).1 e))
In-tail (there j) f = j

find_self : (id : Str) (ms : List Str) → In id ms → find (λ known. known == id) ms ≡ some id
unfolding find
find_self id [] i = elim i [ ]
find_self id (m ∷ ms) i = elim (Bool-cases (m == id)) [
  | inl same ↦ rw same (ap some ((==_iff m id).0 same))
  | inr other ↦ rw other (find_self id ms (In-tail i other))
]

exact_model-IsKnown : {m : Str} → IsKnown m → exact_model m ≡ some m
unfolding exact_model
exact_model-IsKnown {m} k = find_self m known_models k

family_known :
    IsKnown gpt6_astra
    × IsKnown gpt5_6_sol
    × IsKnown gpt5_2_codex
    × IsKnown gpt5_3_codex_spark
    × IsKnown gpt5_3_codex
    × IsKnown gpt5_4_mini
    × IsKnown gpt5_4
    × IsKnown gpt5_2
    × IsKnown gpt5_1_codex_max
    × IsKnown gpt5_1_codex_mini
    × IsKnown gpt5_1_codex
    × IsKnown gpt5_1
    × IsKnown gpt5_codex_mini
    × IsKnown gpt5_codex
    × IsKnown gpt5
unfolding contains text_beq codes
family_known = (
  known _ refl,
  known _ refl,
  known _ refl,
  known _ refl,
  known _ refl,
  known _ refl,
  known _ refl,
  known _ refl,
  known _ refl,
  known _ refl,
  known _ refl,
  known _ refl,
  known _ refl,
  known _ refl,
  known _ refl,
)

family_model-IsKnown : (lower : Str) → IsKnown (family_model lower)
unfolding family_model
family_model-IsKnown lower =
    let k = family_known in
    let has = λ (s : String). contains_text (codes s) lower in
    if-both IsKnown _ k.0 (
      if-both IsKnown _ k.1 (
        if-both IsKnown (has "gpt-5.2-codex") k.2 (
          if-both IsKnown (has "gpt-5.3-codex-spark") k.3 (
            if-both IsKnown (has "gpt-5.3-codex") k.4 (
              if-both IsKnown (has "gpt-5.4-mini") k.5 (
                if-both IsKnown (has "gpt-5.4") k.6 (
                  if-both IsKnown (has "gpt-5.2") k.7 (
                    if-both IsKnown (has "gpt-5.1-codex-max") k.8 (
                      if-both IsKnown (has "gpt-5.1-codex-mini") k.9 (
                        if-both IsKnown (has "gpt-5.1-codex") k.10 (
                          if-both IsKnown (has "gpt-5.1") k.11 (
                            if-both IsKnown (has "gpt-5-codex-mini") k.12 (
                              if-both IsKnown (has "mini") k.9 (
                                if-both IsKnown (has "4o") k.9 (
                                  if-both IsKnown (has "gpt-5-codex" || has "codex") k.13
                                    k.14)))))))))))))))

-- What `normalize_model` does with the stripped name.
stripped-IsKnown :
    (s : Str)
    → IsKnown (
        if is_empty s
        then gpt5
        else elim (exact_model s) [ some known ↦ known | none ↦ family_model s ])
stripped-IsKnown s = if-both IsKnown (is_empty s) family_known.14 (go (exact_model s) refl)
  where
    go :
        (o : Option Str)
        → exact_model s ≡ o
        → IsKnown (elim o [ some known ↦ known | none ↦ family_model s ])
    go none e = family_model-IsKnown s
    go (some m) e = (exact_model-some s e).0

-- Whatever the client asks for, the model that is sent upstream is one of `KNOWN_MODELS`.
pub normalize_model-IsKnown : (model : Str) → IsKnown (normalize_model model)
unfolding normalize_model
normalize_model-IsKnown model = go (exact_model lower) refl
  where
    lower : Str
    lower = to_ascii_lowercase (trim model)

    go :
        (o : Option Str)
        → exact_model lower ≡ o
        → IsKnown (elim o [
          | some known ↦ known
          | none ↦
              let stripped = strip_effort effort_suffixes lower in
              if is_empty stripped
              then gpt5
              else elim (exact_model stripped) [ some known ↦ known | none ↦ family_model stripped ]
        ])
    go none e = stripped-IsKnown (strip_effort effort_suffixes lower)
    go (some m) e = (exact_model-some lower e).0

-- The known names are in lower case, with no white space around them.
IsPlain : Str → Type 0
IsPlain m = (to_ascii_lowercase (trim m) ≡ m) × (trim m ≡ m)

known_models-IsPlain : All IsPlain known_models
unfolding IsPlain to_ascii_lowercase trim codes
known_models-IsPlain = (
  (refl, refl),
  (
    (refl, refl),
    (
      (refl, refl),
      (
        (refl, refl),
        (
          (refl, refl),
          (
            (refl, refl),
            (
              (refl, refl),
              (
                (refl, refl),
                (
                  (refl, refl),
                  (
                    (refl, refl),
                    (
                      (refl, refl),
                      (
                        (refl, refl),
                        (
                          (refl, refl),
                          (
                            (refl, refl),
                            ((refl, refl), ((refl, refl), ((refl, refl), ((refl, refl), tt)))),
                          ),
                        ),
                      ),
                    ),
                  ),
                ),
              ),
            ),
          ),
        ),
      ),
    ),
  ),
)

pub IsKnown-trim : {m : Str} → IsKnown m → trim m ≡ m
unfolding IsPlain
IsKnown-trim k = (All-In IsPlain k known_models-IsPlain).1

-- A known name, in any case and with white space around it, is served as itself: no effort suffix
-- is taken off it.
pub normalize_model_known :
    (model m : Str) → IsKnown m → to_ascii_lowercase (trim model) ≡ m → normalize_model model ≡ m
unfolding normalize_model
normalize_model_known model m k e = rw (e, normalize_model) (rw (exact_model-IsKnown k))

-- Normalising a model name a second time changes nothing.
pub normalize_model_idempotent :
    (model : Str) → normalize_model (normalize_model model) ≡ normalize_model model
unfolding IsPlain
normalize_model_idempotent model =
    let k = normalize_model-IsKnown model in
    normalize_model_known (normalize_model model) (normalize_model model) k
      (All-In IsPlain k known_models-IsPlain).0
