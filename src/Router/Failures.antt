-- ===== src/Router/Failures.antt =====
-- What a failed first attempt does to the cooldowns of the pool, in the handler of src/router.rs.
use codex_proxy_rs.Base.{
  ℕ, ◌+◌, ◌<◌, Bool, true, false, Option, none, some, Str, ◌≡◌, refl, sym, ◌∙◌, inl, inr, arith,
  ◌==◌, text_eq, ==_self, Bool-cases, is_empty,
}
use codex_proxy_rs.Pool.{
  Account, AccountPool, pick, is_cooling, is_model_cooling, cooldown, cooldown_model, cooldown_time,
}
use codex_proxy_rs.Pool.Cooling.{is_cooling-cooldown, is_model_cooling-cooldown_model}
use codex_proxy_rs.Pool.Pick.{pick_keeps}
use codex_proxy_rs.Router.{
  RouterState, Turn, Source, Backend, cool, request_to, fallback_or_error, fallback_or_error_single,
  finish_repin, repin, fail_over, finish_primary, choose, route, with_alternative,
}
use codex_proxy_rs.Router.Attempt.{Fallback, body, no_body, Primary, terminal, retry, classify}

-- Two pools agree on every cooldown of a slug.
pub record Agrees (slug : Str) (p q : AccountPool) : Type 0 where
  pub on_slug : (now : ℕ) → is_cooling p now slug ≡ is_cooling q now slug
  pub on_models :
      (now : ℕ) (model : Str)
      → is_model_cooling p now slug model ≡ is_model_cooling q now slug model

-- The accounts of a state are a pool that agrees with `q` on a slug.
abbrev Leaves : Str → AccountPool → Option AccountPool → Type 0
Leaves slug q accounts = (p : AccountPool) × (accounts ≡ some p) × Agrees slug p q

Agrees-pick :
    (slug : Str) (pool : AccountPool) (now : ℕ) (exclude : Option Str) (model : Str)
    → Agrees slug (pick pool now exclude model).1 pool
unfolding is_cooling is_model_cooling
Agrees-pick slug pool now exclude model =
    let (_, slugs, models) = pick_keeps pool now exclude model in
    record { on_slug = λ t. rw slugs; on_models = λ t m. rw models }

cool_model_keeps :
    (pool : AccountPool) (at : ℕ) (slug model : Str)
    → (cooldown_model pool at slug model).cooldown_until ≡ pool.cooldown_until
unfolding cooldown_model
cool_model_keeps pool at slug model = ground arith

cool_slug :
    (pool : AccountPool) (at now : ℕ) (other slug model : Str) (gate : Bool)
    → (other == slug) ≡ false
    → is_cooling (cool pool at other model gate) now slug ≡ is_cooling pool now slug
unfolding cool
cool_slug pool at now other slug model true ne =
    unfold is_cooling in rw (cool_model_keeps pool at other model)
cool_slug pool at now other slug model false ne = is_cooling-cooldown pool at now other slug ∙ rw ne

cool_models :
    (pool : AccountPool) (at now : ℕ) (other slug model named : Str) (gate : Bool)
    → (other == slug) ≡ false
    → is_model_cooling (cool pool at other model gate) now slug named
      ≡ is_model_cooling pool now slug named
unfolding cool
cool_models pool at now other slug model named true ne =
    is_model_cooling-cooldown_model pool at now other model slug named
    ∙ rw ne (elim (Bool-cases (is_empty named)) [
      | inl blank ↦ rw blank (sym (unfold is_model_cooling in rw blank))
      | inr given ↦ rw given
    ])
cool_models pool at now other slug model named false ne = unfold is_model_cooling cooldown in refl

Agrees-cool :
    (slug : Str) (pool q : AccountPool) (at : ℕ) (other model : Str) (gate : Bool)
    → (other == slug) ≡ false
    → Agrees slug pool q
    → Agrees slug (cool pool at other model gate) q
Agrees-cool slug pool q at other model gate ne h = record {
  on_slug = λ t. cool_slug pool at t other slug model gate ne ∙ h.on_slug t;
  on_models = λ t m. cool_models pool at t other slug model m gate ne ∙ h.on_models t m;
}

module _ {S : Type 0} (env : Backend S) (turn : Turn) where
  fallback_or_error-accounts :
      (state : RouterState S) (first : Fallback) (fp slug : Str)
      → ((fallback_or_error state first fp slug).0.accounts ≡ state.accounts)
        × ((fallback_or_error_single state first fp slug).0.accounts ≡ state.accounts)
  unfolding fallback_or_error fallback_or_error_single
  fallback_or_error-accounts state (body b) fp slug = (refl, refl)
  fallback_or_error-accounts state (no_body e) fp slug = (refl, refl)

  module _ (account : Account) (q : AccountPool) where
    finish_repin-Leaves :
        (picked : AccountPool) (state : RouterState S) (first : Fallback) (alt : Account)
        (answer : Primary)
        → (alt.slug == account.slug) ≡ false
        → state.accounts ≡ some picked
        → Agrees account.slug picked q
        → Leaves account.slug q
            (finish_repin env turn picked state account first alt answer).0.accounts
    unfolding finish_repin
    finish_repin-Leaves picked state first alt (terminal r) ne e h = (picked, e, h)
    finish_repin-Leaves picked state first alt (retry (body b) gate) ne e h = (
      _,
      refl,
      Agrees-cool account.slug picked q turn.times.refailed_at alt.slug turn.model gate ne h,
    )
    finish_repin-Leaves picked state first alt (retry (no_body x) gate) ne e h =
        (picked, (fallback_or_error-accounts state first turn.fp account.slug).0 ∙ e, h)

    with_alternative-Leaves :
        (picked : AccountPool) (state : RouterState S) (first : Fallback) (alt : Option Account)
        → state.accounts ≡ some picked
        → Agrees account.slug picked q
        → Leaves account.slug q
            (with_alternative env turn picked state account first alt).0.accounts
    unfolding with_alternative repin
    with_alternative-Leaves picked state first none e h =
        (picked, (fallback_or_error-accounts state first turn.fp account.slug).1 ∙ e, h)
    with_alternative-Leaves picked state first (some alt) e h =
        elim (Bool-cases (alt.slug == account.slug)) [
          | inl same ↦
              rw same
                (picked, (fallback_or_error-accounts state first turn.fp account.slug).1 ∙ e, h)
          | inr other ↦ rw other (finish_repin-Leaves picked _ first alt _ other e h)
        ]

  fail_over-Leaves :
      (pool : AccountPool) (state : RouterState S) (account : Account) (first : Fallback)
      (gate : Bool)
      → Leaves account.slug
          (cool pool turn.times.failed_at account.slug turn.model gate)
          (fail_over env turn pool state account first gate).0.accounts
  unfolding fail_over
  fail_over-Leaves pool state account first gate =
      with_alternative-Leaves account _ _ _ first _ refl (
        Agrees-pick account.slug (cool pool turn.times.failed_at account.slug turn.model gate)
          turn.times.repicked_at (some account.slug) turn.model)

  route-Leaves :
      (pool chosen : AccountPool) (state : RouterState S) (account : Account) (source : Source)
      (first : Fallback) (gate : Bool)
      → choose env turn pool state.affinity ≡ some (account, chosen, source)
      → classify (env.send (request_to turn account)) ≡ retry first gate
      → Leaves account.slug
          (cool chosen turn.times.failed_at account.slug turn.model gate)
          (route env turn pool state).0.accounts
  unfolding route finish_primary
  route-Leaves pool chosen state account source first gate c t =
      rw c (rw t (fail_over-Leaves chosen _ account first gate))

  -- After a first attempt that failed account-wide (429, 5xx, or no connection) the account's slug
  -- is cooling for the next 60 seconds, whatever the second attempt does, and no model of it is
  -- newly cooling.
  pub route_cools_account :
      (pool chosen : AccountPool) (state : RouterState S) (account : Account) (source : Source)
      (first : Fallback)
      → choose env turn pool state.affinity ≡ some (account, chosen, source)
      → classify (env.send (request_to turn account)) ≡ retry first false
      → (after : AccountPool) × ((route env turn pool state).0.accounts ≡ some after)
        × ((now : ℕ)
            → now < turn.times.failed_at + cooldown_time
            → is_cooling after now account.slug ≡ true)
        × ((now : ℕ) (model : Str)
            → is_model_cooling after now account.slug model
              ≡ is_model_cooling chosen now account.slug model)
  unfolding cool
  route_cools_account pool chosen state account source first c t =
      let (after, e, h) = route-Leaves pool chosen state account source first false c t in
      (
        after,
        e,
        (λ now lt.
            h.on_slug now
            ∙ is_cooling-cooldown chosen turn.times.failed_at now account.slug account.slug
            ∙ rw (==_self account.slug) (ground arith)),
        (λ now model. h.on_models now model ∙ (unfold is_model_cooling cooldown in refl)),
      )

  -- After a first attempt that the account's plan refused (a tier gate), for a model whose name is
  -- not empty, the pair of slug and model is cooling for the next 60 seconds. Whether the slug as a
  -- whole cools, and whether it does for another model, is at every time as it was when the account
  -- was chosen.
  pub route_cools_model :
      (pool chosen : AccountPool) (state : RouterState S) (account : Account) (source : Source)
      (first : Fallback)
      → choose env turn pool state.affinity ≡ some (account, chosen, source)
      → classify (env.send (request_to turn account)) ≡ retry first true
      → is_empty turn.model ≡ false
      → (after : AccountPool) × ((route env turn pool state).0.accounts ≡ some after)
        × ((now : ℕ)
            → now < turn.times.failed_at + cooldown_time
            → is_model_cooling after now account.slug turn.model ≡ true)
        × ((now : ℕ) → is_cooling after now account.slug ≡ is_cooling chosen now account.slug)
        × ((now : ℕ) (model : Str)
            → (turn.model == model) ≡ false
            → is_model_cooling after now account.slug model
              ≡ is_model_cooling chosen now account.slug model)
  unfolding cool
  route_cools_model pool chosen state account source first c t named =
      let (after, e, h) = route-Leaves pool chosen state account source first true c t in
      let at = turn.times.failed_at in
      let gated = λ (now : ℕ) (model : Str).
        h.on_models now model
        ∙ is_model_cooling-cooldown_model chosen at now account.slug turn.model account.slug
            model in
      (
        after,
        e,
        (λ now lt.
            gated now turn.model
            ∙ rw (named, ==_self account.slug, ==_self turn.model) (ground arith)),
        (λ now.
            h.on_slug now
            ∙ (unfold is_cooling in rw (cool_model_keeps chosen at account.slug turn.model))),
        (λ now model ne.
            gated now model
            ∙ rw (==_self account.slug, ne)
                (elim (Bool-cases (is_empty model)) [
                  | inl blank ↦ rw blank (sym (unfold is_model_cooling in rw blank))
                  | inr given ↦ rw given
                ])),
      )
