-- ===== src/Router/Attempts.antt =====
-- The requests that the handler of src/router.rs sends to pods.
use codex_proxy_rs.Base.{
  ℕ, Bool, List, [], ◌∷◌, ◌++◌, Option, none, some, Str, ◌≡◌, ◌≢◌, refl, sym, ap, subst, ◌∙◌, ◌⊎◌,
  In, inl, inr, arith, ◌==◌, text_eq, ==_iff, Bool-cases, false≢true,
}
use codex_proxy_rs.Json.{Value, ◌>>=◌}
use codex_proxy_rs.Pool.{Account, AccountPool, cooldown, cooldown_model, pinned}
use codex_proxy_rs.Pool.Cooling.{pinned-some}
use codex_proxy_rs.Pool.Pick.{pick-In, pick_keeps}
use codex_proxy_rs.Router.{
  RouterState, Inbound, Times, Turn, Source, from_pin, Backend, cool, request_to, fallback_or_error,
  fallback_or_error_single, finish_repin, repin, fail_over, finish_primary, choose, route, proxy,
  turn_of, maybe_pin, pinned_slug, first_choice, with_alternative, attempt, proxy_with,
}
use codex_proxy_rs.Router.Attempt.{PodRequest, Fallback, body, no_body, Primary, terminal, retry}

pub cool-accounts :
    (pool : AccountPool) (now : ℕ) (slug model : Str) (tier_gate : Bool)
    → (cool pool now slug model tier_gate).accounts ≡ pool.accounts
unfolding cool cooldown cooldown_model
cool-accounts pool now slug model tier_gate = ground arith

-- Which of the two choices was made.
pub first_choice-cases :
    (pool : AccountPool) (live : Option Account) (picked : Option Account × AccountPool)
    (label : Source) {account : Account} {chosen : AccountPool} {source : Source}
    → first_choice pool live picked label ≡ some (account, chosen, source)
    → ((live ≡ some account) × (chosen ≡ pool) × (source ≡ from_pin))
      ⊎ ((picked.0 ≡ some account) × (chosen ≡ picked.1) × (source ≡ label))
unfolding first_choice
first_choice-cases pool (some a) picked label h = inl (ground arith, ground arith, ground arith)
first_choice-cases pool none (some a, pool') label h =
    inr (ground arith, ground arith, ground arith)
first_choice-cases pool none (none, pool') label h = cc

>>=-eq-some :
    {A B : Type 0} (o : Option A) (f : A → Option B) {b : B}
    → (o >>= f) ≡ some b
    → (a : A) × (o ≡ some a) × (f a ≡ some b)
>>=-eq-some none f h = cc
>>=-eq-some (some a) f h = (a, refl, h)

-- How the requests after a run of the handler follow from those before it: no request; one, to an
-- account of the pool; or two, to accounts of the pool with different slugs.
pub data Attempts (turn : Turn) (pool : AccountPool) (before after : List PodRequest) : Type 0 where
  nothing : after ≡ before → Attempts turn pool before after
  one :
      (a : Account)
      → In a pool.accounts
      → after ≡ before ++ (request_to turn a ∷ [])
      → Attempts turn pool before after
  two :
      (a b : Account)
      → In a pool.accounts
      → In b pool.accounts
      → b.slug ≢ a.slug
      → after ≡ (before ++ (request_to turn a ∷ [])) ++ (request_to turn b ∷ [])
      → Attempts turn pool before after

module _ {S : Type 0} (env : Backend S) (turn : Turn) where
  fallback_or_error-sent :
      (state : RouterState S) (first : Fallback) (fp slug : Str)
      → (fallback_or_error state first fp slug).0.sent ≡ state.sent
  unfolding fallback_or_error
  fallback_or_error-sent state (body b) fp slug = refl
  fallback_or_error-sent state (no_body e) fp slug = refl

  fallback_or_error_single-sent :
      (state : RouterState S) (first : Fallback) (fp slug : Str)
      → (fallback_or_error_single state first fp slug).0.sent ≡ state.sent
  unfolding fallback_or_error_single
  fallback_or_error_single-sent state (body b) fp slug = refl
  fallback_or_error_single-sent state (no_body e) fp slug = refl

  maybe_pin-sent :
      (state : RouterState S) (key : Option Str) (slug model : Str) (source : Source)
      → (maybe_pin env state key slug model source).sent ≡ state.sent
  unfolding maybe_pin
  maybe_pin-sent state key slug model source = ground arith

  finish_repin-sent :
      (pool : AccountPool) (state : RouterState S) (account : Account) (first : Fallback)
      (alt : Account) (answer : Primary)
      → (finish_repin env turn pool state account first alt answer).0.sent ≡ state.sent
  unfolding finish_repin
  finish_repin-sent pool state account first alt (terminal r) = refl
  finish_repin-sent pool state account first alt (retry (body b) gate) = refl
  finish_repin-sent pool state account first alt (retry (no_body e) gate) =
      fallback_or_error-sent state first turn.fp account.slug

  with_alternative-sent :
      (pool : AccountPool) (state : RouterState S) (account : Account) (first : Fallback)
      (alt : Option Account)
      → ((with_alternative env turn pool state account first alt).0.sent ≡ state.sent)
        ⊎ ((b : Account) × (alt ≡ some b)
            × (b.slug ≢ account.slug)
            × ((with_alternative env turn pool state account first alt).0.sent
                ≡ state.sent ++ (request_to turn b ∷ [])))
  unfolding with_alternative repin
  with_alternative-sent pool state account first none =
      inl (fallback_or_error_single-sent state first turn.fp account.slug)
  with_alternative-sent pool state account first (some b) =
      elim (Bool-cases (b.slug == account.slug)) [
        | inl same ↦ inl (rw same (fallback_or_error_single-sent state first turn.fp account.slug))
        | inr other ↦ inr (
          b,
          refl,
          (λ e. false≢true (sym other ∙ (==_iff b.slug account.slug).1 e)),
          rw other (finish_repin-sent pool _ account first b _),
        )
      ]

  -- After a failed first attempt there is at most one more, to an account with another slug.
  fail_over-sent :
      (pool : AccountPool) (state : RouterState S) (account : Account) (first : Fallback)
      (tier_gate : Bool)
      → ((fail_over env turn pool state account first tier_gate).0.sent ≡ state.sent)
        ⊎ ((b : Account) × In b pool.accounts
            × (b.slug ≢ account.slug)
            × ((fail_over env turn pool state account first tier_gate).0.sent
                ≡ state.sent ++ (request_to turn b ∷ [])))
  unfolding fail_over
  fail_over-sent pool state account first tier_gate =
      elim (with_alternative-sent _ _ account first _) [
        | inl stop ↦ inl stop
        | inr (b, picked, ne, more) ↦ inr (
          b,
          subst (In b) (cool-accounts pool turn.times.failed_at account.slug turn.model tier_gate)
              (pick-In _ _ _ _ picked),
          ne,
          more,
        )
      ]

  finish_primary-Attempts :
      (pool chosen : AccountPool) (state : RouterState S) (account : Account) (source : Source)
      (before : List PodRequest) (answer : Primary)
      → In account pool.accounts
      → chosen.accounts ≡ pool.accounts
      → state.sent ≡ before ++ (request_to turn account ∷ [])
      → Attempts turn pool before
          (finish_primary env turn chosen state account source answer).0.sent
  unfolding finish_primary
  finish_primary-Attempts pool chosen state account source before (terminal r) m same e =
      one account m (maybe_pin-sent state turn.key account.slug turn.model source ∙ e)
  finish_primary-Attempts pool chosen state account source before (retry first gate) m same e =
      elim (fail_over-sent chosen state account first gate) [
        | inl stop ↦ one account m (stop ∙ e)
        | inr (b, n, ne, more) ↦
            two account b m (subst (In b) same n) ne
              (more ∙ ap (λ s. s ++ (request_to turn b ∷ [])) e)
      ]

  -- The account that is tried first is one of the pool, and choosing it keeps the accounts.
  pub choose-In :
      (pool chosen : AccountPool) (affinity : Option S) (account : Account) (source : Source)
      → choose env turn pool affinity ≡ some (account, chosen, source)
      → In account pool.accounts × (chosen.accounts ≡ pool.accounts)
  unfolding choose
  choose-In pool chosen affinity account source h = elim (first_choice-cases pool _ _ _ h) [
    | inl (live, same, _) ↦
        let (slug, found, usable) =
          >>=-eq-some (pinned_slug env affinity turn.key)
            (λ slug. pinned pool turn.times.pinned_at slug turn.model) live in
        (
          (pinned-some pool turn.times.pinned_at slug turn.model usable).0,
          ap (λ (p : AccountPool). p.accounts) same,
        )
    | inr (picked, same, _) ↦ (
      pick-In pool turn.times.picked_at none turn.model picked,
      ap (λ (p : AccountPool). p.accounts) same
          ∙ (pick_keeps pool turn.times.picked_at none turn.model).0,
    )
  ]

  route-Attempts :
      (pool : AccountPool) (state : RouterState S)
      → Attempts turn pool state.sent (route env turn pool state).0.sent
  unfolding route
  route-Attempts pool state = go (choose env turn pool state.affinity) refl
    where
      go :
          (o : Option (Account × AccountPool × Source))
          → choose env turn pool state.affinity ≡ o
          → Attempts turn pool state.sent (attempt env turn state o).0.sent
      go none e = nothing refl
      go (some (account, chosen, source)) e =
          let (m, same) = choose-In pool chosen state.affinity account source e in
          finish_primary-Attempts pool chosen _ account source state.sent _ m same refl

-- One run of the handler sends at most two requests, all to accounts of the configured pool, and a
-- second request goes to an account with another slug than the first. With no pool, no admin key
-- or a body that is not JSON it sends none.
pub proxy-Attempts :
    {S : Type 0} (env : Backend S) (state : RouterState S) (inbound : Inbound) (times : Times)
    → ((proxy env state inbound times).0.sent ≡ state.sent)
      ⊎ ((pool : AccountPool) × (bearer : Str) × (request : Value) × (state.accounts ≡ some pool)
          × (state.admin_api_key ≡ some bearer)
          × (env.from_slice inbound.body ≡ some request)
          × Attempts
              (turn_of env inbound times bearer request)
              pool
              state.sent
              (proxy env state inbound times).0.sent)
unfolding proxy
proxy-Attempts env state inbound times = go state.accounts state.admin_api_key _ refl refl refl
  where
    go :
        (o : Option AccountPool) (k : Option Str) (v : Option Value)
        → state.accounts ≡ o
        → state.admin_api_key ≡ k
        → env.from_slice inbound.body ≡ v
        → ((proxy_with env state inbound times o k v).0.sent ≡ state.sent)
          ⊎ ((pool : AccountPool) × (bearer : Str) × (request : Value) × (state.accounts
                ≡ some pool)
              × (state.admin_api_key ≡ some bearer)
              × (env.from_slice inbound.body ≡ some request)
              × Attempts
                  (turn_of env inbound times bearer request)
                  pool
                  state.sent
                  (proxy_with env state inbound times o k v).0.sent)
    go none k v p q r = inl refl
    go (some pool) none v p q r = inl refl
    go (some pool) (some bearer) none p q r = inl refl
    go (some pool) (some bearer) (some request) p q r = inr (
      pool,
      bearer,
      request,
      p,
      q,
      r,
      route-Attempts env (turn_of env inbound times bearer request) pool state,
    )
