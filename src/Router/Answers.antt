-- ===== src/Router/Answers.antt =====
-- The answer that the client of the router gets: `proxy` of src/router.rs.
use codex_proxy_rs.Base.{
  Option, none, some, ◌≡◌, refl, inl, inr, ◌==◌, text_eq, Str, if-both, Bool-cases, nat_eq,
}
use codex_proxy_rs.Http.{Response, ok, PodResponse, Outcome}
use codex_proxy_rs.Pool.{Account, AccountPool}
use codex_proxy_rs.Router.{
  RouterState, Turn, Source, Backend, request_to, fallback_or_error, fallback_or_error_single,
  finish_repin, repin, fail_over, finish_primary, choose, route, with_alternative,
}
use codex_proxy_rs.Router.Attempt.{
  body, no_body, Primary, terminal, retry, classify, FallbackBody, answered, is_retryable,
  classify_400,
}

-- An attempt that reached its pod leaves something to answer with.
abbrev HasAnswer : Primary → Type 0
HasAnswer (terminal r) = Unit
HasAnswer (retry (body b) gate) = Unit
HasAnswer (retry (no_body e) gate) = ⊥

classify-HasAnswer : (resp : PodResponse) → HasAnswer (classify (answered resp))
unfolding classify
classify-HasAnswer resp =
    if-both HasAnswer (resp.status == 400) (if-both HasAnswer (classify_400 resp).tier_gate tt tt)
      (if-both HasAnswer (is_retryable resp.status) tt tt)

-- The client gets a response, of a pod, and no error of the router.
abbrev Answers {ℓ} : {A : Type ℓ} → A × Outcome Response → Type 0
Answers result = (r : Response) × (result.1 ≡ ok r)

module _ {S : Type 0} (env : Backend S) (turn : Turn) where
  fallback_or_error-Answers :
      (state : RouterState S) (b : FallbackBody) (fp slug : Str)
      → Answers (fallback_or_error state (body b) fp slug)
        × Answers (fallback_or_error_single state (body b) fp slug)
  unfolding fallback_or_error fallback_or_error_single
  fallback_or_error-Answers state b fp slug = ((_, refl), (_, refl))

  finish_repin-Answers :
      (pool : AccountPool) (state : RouterState S) (account : Account) (b : FallbackBody)
      (alt : Account) (answer : Primary)
      → Answers (finish_repin env turn pool state account (body b) alt answer)
  unfolding finish_repin
  finish_repin-Answers pool state account b alt (terminal r) = (r, refl)
  finish_repin-Answers pool state account b alt (retry (body c) gate) = (_, refl)
  finish_repin-Answers pool state account b alt (retry (no_body x) gate) =
      (fallback_or_error-Answers state b turn.fp account.slug).0

  with_alternative-Answers :
      (pool : AccountPool) (state : RouterState S) (account : Account) (b : FallbackBody)
      (alt : Option Account)
      → Answers (with_alternative env turn pool state account (body b) alt)
  unfolding with_alternative repin
  with_alternative-Answers pool state account b none =
      (fallback_or_error-Answers state b turn.fp account.slug).1
  with_alternative-Answers pool state account b (some alt) =
      elim (Bool-cases (alt.slug == account.slug)) [
        | inl same ↦ rw same (fallback_or_error-Answers state b turn.fp account.slug).1
        | inr other ↦ rw other (finish_repin-Answers pool _ account b alt _)
      ]

  finish_primary-Answers :
      (pool : AccountPool) (state : RouterState S) (account : Account) (source : Source)
      (answer : Primary)
      → HasAnswer answer
      → Answers (finish_primary env turn pool state account source answer)
  unfolding finish_primary fail_over
  finish_primary-Answers pool state account source (terminal r) h = (r, refl)
  finish_primary-Answers pool state account source (retry (body b) gate) h =
      with_alternative-Answers _ _ account b _
  finish_primary-Answers pool state account source (retry (no_body e) gate) h = absurd h

  -- Once the first account's pod has answered, whatever its status, the client gets a response: a
  -- failed second attempt never turns it into an error of the router.
  pub route_answers :
      (pool chosen : AccountPool) (state : RouterState S) (account : Account) (source : Source)
      (resp : PodResponse)
      → choose env turn pool state.affinity ≡ some (account, chosen, source)
      → env.send (request_to turn account) ≡ answered resp
      → (r : Response) × ((route env turn pool state).1 ≡ ok r)
  unfolding route
  route_answers pool chosen state account source resp c a = rw c (
      rw a (
        finish_primary-Answers chosen _ account source (classify (answered resp))
          (classify-HasAnswer resp)))
