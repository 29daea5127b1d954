-- ===== src/Checks/RouterChecks.antt =====
-- Runs of the handler of src/router.rs against two pods.
use codex_proxy_rs.Base.{
  ℕ, true, false, [], ◌∷◌, none, some, Str, Bytes, codes, ◌≡◌, ◌≢◌, refl, text_beq, text_eq, ◌==◌,
  lookup, strip_prefix, if◌then◌else◌, find, contains_text, ◌⊎◌, ◌<◌, ◌+◌, is_empty,
}
use codex_proxy_rs.Affinity.{PinMap, memory_store, memory_store-IsReliable, memory_get}
use codex_proxy_rs.Http.{PodResponse, Response, ok}
use codex_proxy_rs.Json.{Value, text, object, field, end}
use codex_proxy_rs.Pool.{Account, AccountPool, pinned, is_cooling, is_model_cooling, cooldown_time}
use codex_proxy_rs.Router.{
  RouterState, Inbound, Times, Turn, from_pin, Backend, choose, first_choice, pinned_slug, proxy,
  route, request_to, turn_of,
}
use codex_proxy_rs.Router.Attempt.{
  answered, proxy_to_pod, classify, classify_400, is_retryable, retry, body, response, buffered,
}
use codex_proxy_rs.Router.Attempts.{Attempts, proxy-Attempts}
use codex_proxy_rs.Router.Pins.{route-IsSettled, IsSettled}
use codex_proxy_rs.Router.Failures.{route_cools_account, route_cools_model}
use codex_proxy_rs.Router.Answers.{route_answers}

abbrev alice : Account
alice = record { slug = codes "a"; url = codes "http://a" }

abbrev bob : Account
bob = record { slug = codes "b"; url = codes "http://b" }

abbrev pods : AccountPool
pods = record {
  accounts = alice ∷ bob ∷ [];
  next = 0;
  cooldown_until = [];
  model_cooldown_until = [];
}

abbrev answer_of : ℕ → Bytes → PodResponse
answer_of status bytes = record { status = status; headers = []; body = some bytes }

-- The pod of `alice` answers with `status`, that of `bob` with 200.
abbrev pods_with : PodResponse → Backend PinMap
pods_with alice_says = record {
  store = memory_store;
  send = λ request.
      if request.url == codes "http://a/v1"
      then answered alice_says
      else answered (answer_of 200 []);
  from_slice = λ bytes. some (object (field (codes "model") (text (codes "m")) end));
  hash_to_uuid = λ s. s;
}

abbrev rate_limited : PodResponse
rate_limited = answer_of 429 []

abbrev tier_gated : PodResponse
tier_gated = answer_of 400 (codes "model is not supported when using Codex with a ChatGPT account")

abbrev times : Times
times = record { pinned_at = 1; picked_at = 2; failed_at = 3; repicked_at = 4; refailed_at = 5 }

abbrev turn : Turn
turn = record {
  key = some (codes "k");
  fp = codes "k";
  model = codes "m";
  target = codes "/v1";
  bearer = codes "t";
  headers = [];
  body = [];
  times = times;
}

abbrev start : RouterState PinMap
start = record {
  accounts = some pods;
  admin_api_key = some (codes "t");
  affinity = some ((codes "k", record { slug = codes "a"; model = codes "m" }) ∷ []);
  sent = [];
  logs = [];
}

abbrev inbound : Inbound
inbound = record {
  headers = (codes "x-conversation-id", codes "k") ∷ [];
  path = codes "/v1";
  path_and_query = none;
  body = [];
}

pods_exist : pods.accounts ≢ []
pods_exist e = cc

chosen :
    (alice_says : PodResponse)
    → choose (pods_with alice_says) turn pods start.affinity ≡ some (alice, pods, from_pin)
unfolding choose first_choice pinned_slug memory_get pinned is_cooling is_model_cooling lookup find
    text_beq codes
chosen alice_says = refl

sent_to_alice :
    (alice_says : PodResponse)
    → (pods_with alice_says).send (request_to turn alice) ≡ answered alice_says
unfolding request_to proxy_to_pod text_beq codes
sent_to_alice alice_says = refl

limited :
    classify ((pods_with rate_limited).send (request_to turn alice))
    ≡ retry (body (response rate_limited)) false
unfolding request_to proxy_to_pod text_beq codes classify is_retryable
limited = refl

gated :
    classify ((pods_with tier_gated).send (request_to turn alice))
    ≡ retry (body (buffered (classify_400 tier_gated))) true
unfolding request_to proxy_to_pod text_beq codes classify classify_400 contains_text strip_prefix
gated = refl

proxy-Attempts_example :
    ((proxy (pods_with rate_limited) start inbound times).0.sent ≡ start.sent)
    ⊎ ((pool : AccountPool) × (bearer : Str) × (request : Value) × (start.accounts ≡ some pool)
        × (start.admin_api_key ≡ some bearer)
        × ((pods_with rate_limited).from_slice inbound.body ≡ some request)
        × Attempts
            (turn_of (pods_with rate_limited) inbound times bearer request)
            pool
            start.sent
            (proxy (pods_with rate_limited) start inbound times).0.sent)
proxy-Attempts_example = proxy-Attempts (pods_with rate_limited) start inbound times

route-IsSettled_example :
    IsSettled
      (pods_with rate_limited)
      turn
      (codes "k")
      refl
      pods
      ((codes "k", record { slug = codes "a"; model = codes "m" }) ∷ [])
      (route (pods_with rate_limited) turn pods start).0.affinity
route-IsSettled_example =
    route-IsSettled (pods_with rate_limited) turn (codes "k") refl memory_store-IsReliable pods
      start ((codes "k", record { slug = codes "a"; model = codes "m" }) ∷ []) refl pods_exist

route_cools_account_example :
    (after : AccountPool) × ((route (pods_with rate_limited) turn pods start).0.accounts
      ≡ some after)
    × ((now : ℕ) → now < 3 + cooldown_time → is_cooling after now (codes "a") ≡ true)
    × ((now : ℕ) (model : Str)
        → is_model_cooling after now (codes "a") model
          ≡ is_model_cooling pods now (codes "a") model)
route_cools_account_example =
    route_cools_account (pods_with rate_limited) turn pods pods start alice from_pin
      (body (response rate_limited)) (chosen rate_limited) limited

turn_named : is_empty turn.model ≡ false
unfolding codes
turn_named = refl

route_cools_model_example :
    (after : AccountPool) × ((route (pods_with tier_gated) turn pods start).0.accounts ≡ some after)
    × ((now : ℕ)
        → now < 3 + cooldown_time
        → is_model_cooling after now (codes "a") (codes "m") ≡ true)
    × ((now : ℕ) → is_cooling after now (codes "a") ≡ is_cooling pods now (codes "a"))
    × ((now : ℕ) (model : Str)
        → (codes "m" == model) ≡ false
        → is_model_cooling after now (codes "a") model
          ≡ is_model_cooling pods now (codes "a") model)
route_cools_model_example =
    route_cools_model (pods_with tier_gated) turn pods pods start alice from_pin
      (body (buffered (classify_400 tier_gated))) (chosen tier_gated) gated turn_named

route_answers_example : (r : Response) × ((route (pods_with rate_limited) turn pods start).1 ≡ ok r)
route_answers_example =
    route_answers (pods_with rate_limited) turn pods pods start alice from_pin rate_limited
      (chosen rate_limited) (sent_to_alice rate_limited)
