-- ===== src/Router.antt =====
-- Router mode: the handler `proxy` of src/router.rs, as a function from the state of the router to
-- its new state and its answer.
pub mod Attempt
pub mod Attempts
pub mod Pins
pub mod Answers
pub mod Failures
use codex_proxy_rs.Base.{
  ℕ, ◌||◌, ◌&&◌, Bool, true, false, not, List, [], ◌∷◌, ◌++◌, Option, none, some, Str, Bytes,
  if◌then◌else◌, ◌==◌, text_eq, nat_eq, codes, lookup, contains_text, leb, ltb, get_or,
}
use codex_proxy_rs.Affinity.{Pin, AffinityStore}
use codex_proxy_rs.Conversation.{resolve_conversation_key}
use codex_proxy_rs.Http.{
  Headers, header_str, PodResponse, full, Response, sanitized_headers, proxy_response, bad_request,
  admin_not_configured, internal, Outcome, ok, err,
}
use codex_proxy_rs.Json.{Value, get_str, ◌>>=◌}
use codex_proxy_rs.Pool.{Account, AccountPool, cooldown, cooldown_model, pinned, pick}
use Attempt.{
  PodRequest, Sent, answered, failed, proxy_to_pod, Buffered400, FallbackBody, fallback_response,
  Fallback, body, no_body, Primary, terminal, retry, classify,
}

-- The labels of `account_source`.
pub data Source : Type 0 where
  from_pin new fallback repinned repin_failed single : Source

-- What `log_route` records.
pub record RouteLog : Type 0 where
  pub conversation_key_fp : Str
  pub slug : Str
  pub source : Source
  pub status : ℕ

-- The parts of `AppState` that the handler reads and changes, the requests sent to pods, and the
-- log lines, both in order.
pub record RouterState (S : Type 0) : Type 0 where
  pub accounts : Option AccountPool
  pub admin_api_key : Option Str
  pub affinity : Option S
  pub sent : List PodRequest
  pub logs : List RouteLog

pub record Inbound : Type 0 where
  pub headers : Headers
  pub path : Str
  pub path_and_query : Option Str
  pub body : Bytes

-- The readings of the clock, in the order in which the handler makes them.
pub record Times : Type 0 where
  pub pinned_at : ℕ
  pub picked_at : ℕ
  pub failed_at : ℕ
  pub repicked_at : ℕ
  pub refailed_at : ℕ

-- How a picked account is labelled.
abbrev pub pick_source {ℓ} : {S : Type ℓ} → Option S → Source
pick_source none = fallback
pick_source (some s) = new

abbrev pub is_fallback : Source → Bool
is_fallback fallback = true
is_fallback _ = false

-- What one conversation turn carries through the handler.
pub record Turn : Type 0 where
  pub key : Option Str
  pub fp : Str
  pub model : Str
  pub target : Str
  pub bearer : Str
  pub headers : Headers
  pub body : Bytes
  pub times : Times

unfoldable pub request_to : Turn → Account → PodRequest
request_to turn account = proxy_to_pod account.url turn.target turn.bearer turn.headers turn.body

-- The cooldown of a failed attempt: of the pair of slug and model for a tier gate, else of the slug.
unfoldable pub cool : AccountPool → ℕ → Str → Str → Bool → AccountPool
cool pool now slug model tier_gate =
    if tier_gate then cooldown_model pool now slug model else cooldown pool now slug

module _ {S : Type 0} where
  unfoldable pub log_route : RouterState S → Str → Str → Source → ℕ → RouterState S
  log_route state fp slug source status = record state {
    logs =
        state.logs
        ++ (record { conversation_key_fp = fp; slug = slug; source = source; status = status }
            ∷ []);
  }

  unfoldable pub fallback_or_error :
      RouterState S → Fallback → Str → Str → RouterState S × Outcome Response
  unfolding log_route
  fallback_or_error state (body b) fp first_slug =
      let r = fallback_response b in (log_route state fp first_slug repin_failed r.status, ok r)
  fallback_or_error state (no_body e) fp first_slug =
      (state, err (internal (codes "router: all codex accounts unreachable")))

  unfoldable pub fallback_or_error_single :
      RouterState S → Fallback → Str → Str → RouterState S × Outcome Response
  unfolding log_route
  fallback_or_error_single state (body b) fp slug =
      let r = fallback_response b in (log_route state fp slug single r.status, ok r)
  fallback_or_error_single state (no_body e) fp slug =
      (state, err (internal (codes "router: codex account unreachable")))

-- The primary account, the pool after it was chosen, and how it was chosen: the live pin, if
-- there is one, else the account picked, if any.
unfoldable pub first_choice :
    AccountPool
    → Option Account
    → Option Account × AccountPool
    → Source
    → Option (Account × AccountPool × Source)
first_choice pool (some a) picked source = some (a, pool, from_pin)
first_choice pool none (some a, pool') source = some (a, pool', source)
first_choice pool none (none, pool') source = none

-- What the handler takes from outside: the store of pins, what comes back from a pod, the reader of
-- JSON text, and the digest of a text.
pub record Backend (S : Type 0) : Type 0 where
  pub store : AffinityStore S
  pub send : PodRequest → Sent
  pub from_slice : Bytes → Option Value
  pub hash_to_uuid : Str → Str

module _ {S : Type 0} (env : Backend S) where
  open env use {store, send, from_slice, hash_to_uuid}

  abbrev pub Result : Type 0
  Result = RouterState S × Outcome Response

  -- Put a pin, or clear one, where there are a store and a key.
  unfoldable pub put_pin : Option S → Option Str → Pin → Option S
  put_pin (some s) (some key) pin = some (store.put s key pin)
  put_pin affinity _ pin = affinity

  unfoldable pub clear_pin : Option S → Option Str → Option S
  clear_pin (some s) (some key) = some (store.clear s key)
  clear_pin affinity _ = affinity

  unfoldable pub pinned_slug : Option S → Option Str → Option Str
  pinned_slug (some s) (some key) = elim (store.get s key) [ none ↦ none | some p ↦ some p.slug ]
  pinned_slug _ _ = none

  unfoldable pub maybe_pin : RouterState S → Option Str → Str → Str → Source → RouterState S
  unfolding put_pin
  maybe_pin state key slug model source = if is_fallback source then state else record state {
    affinity = put_pin state.affinity key (record { slug = slug; model = model });
  }

  -- The second attempt, on another account, from the classified answer on.
  unfoldable pub finish_repin :
      Turn → AccountPool → RouterState S → Account → Fallback → Account → Primary → Result
  unfolding maybe_pin log_route fallback_or_error cool
  finish_repin turn pool state account first alt (terminal answer) =
      let state = maybe_pin state turn.key alt.slug turn.model repinned in
      (log_route state turn.fp alt.slug repinned answer.status, ok answer)
  finish_repin turn pool state account first alt (retry (no_body e) tier_gate) =
      fallback_or_error state first turn.fp account.slug
  finish_repin turn pool state account first alt (retry (body b) tier_gate) =
      let cooled = cool pool turn.times.refailed_at alt.slug turn.model tier_gate in
      let answer = fallback_response b in
      (
        log_route (record state { accounts = some cooled }) turn.fp alt.slug repin_failed
            answer.status,
        ok answer,
      )

  unfoldable pub repin : Turn → AccountPool → RouterState S → Account → Fallback → Account → Result
  unfolding finish_repin request_to
  repin turn pool state account first alt =
      let request = request_to turn alt in
      finish_repin turn pool (record state { sent = state.sent ++ (request ∷ []) }) account first
        alt (classify (send request))

  -- The `match` on the second pick: another account is tried, and only another one.
  unfoldable pub with_alternative :
      Turn → AccountPool → RouterState S → Account → Fallback → Option Account → Result
  with_alternative turn pool state account first none =
      fallback_or_error_single state first turn.fp account.slug
  with_alternative turn pool state account first (some alt) =
      if not (alt.slug == account.slug)
      then repin turn pool state account first alt
      else fallback_or_error_single state first turn.fp account.slug

  -- The handler after the primary attempt has failed.
  unfoldable pub fail_over : Turn → AccountPool → RouterState S → Account → Fallback → Bool → Result
  fail_over turn pool state account first tier_gate =
      let cooled = cool pool turn.times.failed_at account.slug turn.model tier_gate in
      let picked = pick cooled turn.times.repicked_at (some account.slug) turn.model in
      let cleared = clear_pin state.affinity turn.key in
      with_alternative turn picked.1 (record state { accounts = some picked.1; affinity = cleared })
        account first picked.0

  -- The handler from the classified answer of the primary attempt on.
  unfoldable pub finish_primary :
      Turn → AccountPool → RouterState S → Account → Source → Primary → Result
  unfolding maybe_pin log_route
  finish_primary turn pool state account source (terminal answer) =
      let state = maybe_pin state turn.key account.slug turn.model source in
      (log_route state turn.fp account.slug source answer.status, ok answer)
  finish_primary turn pool state account source (retry first tier_gate) =
      fail_over turn pool state account first tier_gate

  unfoldable pub choose : Turn → AccountPool → Option S → Option (Account × AccountPool × Source)
  choose turn pool affinity =
      first_choice pool
        (pinned_slug affinity turn.key >>= λ slug. pinned pool turn.times.pinned_at slug turn.model)
        (pick pool turn.times.picked_at none turn.model) (pick_source affinity)

  -- The first attempt, on the account chosen.
  unfoldable pub attempt : Turn → RouterState S → Option (Account × AccountPool × Source) → Result
  attempt turn state none = (state, err (internal (codes "router mode: account pool is empty")))
  attempt turn state (some (account, pool, source)) =
      let request = request_to turn account in
      finish_primary turn pool
        (record state { accounts = some pool; sent = state.sent ++ (request ∷ []) }) account source
        (classify (send request))

  unfoldable pub route : Turn → AccountPool → RouterState S → Result
  unfolding attempt
  route turn pool state = attempt turn state (choose turn pool state.affinity)

  abbrev conversation_key : Headers → Value → Option Str
  conversation_key headers request =
      elim (resolve_conversation_key hash_to_uuid (header_str (codes "x-conversation-id") headers)
        request) [ none ↦ none | some c ↦ some c.key ]

  abbrev fingerprint : Option Str → Str
  fingerprint none = []
  fingerprint (some key) = hash_to_uuid key

  unfoldable pub turn_of : Inbound → Times → Str → Value → Turn
  turn_of inbound times bearer request =
      let key = conversation_key inbound.headers request in
      record {
        key = key;
        fp = fingerprint key;
        model = get_or (get_str (codes "model") request) [];
        target = get_or inbound.path_and_query inbound.path;
        bearer = bearer;
        headers = inbound.headers;
        body = inbound.body;
        times = times;
      }

  -- `proxy` on the three things that it may lack: the pool, the admin key, and a body in JSON.
  unfoldable pub proxy_with :
      RouterState S → Inbound → Times → Option AccountPool → Option Str → Option Value → Result
  proxy_with state inbound times none key request =
      (state, err (internal (codes "router mode: no account pool configured")))
  proxy_with state inbound times (some pool) none request = (state, err admin_not_configured)
  proxy_with state inbound times (some pool) (some bearer) none =
      (state, err (bad_request (codes "Failed to parse request body")))
  proxy_with state inbound times (some pool) (some bearer) (some request) =
      route (turn_of inbound times bearer request) pool state

  unfoldable pub proxy : RouterState S → Inbound → Times → Result
  unfolding proxy_with
  proxy state inbound times =
      proxy_with state inbound times state.accounts state.admin_api_key (from_slice inbound.body)
