-- ===== src/Router/Attempt.antt =====
-- One attempt against one pod: the request of `proxy_to_pod` and the classification of its answer,
-- from src/router.rs.
use codex_proxy_rs.Base.{
  ℕ, ◌||◌, ◌&&◌, Bool, true, false, List, [], ◌∷◌, ◌++◌, none, some, Str, Bytes, if◌then◌else◌,
  ◌==◌, text_eq, nat_eq, codes, lookup, contains_text, leb, ltb, get_or,
}
use codex_proxy_rs.Http.{Headers, PodResponse, full, Response, sanitized_headers, proxy_response}

-- The request that `proxy_to_pod` sends.
pub record PodRequest : Type 0 where
  pub url : Str
  pub headers : Headers
  pub body : Bytes

-- `Err` of a send: the pod could not be reached.
pub data SendError : Type 0 where
  unreachable : SendError

pub data Sent : Type 0 where
  answered : PodResponse → Sent
  failed : SendError → Sent

abbrev pub forwarded_headers : List Str
forwarded_headers = codes "traceparent" ∷ codes "tracestate" ∷ []

forward : List Str → Headers → Headers
forward [] inbound = []
forward (name ∷ names) inbound = elim (lookup name inbound) [
  | none ↦ forward names inbound
  | some value ↦ (name, value) ∷ forward names inbound
]

unfoldable pub proxy_to_pod : Str → Str → Str → Headers → Bytes → PodRequest
unfolding forward
proxy_to_pod base_url path_and_query bearer inbound body = record {
  url = base_url ++ path_and_query;
  headers =
      (codes "authorization", codes "Bearer " ++ bearer)
      ∷ (codes "content-type", codes "application/json")
      ∷ forward forwarded_headers inbound;
  body = body;
}

unfoldable pub is_retryable : ℕ → Bool
is_retryable status = status == 429 || (leb 500 status && ltb status 600)

abbrev pub tier_gate_marker : Str
tier_gate_marker = codes "model is not supported when using Codex with a ChatGPT account"

pub record Buffered400 : Type 0 where
  pub headers : Headers
  pub body : Bytes
  pub tier_gate : Bool

abbrev pub buffered_response : Buffered400 → Response
buffered_response b = record { status = 400; headers = b.headers; body = full b.body }

-- The marker is ASCII, so it stands in the bytes exactly when it stands in their lossy decoding.
unfoldable pub classify_400 : PodResponse → Buffered400
classify_400 resp = record {
  headers = sanitized_headers resp.headers;
  body = get_or resp.body [];
  tier_gate = contains_text tier_gate_marker (get_or resp.body []);
}

pub data FallbackBody : Type 0 where
  response : PodResponse → FallbackBody
  buffered : Buffered400 → FallbackBody

unfoldable pub fallback_response : FallbackBody → Response
fallback_response (response resp) = proxy_response resp
fallback_response (buffered b) = buffered_response b

-- `Result<FallbackBody, reqwest::Error>`.
pub data Fallback : Type 0 where
  body : FallbackBody → Fallback
  no_body : SendError → Fallback

pub data Primary : Type 0 where
  terminal : Response → Primary
  retry : Fallback → Bool → Primary

unfoldable pub classify : Sent → Primary
unfolding classify_400 is_retryable
classify (failed e) = retry (no_body e) false
classify (answered resp) =
    if resp.status == 400
    then (let b = classify_400 resp in
        if b.tier_gate then retry (body (buffered b)) true else terminal (buffered_response b))
    else if is_retryable resp.status
    then retry (body (response resp)) false
    else terminal (proxy_response resp)
