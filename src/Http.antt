-- ===== src/Http.antt =====
-- What the handlers see of HTTP: headers, responses and the error type of src/server/error.rs, with
-- `sanitized_headers` and `proxy_response` of src/server/stream.rs.
use codex_proxy_rs.Base.{
  ℕ, ◌&&◌, ◌||◌, not, List, [], ◌∷◌, ◌++◌, Option, none, some, Str, Bytes, if◌then◌else◌, ◌==◌,
  text_eq, nat_eq, codes, lookup, contains, filter, leb, ltb,
}
use codex_proxy_rs.Json.{Value, text, object, field, end, ◌>>=◌}

-- A `HeaderMap` in its order; names are in lower case.
abbrev pub Headers : Type 0
Headers = List (Str × Str)

-- `HeaderValue::to_str`: visible ASCII, blanks and tabs.
unfoldable pub to_str : Str → Option Str
to_str [] = some []
to_str (c ∷ s) =
    if (leb 32 c && ltb c 127) || c == 9 then (to_str s >>= λ t. some (c ∷ t)) else none

unfoldable pub header_str : Str → Headers → Option Str
unfolding to_str
header_str name headers = lookup name headers >>= to_str

-- A response of another server; a body of `none` fails when it is read.
pub record PodResponse : Type 0 where
  pub status : ℕ
  pub headers : Headers
  pub body : Option Bytes

-- What an upstream sends as a body: its bytes, and the error that ends them, if one does.
pub record Input : Type 0 where
  pub bytes : Bytes
  pub broken : Option Str

pub record UpstreamResponse : Type 0 where
  pub status : ℕ
  pub headers : Headers
  pub body : Input

-- A response of this server: its body is at hand, or streamed from another server's response.
pub data Body : Type 0 where
  full : Bytes → Body
  streamed : Option Bytes → Body

pub record Response : Type 0 where
  pub status : ℕ
  pub headers : Headers
  pub body : Body

abbrev pub dropped_headers : List Str
dropped_headers =
    codes "content-length"
    ∷ codes "transfer-encoding"
    ∷ codes "connection"
    ∷ codes "set-cookie"
    ∷ codes "content-encoding"
    ∷ []

unfoldable pub sanitized_headers : Headers → Headers
sanitized_headers upstream = filter (λ (h : Str × Str). not (contains dropped_headers h.0)) upstream

-- `StatusCode::from_u16` with a default.
abbrev pub status_or : ℕ → ℕ → ℕ
status_or default status = if leb 100 status && ltb status 1000 then status else default

unfoldable pub proxy_response : PodResponse → Response
proxy_response resp = record {
  status = status_or 502 resp.status;
  headers = sanitized_headers resp.headers;
  body = streamed resp.body;
}

-- `ApiError`; the upstream error is kept as its message.
pub data ApiError : Type 0 where
  bad_request : Str → ApiError
  unauthorized : Str → ApiError
  admin_not_configured : ApiError
  upstream : Str → ApiError
  internal : Str → ApiError

-- `ApiError::into_response`: the status and the JSON value that is the body.
unfoldable pub into_response : ApiError → ℕ × Value
into_response e = elim e [
  | bad_request msg ↦ (400, body msg)
  | unauthorized msg ↦ (401, body msg)
  | admin_not_configured ↦ (500, body (codes "Admin API not configured"))
  | upstream msg ↦ (503, body (codes "Failed to communicate with upstream API: " ++ msg))
  | internal msg ↦ (500, body msg)
]
  where
    body : Str → Value
    body msg = object (field (codes "error") (text msg) end)

pub data Outcome {ℓ} (A : Type ℓ) : Type ℓ where
  ok : A → Outcome A
  err : ApiError → Outcome A
