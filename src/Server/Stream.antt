-- ===== src/Server/Stream.antt =====
-- The bridges of src/server/stream.rs from an upstream response to an answer of this server.
use codex_proxy_rs.Base.{
  ℕ, Bool, false, List, [], ◌∷◌, Option, none, some, Str, Bytes, codes, if◌then◌else◌, ◌==◌,
  text_eq, remove, split, trim, to_ascii_lowercase,
}
use codex_proxy_rs.Json.{Value, text, object, of_fields}
use codex_proxy_rs.Http.{Headers, header_str, Input, UpstreamResponse, sanitized_headers, status_or}

pub data RelayMode : Type 0 where
  rewrite : Str → RelayMode
  pass_through : RelayMode

-- The body of an answer: a JSON value, bytes that were read, or what a relay makes of a stream.
pub data ReplyBody : Type 0 where
  json : Value → ReplyBody
  mirrored : Bytes → ReplyBody
  relayed : RelayMode → Input → ReplyBody

pub record Reply : Type 0 where
  pub status : ℕ
  pub headers : Headers
  pub body : ReplyBody

-- `HeaderMap::insert`: one value is left, at the place of the first.
unfoldable pub put_header : Str → Str → Headers → Headers
put_header name value [] = (name, value) ∷ []
put_header name value (h ∷ hs) =
    let later = put_header name value hs in
    if h.0 == name then (name, value) ∷ remove name hs else h ∷ later

abbrev pub first_part : List Str → Str
first_part [] = []
first_part (part ∷ parts) = part

unfoldable pub is_event_stream : UpstreamResponse → Bool
unfolding header_str split trim
is_event_stream resp = elim (header_str (codes "content-type") resp.headers) [
  | none ↦ false
  | some ct ↦ to_ascii_lowercase (trim (first_part (split 59 ct))) == codes "text/event-stream"
]

unfoldable pub relay_response : UpstreamResponse → RelayMode → Reply
unfolding sanitized_headers put_header
relay_response resp mode = record {
  status = status_or 200 resp.status;
  headers = put_header (codes "cache-control") (codes "no-cache") (
      put_header (codes "content-type") (codes "text/event-stream; charset=utf-8")
        (sanitized_headers resp.headers));
  body = relayed mode resp.body;
}

-- `Json(value).into_response()`.
abbrev pub json_reply : Value → Reply
json_reply value = record {
  status = 200;
  headers = (codes "content-type", codes "application/json") ∷ [];
  body = json value;
}

-- `mirror_error_response` and `mirror_success_response`, which differ in what they log. A body that
-- breaks is not mirrored.
abbrev pub mirror_body : UpstreamResponse → Option Str → Reply
mirror_body resp (some e) = record {
  status = 502;
  headers = (codes "content-type", codes "application/json") ∷ [];
  body = json (
      object
        (of_fields ((codes "error", text (codes "Failed to read upstream response body")) ∷ [])));
}
mirror_body resp none = record {
  status = status_or 502 resp.status;
  headers = sanitized_headers resp.headers;
  body = mirrored resp.body.bytes;
}

unfoldable pub mirror_response : UpstreamResponse → Reply
unfolding sanitized_headers
mirror_response resp = mirror_body resp resp.body.broken
