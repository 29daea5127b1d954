-- ===== src/Upstream.antt =====
-- The upstream client of src/upstream.rs: the request that it sends, and the retry after a 401.
pub mod Retry
pub mod Bearer
pub mod Served
use codex_proxy_rs.Base.{
  ℕ, ◌-◌, Bool, ◌&&◌, List, [], ◌∷◌, ◌++◌, Option, none, some, Str, Bytes, codes, if◌then◌else◌,
  ◌==◌, nat_eq, text_eq, leb, byte_len, char_len, to_ascii_lowercase, trim,
}
use codex_proxy_rs.Http.{Headers, UpstreamResponse}
use codex_proxy_rs.Credentials.{Result, ok, err, CredentialsError, Credentials, CredentialsFetcher}

-- `UpstreamError`; the error of the HTTP client is kept as its text.
pub data UpstreamError : Type 0 where
  credentials : CredentialsError → UpstreamError
  refresh_failed : CredentialsError → UpstreamError
  request : Str → UpstreamError

-- What a call ends with; `panicked` is a slice that does not end between two characters.
pub data Sent : Type 0 where
  response : UpstreamResponse → Sent
  failed : UpstreamError → Sent
  panicked : Sent

-- A text cut after a number of bytes: none where that is inside a character or past the end.
unfoldable pub split_at : ℕ → Str → Option (Str × Str)
unfolding char_len
split_at n [] = if n == 0 then some ([], []) else none
split_at n (c ∷ s) =
    let rest = split_at (n - char_len c) s in
    if n == 0
    then some ([], c ∷ s)
    else if leb (char_len c) n
    then elim rest [ none ↦ none | some p ↦ some (c ∷ p.0, p.1) ]
    else none

abbrev pub strip_bearer : Str → Option (Str × Str) → Option Str
strip_bearer token none = none
strip_bearer token (some (head, tail)) =
    some (if to_ascii_lowercase head == codes "bearer " then trim tail else token)

-- `bare_token`: none where the slice of seven bytes panics.
unfoldable pub bare_token : Str → Option Str
unfolding split_at byte_len trim
bare_token s =
    let token = trim s in
    if leb 7 (byte_len token) then strip_bearer token (split_at 7 token) else some token

pub record UpstreamRequest : Type 0 where
  pub url : Str
  pub headers : Headers
  pub body : Bytes

-- What the source takes from the HTTP client and from the uuid library.
pub record Client (World : Type 0) : Type 0 where
  pub post : UpstreamRequest → World → Result Str UpstreamResponse × World
  pub new_v4 : World → Str × World

abbrev pub codex_headers : Str → Str → Str → Str → Str → Headers
codex_headers bare account_id codex_cli_version session_id turn_id =
    (codes "authorization", codes "Bearer " ++ bare)
    ∷ (codes "version", codex_cli_version)
    ∷ (codes "openai-beta", codes "responses=experimental")
    ∷ (codes "session_id", session_id)
    ∷ (codes "accept", codes "text/event-stream")
    ∷ (codes "content-type", codes "application/json")
    ∷ (codes "chatgpt-account-id", account_id)
    ∷ (codes "originator", codes "codex_cli_rs")
    ∷ (
      codes "user-agent",
      codes "codex_cli_rs/"
          ++ (codex_cli_version ++ codes " (Mac OS 26.3.0; arm64) Apple_Terminal/466"),
    )
    ∷ (codes "x-codex-beta-features", codes "multi_agent,apps,prevent_idle_sleep")
    ∷ (
      codes "x-codex-turn-metadata",
      codes "{\"turn_id\":\"" ++ (turn_id ++ codes "\",\"sandbox\":\"none\"}"),
    )
    ∷ []

module _ {World : Type 0} (client : Client World) (url codex_cli_version : Str) (body : Bytes) where
  abbrev pub as_sent : Result Str UpstreamResponse → Sent
  as_sent (ok resp) = response resp
  as_sent (err e) = failed (request e)

  abbrev pub send_bare : Option Str → Str → World → Sent × World
  send_bare none account_id w = (panicked, w)
  send_bare (some bare) account_id w =
      let (turn_id, w1) = client.new_v4 w in
      let (session_id, w2) = client.new_v4 w1 in
      let (answer, w3) =
        client.post
          (record {
            url = url;
            headers = codex_headers bare account_id codex_cli_version session_id turn_id;
            body = body;
          })
          w2 in
      (as_sent answer, w3)

  unfoldable pub send_codex_request : Credentials → World → Sent × World
  unfolding bare_token
  send_codex_request creds w = send_bare (bare_token creds.token) creds.account_id w

  module _ (creds : CredentialsFetcher World) where
    -- The second request, whose answer is final.
    abbrev pub send_refreshed : Result CredentialsError Credentials → World → Sent × World
    send_refreshed (err e) w = (failed (credentials e), w)
    send_refreshed (ok refreshed) w = send_codex_request refreshed w

    abbrev pub after_refresh : Result CredentialsError Unit → World → Sent × World
    after_refresh (err e) w = (failed (refresh_failed e), w)
    after_refresh (ok _) w =
        let (found, after) = creds.get_credentials w in send_refreshed found after

    -- What follows the first request.
    abbrev pub retry : Sent → World → Sent × World
    retry (response resp) w =
        if resp.status == 401
        then (let (refreshed, after) = creds.refresh_credentials w in after_refresh refreshed after)
        else (response resp, w)
    retry sent w = (sent, w)

    abbrev pub send_first : Result CredentialsError Credentials → World → Sent × World
    send_first (err e) w = (failed (credentials e), w)
    send_first (ok initial) w = let (sent, after) = send_codex_request initial w in retry sent after

    unfoldable pub send_with_retry : World → Sent × World
    unfolding send_codex_request
    send_with_retry w = let (found, after) = creds.get_credentials w in send_first found after
