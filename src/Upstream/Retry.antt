-- ===== src/Upstream/Retry.antt =====
-- How many requests `send_with_retry` of src/upstream.rs sends.
use codex_proxy_rs.Base.{
  ℕ, suc, ◌+◌, ◌≤◌, ◌≡◌, refl, ◌⊎◌, inl, inr, Option, none, some, Str, Bytes, ◌==◌, nat_eq, ==_iff,
  Bool-cases, arith,
}
use codex_proxy_rs.Http.{UpstreamResponse}
use codex_proxy_rs.Credentials.{Result, ok, err, Credentials, CredentialsError, CredentialsFetcher}
use codex_proxy_rs.Upstream.{
  Client, Sent, response, failed, panicked, UpstreamRequest, bare_token, send_bare,
  send_codex_request, send_refreshed, after_refresh, retry, send_first, send_with_retry,
}

-- A count of the requests that the client has sent: no other call sends one.
pub record IsCount {World : Type 0} (client : Client World) (creds : CredentialsFetcher World)
    (sent : World → ℕ) : Type 0 where
  pub post_counts : (r : UpstreamRequest) (w : World) → sent (client.post r w).1 ≡ suc (sent w)
  pub naming : (w : World) → sent (client.new_v4 w).1 ≡ sent w
  pub fetching : (w : World) → sent (creds.get_credentials w).1 ≡ sent w
  pub refreshing : (w : World) → sent (creds.refresh_credentials w).1 ≡ sent w

module _ {World : Type 0} (client : Client World) (url codex_cli_version : Str) (body : Bytes)
    (creds : CredentialsFetcher World) (sent : World → ℕ)
    (counted : IsCount client creds sent) where
  abbrev send : Credentials → World → Sent × World
  send = send_codex_request client url codex_cli_version body

  send-count : (c : Credentials) (w : World) → sent (send c w).1 ≤ suc (sent w)
  unfolding send_codex_request
  send-count c w = go (bare_token c.token)
    where
      go :
          (o : Option Str)
          → sent (send_bare client url codex_cli_version body o c.account_id w).1 ≤ suc (sent w)
      go none = omega arith
      go (some bare) =
          let w1 = (client.new_v4 w).1 in
          let w2 = (client.new_v4 w1).1 in
          omega (arith, counted.post_counts _ w2, counted.naming w, counted.naming w1)

  -- The second request is sent only when the first was answered with 401.
  abbrev pub IsSecond : World → World → Type 0
  IsSecond w after =
      (sent after ≤ sent w + 2)
      × ((initial : Credentials) × (resp : UpstreamResponse) × ((creds.get_credentials w).0
            ≡ ok initial)
          × ((send initial (creds.get_credentials w).1).0 ≡ response resp)
          × (resp.status ≡ 401))

  after_refresh-count :
      (r : Result CredentialsError Unit) (w : World)
      → sent (after_refresh client url codex_cli_version body creds r w).1 ≤ suc (sent w)
  after_refresh-count (err e) w = omega arith
  after_refresh-count (ok u) w =
      omega (arith, go (creds.get_credentials w).0 (creds.get_credentials w).1, counted.fetching w)
    where
      go :
          (r : Result CredentialsError Credentials) (w : World)
          → sent (send_refreshed client url codex_cli_version body creds r w).1 ≤ suc (sent w)
      go (err e) w = omega arith
      go (ok c) w = send-count c w

  -- At most one request is sent, or a second one, when the first was answered with 401.
  pub send_with_retry-count :
      (w : World)
      → let after = (send_with_retry client url codex_cli_version body creds w).1 in
        (sent after ≤ sent w + 1) ⊎ IsSecond w after
  unfolding send_with_retry
  send_with_retry-count w = first (creds.get_credentials w).0 refl
    where
      fetched : World
      fetched = (creds.get_credentials w).1

      retried :
          (initial : Credentials)
          → (creds.get_credentials w).0 ≡ ok initial
          → (s : Sent) → (send initial fetched).0 ≡ s
          → let after =
              (retry client url codex_cli_version body creds s (send initial fetched).1).1 in
            (sent after ≤ sent w + 1) ⊎ IsSecond w after
      retried initial got (failed e) h =
          inl (omega (arith, send-count initial fetched, counted.fetching w))
      retried initial got panicked h =
          inl (omega (arith, send-count initial fetched, counted.fetching w))
      retried initial got (response resp) h = elim (Bool-cases (resp.status == 401)) [
        | inr other ↦ rw other (inl (omega (arith, send-count initial fetched, counted.fetching w)))
        | inl same ↦
            let w1 = (send initial fetched).1 in
            let w2 = (creds.refresh_credentials w1).1 in
            rw same (
              inr (
                omega (
                  arith,
                  send-count initial fetched,
                  counted.fetching w,
                  counted.refreshing w1,
                  after_refresh-count (creds.refresh_credentials w1).0 w2,
                ),
                (initial, resp, got, h, (==_iff resp.status 401).0 same),
              ))
      ]

      first :
          (r : Result CredentialsError Credentials)
          → (creds.get_credentials w).0 ≡ r
          → let after = (send_first client url codex_cli_version body creds r fetched).1 in
            (sent after ≤ sent w + 1) ⊎ IsSecond w after
      first (err e) h = inl (omega (arith, counted.fetching w))
      first (ok initial) h = retried initial h (send initial fetched).0 refl
