-- ===== src/Upstream/Served.antt =====
-- The upstream client of src/upstream.rs with the fetcher of src/credentials/refresher.rs.
use codex_proxy_rs.Base.{
  ◌≡◌, ◌≢◌, refl, sym, subst, ◌∙◌, inl, inr, Option, none, some, Str, Bytes, ◌==◌, nat_eq, ==_iff,
  Bool-cases, if-both,
}
use codex_proxy_rs.Http.{UpstreamResponse}
use codex_proxy_rs.Credentials.{Result, ok, err, Credentials, CredentialsError, CredentialsFetcher}
use codex_proxy_rs.Credentials.Storage.{Disk, DiskLaws, Location}
use codex_proxy_rs.Credentials.Storage.Atomic.{stored, IsApart}
use codex_proxy_rs.Credentials.File.{AuthCodec}
use codex_proxy_rs.Credentials.File.Updates.{IsLossless}
use codex_proxy_rs.Credentials.Oauth.{Services}
use codex_proxy_rs.Credentials.Refresher.{get_credentials, refresh_credentials, oauth_fetcher}
use codex_proxy_rs.Credentials.Refresher.Rotation.{
  IsSeparate, IsLive-frame, refresh_credentials-IsLive,
}
use codex_proxy_rs.Credentials.Refresher.Service.{Live, IsServed, get_credentials-IsGood}
use codex_proxy_rs.Upstream.{
  Client, Sent, response, failed, panicked, credentials, refresh_failed, UpstreamRequest,
  bare_token, as_sent, send_bare, send_codex_request, send_refreshed, after_refresh, retry,
  send_first, send_with_retry,
}

-- The failure is not that no credentials could be had.
abbrev pub HasCredentials : Sent → Type 0
HasCredentials s = (e : CredentialsError) → s ≢ failed (credentials e)

module _ {World : Type 0} (disk : Disk World) (laws : DiskLaws disk) (codec : AuthCodec)
    (lossless : IsLossless codec) (at : Location) (apart : IsApart disk laws at)
    (services : Services World) (show_error : CredentialsError → Str) (token_url : Str)
    (separate : IsSeparate disk services at.path) (client : Client World)
    (url codex_cli_version : Str) (body : Bytes)
    (posts : (r : UpstreamRequest) (w : World)
      → stored disk laws at (client.post r w).1 ≡ stored disk laws at w)
    (names : (w : World) → stored disk laws at (client.new_v4 w).1 ≡ stored disk laws at w) where
  abbrev Fed : World → Type 0
  Fed w = Live disk laws codec lossless at apart services show_error token_url separate w

  abbrev fetcher : CredentialsFetcher World
  fetcher = oauth_fetcher disk codec services show_error at token_url

  Fed-frame :
      {w after : World} → stored disk laws at after ≡ stored disk laws at w → Fed w → Fed after
  Fed-frame same live =
      IsLive-frame disk laws codec lossless at apart services show_error token_url separate same
        live

  -- A request leaves the file live, and does not fail for credentials or for their refresh.
  abbrev IsPlain : Sent × World → Type 0
  IsPlain p =
      HasCredentials p.0 × Fed p.1 × ((e : CredentialsError) → p.0 ≢ failed (refresh_failed e))

  send-IsPlain :
      (c : Credentials) (w : World)
      → Fed w
      → IsPlain (send_codex_request client url codex_cli_version body c w)
  unfolding send_codex_request
  send-IsPlain c w live = go (bare_token c.token)
    where
      plain :
          (r : Result Str UpstreamResponse)
          → HasCredentials (as_sent client url codex_cli_version body r)
      plain (ok resp) e h = cc
      plain (err x) e h = cc

      settled :
          (r : Result Str UpstreamResponse) (e : CredentialsError)
          → as_sent client url codex_cli_version body r ≢ failed (refresh_failed e)
      settled (ok resp) e h = cc
      settled (err x) e h = cc

      go : (o : Option Str) → IsPlain (send_bare client url codex_cli_version body o c.account_id w)
      go none = ((λ e h. cc), live, (λ e h. cc))
      go (some bare) =
          let w1 = (client.new_v4 w).1 in
          (plain _, Fed-frame (posts _ _ ∙ (names w1 ∙ names w)) live, settled _)

  -- With live credentials, what is done with served ones.
  served :
      {w : World} (live : Fed w) (r : Result CredentialsError Credentials)
      → IsServed disk laws codec lossless at apart services show_error token_url separate live r
      → (c : Credentials) × (r ≡ ok c)
  served live r (inl h) = (_, h)
  served live r (inr (t, _, h)) = (_, h)

  abbrev got : World → Result CredentialsError Credentials × World
  got w = get_credentials disk codec services show_error at token_url w

  with_credentials :
      (k : Result CredentialsError Credentials → World → Sent × World) (w : World)
      → Fed w
      → ((c : Credentials) (w : World) → Fed w → HasCredentials (k (ok c) w).0)
      → HasCredentials (k (got w).0 (got w).1).0
  with_credentials k w live h =
      let (good, still) =
        get_credentials-IsGood disk laws codec lossless at apart services show_error token_url
          separate live in
      let (c, e) = served live (got w).0 good in
      subst (λ r. HasCredentials (k r (got w).1).0) (sym e) (h c (got w).1 still)

  after_refresh-HasCredentials :
      (r : Result CredentialsError Unit) (w : World)
      → Fed w
      → HasCredentials (after_refresh client url codex_cli_version body fetcher r w).0
  unfolding oauth_fetcher
  after_refresh-HasCredentials (err e) w live = λ x h. cc
  after_refresh-HasCredentials (ok u) w live =
      with_credentials (send_refreshed client url codex_cli_version body fetcher) w live
        (λ c w live. (send-IsPlain c w live).0)

  retry-HasCredentials :
      (s : Sent) (w : World)
      → Fed w
      → HasCredentials s
      → HasCredentials (retry client url codex_cli_version body fetcher s w).0
  unfolding oauth_fetcher
  retry-HasCredentials (failed e) w live h = h
  retry-HasCredentials panicked w live h = h
  retry-HasCredentials (response resp) w live h =
      if-both (λ (p : Sent × World). HasCredentials p.0) (resp.status == 401)
        (after_refresh-HasCredentials
          (refresh_credentials disk codec services show_error at token_url w).0 _
          (refresh_credentials-IsLive disk laws codec lossless at apart services show_error
            token_url separate w live))
        h

  abbrev request : Credentials → World → Sent × World
  request = send_codex_request client url codex_cli_version body

  -- The first request, with the credentials that were served, was answered with 401.
  abbrev pub WasRefused : World → Type 0
  WasRefused w =
      (c : Credentials) × (resp : UpstreamResponse) × ((got w).0 ≡ ok c)
      × ((request c (got w).1).0 ≡ response resp)
      × (resp.status ≡ 401)

  -- What comes of a request is no failure to have credentials, and is a failed refresh of them only
  -- after an answer of 401.
  abbrev pub IsProvided : World → Sent → Type 0
  IsProvided w s =
      HasCredentials s × ((e : CredentialsError) → s ≡ failed (refresh_failed e) → WasRefused w)

  retry-WasRefused :
      (w after : World) (c : Credentials)
      → (got w).0 ≡ ok c
      → ((e : CredentialsError) → (request c (got w).1).0 ≢ failed (refresh_failed e))
      → (s : Sent) → (request c (got w).1).0 ≡ s
      → (e : CredentialsError)
      → (retry client url codex_cli_version body fetcher s after).0 ≡ failed (refresh_failed e)
      → WasRefused w
  retry-WasRefused w after c have settled (failed x) h e k = absurd (settled e (h ∙ k))
  retry-WasRefused w after c have settled panicked h e k = cc
  retry-WasRefused w after c have settled (response resp) h e k =
      elim (Bool-cases (resp.status == 401)) [
        | inl same ↦ (c, resp, have, h, (==_iff resp.status 401).0 same)
        | inr other ↦ let kept = rw other at k in cc
      ]

  -- While the credentials file is live, no request through the fetcher fails because there are no
  -- credentials to send it with. It fails because they could not be refreshed only if the upstream
  -- answered the first request, sent with the served credentials, with 401.
  pub send_with_retry-IsProvided :
      (w : World)
      → Fed w
      → IsProvided w (send_with_retry client url codex_cli_version body fetcher w).0
  unfolding send_with_retry oauth_fetcher
  send_with_retry-IsProvided w live = (
    with_credentials (send_first client url codex_cli_version body fetcher) w live (λ c w live.
        let (plain, still, _) = send-IsPlain c w live in
        retry-HasCredentials (request c w).0 _ still plain),
    (λ e h.
        let (good, still) =
          get_credentials-IsGood disk laws codec lossless at apart services show_error token_url
            separate live in
        let (c, have) = served live (got w).0 good in
        let settled = (send-IsPlain c (got w).1 still).2 in
        retry-WasRefused w _ c have settled (request c (got w).1).0 refl e (
          subst
            (λ r.
              (send_first client url codex_cli_version body fetcher r (got w).1).0
              ≡ failed (refresh_failed e))
            have h)),
  )
