-- ===== src/Credentials/Refresher/Service.antt =====
-- A fetcher whose file is live serves credentials, whatever it and the background loop do.
use codex_proxy_rs.Base.{
  false, not, Option, Str, ◌≡◌, refl, sym, subst, ◌⊎◌, inl, inr, ℤ, is_empty, if-both, text_eq,
}
use codex_proxy_rs.Credentials.{Result, ok, err, CredentialsError, OAuthCredentials, Credentials}
use codex_proxy_rs.Credentials.Storage.{Disk, DiskLaws, Location}
use codex_proxy_rs.Credentials.Storage.Atomic.{stored, IsApart}
use codex_proxy_rs.Credentials.File.{AuthCodec}
use codex_proxy_rs.Credentials.File.Updates.{IsLossless}
use codex_proxy_rs.Credentials.Oauth.{Services, TokenRefreshResponse, token_expired, refresh_token}
use codex_proxy_rs.Credentials.Refresher.Rotation.{
  IsSeparate, IsLive, held_credentials, IsLive-frame, update_file-IsLive, kept_or_new-live,
  refresh_token-frame, refresh_token-access, read-IsLive, refresh_credentials-IsLive,
  check_and_refresh-IsLive, update_tokens-IsLive,
}
use codex_proxy_rs.Credentials.Refresher.{
  expires_at_from, kept_or_new, check_and_refresh, answer_with, persist_and_answer,
  refresh_and_answer, answer_found, get_credentials, refresh_credentials, update_tokens,
}

module _ {World : Type 0} (disk : Disk World) (laws : DiskLaws disk) (codec : AuthCodec)
    (lossless : IsLossless codec) (at : Location) (apart : IsApart disk laws at)
    (services : Services World) (show_error : CredentialsError → Str) (token_url : Str)
    (separate : IsSeparate disk services at.path) where
  abbrev pub Live : World → Type 0
  Live w = IsLive disk laws codec lossless at apart services show_error token_url separate w

  abbrev pub held_in : {w : World} → Live w → OAuthCredentials
  held_in live =
      held_credentials disk laws codec lossless at apart services show_error token_url separate live

  -- A served token is the stored one or a new one of the token endpoint.
  abbrev pub IsServed : {w : World} → Live w → Result CredentialsError Credentials → Type 0
  IsServed {w} live r =
      (r ≡ ok (answer_with (held_in live) live.file.tokens.access_token))
      ⊎ ((t : TokenRefreshResponse) × ((refresh_token services token_url
              live.file.tokens.refresh_token w).0
            ≡ ok t)
          × (r ≡ ok (answer_with (held_in live) t.access_token)))

  -- A served answer that leaves the file live.
  abbrev pub IsGood : {w : World} → Live w → Result CredentialsError Credentials × World → Type 0
  IsGood live p = IsServed live p.0 × Live p.1

  module _ {w : World} (live : Live w) where
    abbrev pub received : World
    received = (refresh_token services token_url live.file.tokens.refresh_token w).1

    pub received-Live : Live received
    received-Live =
        IsLive-frame disk laws codec lossless at apart services show_error token_url separate
          (refresh_token-frame disk laws codec lossless at apart services show_error token_url
            separate live.file.tokens.refresh_token w)
          live

    persist_and_answer-IsGood :
        (t : TokenRefreshResponse) (x : Result CredentialsError ℤ)
        → (refresh_token services token_url live.file.tokens.refresh_token w).0 ≡ ok t
        → IsGood live (
            persist_and_answer disk codec services show_error at token_url
              (held_in live)
              t
              x
              received)
    unfolding persist_and_answer
    persist_and_answer-IsGood t (err e) h = (inl refl, received-Live)
    persist_and_answer-IsGood t (ok e) h = (
      inr (t, h, refl),
      update_file-IsLive disk laws codec lossless at apart services show_error token_url separate
          t.access_token (kept_or_new live.file.tokens.refresh_token t.refresh_token) e received
          (refresh_token-access disk laws codec lossless at apart services show_error token_url
            separate live.file.tokens.refresh_token w t h)
          (kept_or_new-live disk laws codec lossless at apart services show_error token_url separate
            live.file.tokens.refresh_token t.refresh_token live.has_refresh)
          received-Live,
    )

    refresh_and_answer-IsGood :
        (r : Result CredentialsError TokenRefreshResponse)
        → (refresh_token services token_url live.file.tokens.refresh_token w).0 ≡ r
        → IsGood live (
            refresh_and_answer disk codec services show_error at token_url
              (held_in live)
              r
              received)
    refresh_and_answer-IsGood (err e) h = (inl refl, received-Live)
    refresh_and_answer-IsGood (ok t) h =
        persist_and_answer-IsGood t (expires_at_from services t.expires_in received) h

    -- From a live file credentials are always served, with the stored account and the stored token or
    -- a new one of the token endpoint, and the file stays live.
    pub get_credentials-IsGood :
        IsGood live (get_credentials disk codec services show_error at token_url w)
    unfolding get_credentials
    get_credentials-IsGood =
        subst
          (λ (p : Result CredentialsError OAuthCredentials × World).
            IsGood live (answer_found disk codec services show_error at token_url p.0 p.1))
          (sym (
            read-IsLive disk laws codec lossless at apart services show_error token_url separate
              live))
          (if-both (IsGood live)
            (not (token_expired live.file.tokens.expires_at (services.now_ms w))) (inl refl, live)
            (refresh_and_answer-IsGood
              (refresh_token services token_url live.file.tokens.refresh_token w).0 refl))

  -- What happens to the world between two looks at it: each operation of the fetcher, one at a
  -- time, and anything that leaves the file alone.
  pub data Step : World → World → Type 0 where
    served : {w : World} → Step w (get_credentials disk codec services show_error at token_url w).1
    forced :
        {w : World} → Step w (refresh_credentials disk codec services show_error at token_url w).1
    ticked : {w : World} → Step w (check_and_refresh disk codec services show_error at token_url w)
    pushed :
        {w : World} (access_token refresh_token : Str) (expires_at_ms : ℤ) (user_id : Option Str)
        → is_empty access_token ≡ false
        → is_empty refresh_token ≡ false
        → Step w
            (update_tokens disk codec services show_error at token_url access_token refresh_token
              expires_at_ms user_id w).1
    elapsed : {w after : World} → stored disk laws at after ≡ stored disk laws at w → Step w after

  pub data Reaches : World → World → Type 0 where
    start : {w : World} → Reaches w w
    next : {w mid after : World} → Reaches w mid → Step mid after → Reaches w after

  Step-IsLive : {w after : World} → Step w after → Live w → Live after
  Step-IsLive served live = (get_credentials-IsGood live).1
  Step-IsLive {w} forced live =
      refresh_credentials-IsLive disk laws codec lossless at apart services show_error token_url
        separate w live
  Step-IsLive {w} ticked live =
      check_and_refresh-IsLive disk laws codec lossless at apart services show_error token_url
        separate w live
  Step-IsLive {w} (pushed access_token refresh_token expires_at_ms user_id a r) live =
      update_tokens-IsLive disk laws codec lossless at apart services show_error token_url separate
        access_token refresh_token expires_at_ms user_id w a r live
  Step-IsLive (elapsed same) live =
      IsLive-frame disk laws codec lossless at apart services show_error token_url separate same
        live

  -- A live file stays live whatever the fetcher, its background loop and pushes of tokens that are
  -- not empty do, in any order: no answer of the token endpoint and no failure of the file system
  -- costs the stored tokens.
  pub Reaches-IsLive : {w after : World} → Reaches w after → Live w → Live after
  Reaches-IsLive start live = live
  Reaches-IsLive (next steps step) live = Step-IsLive step (Reaches-IsLive steps live)
