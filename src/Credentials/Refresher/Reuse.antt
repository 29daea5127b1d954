-- ===== src/Credentials/Refresher/Reuse.antt =====
-- A refreshed token is reused: the calls that waited for the refresh make none of their own.
use codex_proxy_rs.Base.{true, false, Str, ◌≡◌, refl, ap, ◌∙◌, ℤ, text_eq}
use codex_proxy_rs.Credentials.{Result, ok, err, CredentialsError, OAuthCredentials, Credentials}
use codex_proxy_rs.Credentials.Storage.{Disk, DiskLaws, Location}
use codex_proxy_rs.Credentials.Storage.Atomic.{IsApart}
use codex_proxy_rs.Credentials.File.{FsAuth, AuthCodec, with_tokens, update_file}
use codex_proxy_rs.Credentials.File.Updates.{
  IsLossless, Holds, IsWrite, Holds-frame, update_file-IsWrite,
}
use codex_proxy_rs.Credentials.Oauth.{Services, TokenRefreshResponse, token_expired, refresh_token}
use codex_proxy_rs.Credentials.Refresher.Service.{Live, held_in, received}
use codex_proxy_rs.Credentials.Refresher.Rotation.{
  IsSeparate, kept_or_new-live, refresh_token-frame, refresh_token-access, read-IsLive,
}
use codex_proxy_rs.Credentials.Refresher.{
  expires_at_from, kept_or_new, answer_with, persist_and_answer, refresh_and_answer, answer_found,
  get_credentials,
}

module _ {World : Type 0} (disk : Disk World) (laws : DiskLaws disk) (codec : AuthCodec)
    (lossless : IsLossless codec) (at : Location) (apart : IsApart disk laws at)
    (services : Services World) (show_error : CredentialsError → Str) (token_url : Str)
    (separate : IsSeparate disk services at.path) where
  abbrev pub Kept : World → Type 0
  Kept w = Live disk laws codec lossless at apart services show_error token_url separate w

  abbrev pub creds_in : {w : World} → Kept w → OAuthCredentials
  creds_in live =
      held_in disk laws codec lossless at apart services show_error token_url separate live

  abbrev pub after_refresh : {w : World} → Kept w → World
  after_refresh live =
      received disk laws codec lossless at apart services show_error token_url separate live

  module _ {w : World} (live : Kept w) where
    found :
        get_credentials disk codec services show_error at token_url w
        ≡ answer_found disk codec services show_error at token_url (ok (creds_in live)) w
    unfolding get_credentials
    found =
        ap
          (λ (p : Result CredentialsError OAuthCredentials × World).
            answer_found disk codec services show_error at token_url p.0 p.1)
          (read-IsLive disk laws codec lossless at apart services show_error token_url separate
            live)

    -- A token that is not about to expire is served as it is, without a request or a write.
    get_credentials-fresh :
        token_expired live.file.tokens.expires_at (services.now_ms w) ≡ false
        → get_credentials disk codec services show_error at token_url w
          ≡ (ok (answer_with (creds_in live) live.file.tokens.access_token), w)
    get_credentials-fresh fresh = found ∙ rw fresh refl

    abbrev pub stored_as : TokenRefreshResponse → ℤ → Result CredentialsError Unit × World
    stored_as t e =
        update_file disk codec at t.access_token
          (kept_or_new live.file.tokens.refresh_token t.refresh_token) e (after_refresh live)

    -- One that is, with an answer of the token endpoint.
    get_credentials-expired :
        (t : TokenRefreshResponse) (e : ℤ)
        → token_expired live.file.tokens.expires_at (services.now_ms w) ≡ true
        → (refresh_token services token_url live.file.tokens.refresh_token w).0 ≡ ok t
        → expires_at_from services t.expires_in (after_refresh live) ≡ ok e
        → get_credentials disk codec services show_error at token_url w
          ≡ (ok (answer_with (creds_in live) t.access_token), (stored_as t e).1)
    unfolding persist_and_answer
    get_credentials-expired t e expired good later =
        found
        ∙ (rw expired (
            ap
              (λ r.
                refresh_and_answer disk codec services show_error at token_url (creds_in live) r
                  (after_refresh live))
              good
            ∙ ap
                (λ x.
                  persist_and_answer disk codec services show_error at token_url (creds_in live) t x
                    (after_refresh live))
                later))

    abbrev updated : TokenRefreshResponse → ℤ → FsAuth
    updated t e =
        with_tokens live.file t.access_token
          (kept_or_new live.file.tokens.refresh_token t.refresh_token) e

    -- A write that succeeds leaves the new tokens.
    stored_as-Holds :
        (t : TokenRefreshResponse) (e : ℤ)
        → (stored_as t e).0 ≡ ok tt
        → Holds disk laws codec lossless at apart (updated t e) (stored_as t e).1
    stored_as-Holds t e = go (stored_as t e) (
        update_file-IsWrite disk laws codec lossless at apart live.file t.access_token
          (kept_or_new live.file.tokens.refresh_token t.refresh_token) e (after_refresh live)
          (Holds-frame disk laws codec lossless at apart live.file
            (refresh_token-frame disk laws codec lossless at apart services show_error token_url
              separate live.file.tokens.refresh_token w)
            live.held))
      where
        go :
            (p : Result CredentialsError Unit × World)
            → IsWrite disk laws codec lossless at apart (after_refresh live) (updated t e) p
            → p.0 ≡ ok tt
            → Holds disk laws codec lossless at apart (updated t e) p.1
        go (ok u, after) h e = h
        go (err x, after) h e = cc

    abbrev kept_again :
        (t : TokenRefreshResponse) (e : ℤ)
        → (refresh_token services token_url live.file.tokens.refresh_token w).0 ≡ ok t
        → (stored_as t e).0 ≡ ok tt
        → Kept (stored_as t e).1
    kept_again t e good written = record {
      file = updated t e;
      held = stored_as-Holds t e written;
      has_access =
          refresh_token-access disk laws codec lossless at apart services show_error token_url
            separate live.file.tokens.refresh_token w t good;
      has_refresh =
          kept_or_new-live disk laws codec lossless at apart services show_error token_url separate
            live.file.tokens.refresh_token t.refresh_token live.has_refresh;
      has_account = live.has_account;
    }

  -- A token that a call has refreshed and stored is served to the next call without a request or a
  -- write, as long as it is not about to expire itself.
  pub get_credentials-once :
      {w : World} (live : Kept w) (t : TokenRefreshResponse) (e : ℤ)
      → token_expired live.file.tokens.expires_at (services.now_ms w) ≡ true
      → (refresh_token services token_url live.file.tokens.refresh_token w).0 ≡ ok t
      → expires_at_from services t.expires_in (after_refresh live) ≡ ok e
      → (stored_as live t e).0 ≡ ok tt
      → token_expired e (services.now_ms (stored_as live t e).1) ≡ false
      → let served : Result CredentialsError Credentials =
          ok (answer_with (creds_in live) t.access_token) in
        let after = (stored_as live t e).1 in
        (get_credentials disk codec services show_error at token_url w ≡ (served, after))
        × (get_credentials disk codec services show_error at token_url after ≡ (served, after))
  get_credentials-once live t e expired good later written fresh = (
    get_credentials-expired live t e expired good later,
    get_credentials-fresh (kept_again live t e good written) fresh,
  )
