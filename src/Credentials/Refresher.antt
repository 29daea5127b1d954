-- ===== src/Credentials/Refresher.antt =====
-- `OAuthFetcher` of src/credentials/refresher.rs. Each operation runs under the fetcher's mutex, so
-- it is one step of the world.
pub mod Expiry
pub mod Rotation
pub mod Service
pub mod Reuse
use codex_proxy_rs.Base.{
  ℤ, pos, ◌+ℤ◌, leb_ℤ, saturate, scale, Bool, not, Option, none, some, Str, codes, if◌then◌else◌,
  is_empty, non_empty, ◌++◌,
}
use codex_proxy_rs.Credentials.{
  Result, ok, err, Action, pure, raise, lift, ◌>>=◌, ◌>>◌, CredentialsError, unavailable, refresh,
  OAuthCredentials, Credentials, CredentialsFetcher, o_auth,
}
use codex_proxy_rs.Credentials.Storage.{Disk, Location}
use codex_proxy_rs.Credentials.File
use codex_proxy_rs.Credentials.File.{AuthCodec, read, update_file}
use codex_proxy_rs.Credentials.Oauth.{Services, TokenRefreshResponse, token_expired, refresh_token}

unfoldable pub expires_at_from :
    {World : Type 0} → Services World → ℤ → World → Result CredentialsError ℤ
unfolding leb_ℤ saturate ◌+ℤ◌ scale
expires_at_from services expires_in_secs w =
    if leb_ℤ expires_in_secs (pos 0)
    then err (
        refresh (
          codes "token endpoint returned a non-positive expiry: "
          ++ services.show_int expires_in_secs))
    else ok (saturate (services.now_ms w +ℤ saturate (scale expires_in_secs 1000)))

-- A missing rotation keeps the stored refresh token.
abbrev pub kept_or_new : Str → Str → Str
kept_or_new stored received = if is_empty received then stored else received

abbrev pub answer_with : OAuthCredentials → Str → Credentials
answer_with creds token = record { token = token; account_id = creds.user_id }

module _ {World : Type 0} (disk : Disk World) (codec : AuthCodec) (services : Services World)
    (show_error : CredentialsError → Str) (at : Location) (token_url : Str) where
  unfoldable pub persist :
      OAuthCredentials → TokenRefreshResponse → ℤ → Action World OAuthCredentials
  unfolding update_file
  persist current new_tokens expires_at_ms =
      let refreshed : OAuthCredentials = record {
        access_token = new_tokens.access_token;
        refresh_token = kept_or_new current.refresh_token new_tokens.refresh_token;
        expires_at_ms = expires_at_ms;
        user_id = current.user_id;
      } in
      do
        update_file disk codec at refreshed.access_token refreshed.refresh_token
            refreshed.expires_at_ms
        pure refreshed

  -- `expires_at_from` as a step.
  abbrev pub new_expiry : ℤ → Action World ℤ
  new_expiry expires_in_secs w = (expires_at_from services expires_in_secs w, w)

  unfoldable pub refresh_and_persist : OAuthCredentials → Action World OAuthCredentials
  unfolding refresh_token expires_at_from persist
  refresh_and_persist current = do
    new_tokens ← refresh_token services token_url current.refresh_token
    expires_at_ms ← new_expiry new_tokens.expires_in
    persist current new_tokens expires_at_ms

  abbrev pub check_found : Result CredentialsError OAuthCredentials → World → World
  check_found (err _) w = w
  check_found (ok creds) w =
      if not (token_expired creds.expires_at_ms (services.now_ms w))
      then w
      else (refresh_and_persist creds w).1

  -- One tick of the background loop; what it logs is left out.
  unfoldable pub check_and_refresh : World → World
  unfolding read
  check_and_refresh w = let (found, after) = read disk codec at w in check_found found after

  -- The new tokens are handed out whether or not they can be stored.
  unfoldable pub persist_and_answer :
      OAuthCredentials
      → TokenRefreshResponse
      → Result CredentialsError ℤ
      → World
      → Result CredentialsError Credentials × World
  unfolding update_file
  persist_and_answer creds new_tokens (err _) w = (ok (answer_with creds creds.access_token), w)
  persist_and_answer creds new_tokens (ok expires_at_ms) w = (
    ok (answer_with creds new_tokens.access_token),
    (update_file disk codec at new_tokens.access_token
        (kept_or_new creds.refresh_token new_tokens.refresh_token) expires_at_ms w).1,
  )

  abbrev pub refresh_and_answer :
      OAuthCredentials
      → Result CredentialsError TokenRefreshResponse
      → World
      → Result CredentialsError Credentials × World
  refresh_and_answer creds (err _) w = (ok (answer_with creds creds.access_token), w)
  refresh_and_answer creds (ok new_tokens) w =
      persist_and_answer creds new_tokens (expires_at_from services new_tokens.expires_in w) w

  abbrev pub answer_found :
      Result CredentialsError OAuthCredentials → World → Result CredentialsError Credentials × World
  answer_found (err e) w =
      (err (unavailable (codes "failed to get full credentials: " ++ show_error e)), w)
  answer_found (ok creds) w =
      if not (token_expired creds.expires_at_ms (services.now_ms w))
      then (ok (answer_with creds creds.access_token), w)
      else (let (received, after) = refresh_token services token_url creds.refresh_token w in
          refresh_and_answer creds received after)

  unfoldable pub get_credentials : Action World Credentials
  get_credentials w = let (found, after) = read disk codec at w in answer_found found after

  unfoldable pub refresh_credentials : Action World Unit
  unfolding read refresh_and_persist
  refresh_credentials = do creds ← read disk codec at; refresh_and_persist creds; pure tt

  -- The push to a file that does not exist.
  abbrev pub bootstrap : Str → Str → ℤ → Option Str → Action World Unit
  bootstrap access_token refresh_token expires_at_ms none =
      raise (
        unavailable (codes "userID is required when bootstrapping the filesystem credential store"))
  bootstrap access_token refresh_token expires_at_ms (some user_id) =
      File.init disk codec at (record {
        access_token = access_token;
        refresh_token = refresh_token;
        expires_at_ms = expires_at_ms;
        user_id = user_id;
      })

  unfoldable pub update_tokens : Str → Str → ℤ → Option Str → Action World Unit
  unfolding update_file File.exists
  update_tokens access_token refresh_token expires_at_ms user_id w =
      if File.exists disk codec at w
      then update_file disk codec at access_token refresh_token expires_at_ms w
      else bootstrap access_token refresh_token expires_at_ms (non_empty user_id) w

  unfoldable pub oauth_fetcher : CredentialsFetcher World
  unfolding get_credentials refresh_credentials update_tokens read
  oauth_fetcher = record {
    kind = o_auth;
    get_credentials = get_credentials;
    refresh_credentials = refresh_credentials;
    full_credentials = read disk codec at;
    update_tokens = update_tokens;
  }
